-- ===== src/Base/Threads.antt =====
-- Threads by their numbers: where they are, and lists to which several of them add.
use Prim.Native.Nat.{ℕ}
use mathlib.Core.List.{List, [], ◌∷◌, ◌++◌, append-nil}
use mathlib.Core.Logic.{◌≢◌}
use mathlib.Core.Path.{◌≡◌, refl}
use native.Mathlib.Omega.{arith}
use pdns_logger.Base.Tests.{◌==◌, if◌then◌else◌}

-- What one thread has of a list that several threads have written.
abbrev pub of_thread : {A : Type 0} → ℕ → List (ℕ × A) → List A
of_thread i [] = []
of_thread i ((j, r) ∷ rs) = if j == i then r ∷ of_thread i rs else of_thread i rs

pub of_thread-append :
    {A : Type 0} (i : ℕ) (rs ts : List (ℕ × A))
    → of_thread i (rs ++ ts) ≡ of_thread i rs ++ of_thread i ts
of_thread-append i [] ts = refl
of_thread-append i ((j, r) ∷ rs) ts = ground (arith, of_thread-append i rs ts)

pub of_thread-own :
    {A : Type 0} (i : ℕ) (rs : List (ℕ × A)) (r : A)
    → of_thread i (rs ++ (i, r) ∷ []) ≡ of_thread i rs ++ r ∷ []
of_thread-own i rs r = ground (arith, of_thread-append i rs ((i, r) ∷ []))

pub of_thread-other :
    {A : Type 0} (i j : ℕ) (rs : List (ℕ × A)) (r : A)
    → j ≢ i
    → of_thread j (rs ++ (i, r) ∷ []) ≡ of_thread j rs
of_thread-other i j rs r n =
    ground (arith, of_thread-append j rs ((i, r) ∷ []), append-nil (of_thread j rs))

-- Thread `i` gets to `p`.
abbrev pub goto : {B : Type 0} → ℕ → B → (ℕ → B) → ℕ → B
goto i p f j = if j == i then p else f j

pub goto_here : {B : Type 0} (i : ℕ) (p : B) (phase : ℕ → B) → goto i p phase i ≡ p
goto_here i p phase = ground arith

pub goto_other :
    {B : Type 0} (i : ℕ) (p : B) (phase : ℕ → B) (j : ℕ) → j ≢ i → goto i p phase j ≡ phase j
goto_other i p phase j n = ground arith
