-- ===== src/Sqlite/Slotted.antt =====
-- What becomes of the statements of src/pdns-logger-sqlite.c if the queue is taken for the one slot
-- that it amounts to, whenever the engine's thread comes.
use mathlib.Core.List.{Sublist, Sublistᴰ}
use mathlib.Core.List.Sublistᴰ
use mathlib.Core.Path.{subst, subst₂}
use pdns_logger.Base.{
  ℕ, ◌+◌, Bool, true, false, List, [], ◌∷◌, ◌++◌, Option, none, some, refl, sym, if◌then◌else◌,
  append_assoc, append-nil,
}
use pdns_logger.Sqlite.Rows.{Row}
use pdns_logger.Text.{Text}

abbrev pub listed {ℓ} : {A : Type ℓ} → Option A → List A
listed none = []
listed (some a) = a ∷ []

-- The slot behind a push: a statement is lost if it could not be formatted, if there is no memory, or
-- if the slot is taken.
abbrev pub offered {ℓ} : {A : Type ℓ} → Bool → Option A → Option A → Option A
offered memory v (some w) = some w
offered memory none none = none
offered memory (some v) none = if memory then some v else none

abbrev pub statements : (Row → Option Text) → List Row → List Text
statements f [] = []
statements f (x ∷ xs) = listed (f x) ++ statements f xs

-- `memory t` is the answer of `malloc` in the t-th push, and `comes t` whether the thread runs a
-- round after it.
module _ (f : Row → Option Text) (memory comes : ℕ → Bool) where
  -- The statements that are taken out, with `w` in the slot before.
  abbrev pub passed : ℕ → List Row → Option Text → List Text
  passed t [] w = []
  passed t (x ∷ xs) w =
      let w' = offered (memory t) (f x) w in
      if comes t then listed w' ++ passed (t + 1) xs none else passed (t + 1) xs w'

  -- What is in the slot in the end.
  abbrev pub left : ℕ → List Row → Option Text → Option Text
  left t [] w = w
  left t (x ∷ xs) w =
      let w' = offered (memory t) (f x) w in
      if comes t then left (t + 1) xs none else left (t + 1) xs w'

  offered-Sublistᴰ :
      (b : Bool) (v w : Option Text) → Sublistᴰ (listed (offered b v w)) (listed w ++ listed v)
  offered-Sublistᴰ b none (some w) = Sublistᴰ.cons-cons refl Sublistᴰ.slnil
  offered-Sublistᴰ b (some v) (some w) = Sublistᴰ.cons-cons refl (Sublistᴰ.cons Sublistᴰ.slnil)
  offered-Sublistᴰ b none none = Sublistᴰ.slnil
  offered-Sublistᴰ true (some v) none = Sublistᴰ.cons-cons refl Sublistᴰ.slnil
  offered-Sublistᴰ false (some v) none = Sublistᴰ.cons Sublistᴰ.slnil

  slotted-Sublistᴰ :
      (t : ℕ) (xs : List Row) (w : Option Text)
      → Sublistᴰ (passed t xs w ++ listed (left t xs w)) (listed w ++ statements f xs)
  slotted-Sublistᴰ t [] w =
      subst (Sublistᴰ (listed w)) (sym (append-nil (listed w))) (Sublistᴰ.refl (listed w))
  slotted-Sublistᴰ t (x ∷ xs) w =
      let w' = offered (memory t) (f x) w in
      let first = offered-Sublistᴰ (memory t) (f x) w in
      by_round w' (comes t) first (slotted-Sublistᴰ (t + 1) xs none)
        (slotted-Sublistᴰ (t + 1) xs w')
    where
      by_round :
          (w' : Option Text) (b : Bool)
          → Sublistᴰ (listed w') (listed w ++ listed (f x))
          → Sublistᴰ (passed (t + 1) xs none ++ listed (left (t + 1) xs none)) (statements f xs)
          → Sublistᴰ
              (passed (t + 1) xs w' ++ listed (left (t + 1) xs w'))
              (listed w' ++ statements f xs)
          → Sublistᴰ
              ((if b then listed w' ++ passed (t + 1) xs none else passed (t + 1) xs w')
                ++ listed (if b then left (t + 1) xs none else left (t + 1) xs w'))
              (listed w ++ (listed (f x) ++ statements f xs))
      by_round w' true first rest _ =
          subst₂ Sublistᴰ
            (sym
              (append_assoc (listed w') (passed (t + 1) xs none) (listed (left (t + 1) xs none))))
            (append_assoc (listed w) (listed (f x)) (statements f xs)) (Sublistᴰ.append first rest)
      by_round w' false first _ rest =
          subst (Sublistᴰ (passed (t + 1) xs w' ++ listed (left (t + 1) xs w')))
            (append_assoc (listed w) (listed (f x)) (statements f xs))
            (Sublistᴰ.trans rest (Sublistᴰ.append first (Sublistᴰ.refl (statements f xs))))

  -- Nothing comes out twice, or in another order.
  pub slotted-Sublist :
      (t : ℕ) (xs : List Row) (w : Option Text)
      → Sublist (passed t xs w ++ listed (left t xs w)) (listed w ++ statements f xs)
  slotted-Sublist t xs w = ∣ slotted-Sublistᴰ t xs w ∣₁
