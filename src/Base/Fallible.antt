-- ===== src/Base/Fallible.antt =====
-- The ways in which the C code leaves defined behaviour, and computations that may do so.

-- `assertion`: an `assert(0)` of a build that keeps assertions; `smashed`: a write past the end of
-- a buffer on the stack; `bad_pointer`: a read through a null or stale pointer; `bad_thread`: a join
-- of a thread that was never created; `stuck`: a join of a thread that never ends.
pub data Fault : Type 0 where
  assertion smashed bad_pointer bad_thread stuck : Fault

pub data Result {ℓ} (A : Type ℓ) : Type ℓ where
  fault : Fault → Result A
  ok : A → Result A

infixl 5 ◌>>=◌
abbrev pub ◌>>=◌ {ℓ κ} : {A : Type ℓ} {B : Type κ} → Result A → (A → Result B) → Result B
fault e >>= next = fault e
ok value >>= next = next value
