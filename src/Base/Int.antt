-- ===== src/Base/Int.antt =====
-- The signed numbers that an `int` counter may run into. `negsuc n` is -(n + 1).
use pdns_logger.Base.Tests.{leb, if◌then◌else◌}
use Prim.Native.Nat.{ℕ, ◌+◌, ◌-◌}

pub data ℤ : Type 0 where
  pos : ℕ → ℤ
  negsuc : ℕ → ℤ

-- a - b, as an integer.
abbrev pub sub_ℕ : ℕ → ℕ → ℤ
sub_ℕ a b = if leb b a then pos (a - b) else negsuc (b - a - 1)

-- An integer less a natural number: `sz -= pc`.
abbrev pub subtract : ℤ → ℕ → ℤ
subtract (pos a) b = sub_ℕ a b
subtract (negsuc a) b = negsuc (a + b)
