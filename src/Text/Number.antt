-- ===== src/Text/Number.antt =====
-- `atoi` reads back what `%u` prints.
use native.Mathlib.Nat.{pow-suc}
use pdns_logger.Base.{
  ℕ, zero, suc, ◌+◌, ◌*◌, ◌/◌, ◌%◌, ◌^◌, ◌<◌, false, [], ◌∷◌, ◌≡◌, refl, ◌∙◌, arith, Bool-cases,
  inl, inr, ltb, lt→ltb,
}
use pdns_logger.Text.{Text, digits_from, decimal_digits, decimal, atoi, to_int}

digits_from-cons :
    (acc d n : ℕ) (rest : Text)
    → d < 10
    → acc * 10 + d ≡ n
    → digits_from acc ((b'0' + d) ∷ rest) ≡ digits_from n rest
unfolding digits_from
digits_from-cons acc d n rest h e = rw (← e) (ground arith)

-- With enough fuel the digits printed in front of `rest` read back as the number.
digits_from-decimal_digits :
    (fuel n : ℕ) (rest : Text)
    → n < 10 ^ suc fuel
    → digits_from 0 (decimal_digits (suc fuel) n rest) ≡ digits_from n rest
unfolding decimal_digits
digits_from-decimal_digits zero n rest h =
    rw (lt→ltb n 10 h) (digits_from-cons 0 n n rest h (omega arith))
digits_from-decimal_digits (suc fuel) n rest h = elim (Bool-cases (ltb n 10)) [
  | inl small ↦ rw small (digits_from-cons 0 n n rest (ground arith) (omega arith))
  | inr large ↦ rw large (
      digits_from-decimal_digits fuel (n / 10) _ (omega (arith, pow-suc 10 (suc fuel)))
      ∙ digits_from-cons (n / 10) (n % 10) n rest (omega arith) (omega arith))
]

-- What is printed begins with a digit.
pub record Starts (s : Text) : Type 0 where
  pub digit : ℕ
  pub rest : Text
  pub splits : s ≡ (b'0' + digit) ∷ rest
  pub small : digit < 10

digit-Starts : (d : ℕ) (rest : Text) → d < 10 → Starts ((b'0' + d) ∷ rest)
digit-Starts d rest h = record { digit = d; rest = rest; splits = refl; small = h }

decimal_digits-Starts :
    (fuel n : ℕ) (rest : Text) → Starts rest → Starts (decimal_digits fuel n rest)
unfolding decimal_digits
decimal_digits-Starts zero n rest h = h
decimal_digits-Starts (suc fuel) n rest h = elim (Bool-cases (ltb n 10)) [
  | inl small ↦ rw small (digit-Starts n rest (ground arith))
  | inr large ↦
      rw large (decimal_digits-Starts fuel (n / 10) _ (digit-Starts (n % 10) rest (omega arith)))
]

pub decimal-Starts : (n : ℕ) → Starts (decimal n)
unfolding decimal decimal_digits
decimal-Starts n = elim (Bool-cases (ltb n 10)) [
  | inl small ↦ rw small (digit-Starts n [] (ground arith))
  | inr large ↦
      rw large (decimal_digits-Starts 19 (n / 10) _ (digit-Starts (n % 10) [] (omega arith)))
]

atoi_digit :
    (d : ℕ) (s : Text)
    → d < 10
    → atoi ((b'0' + d) ∷ s) ≡ to_int false (digits_from 0 ((b'0' + d) ∷ s))
unfolding atoi
atoi_digit d s h = ground arith

atoi-Starts : (s : Text) → Starts s → atoi s ≡ to_int false (digits_from 0 s)
atoi-Starts s h = rw h.splits (atoi_digit h.digit h.rest h.small)

digits_from-decimal : (n : ℕ) → n < 10 ^ 20 → digits_from 0 (decimal n) ≡ n
unfolding decimal digits_from
digits_from-decimal n h = digits_from-decimal_digits 19 n [] h

-- `atoi` of what `%u` prints is the number, if it fits an `int`.
pub atoi-decimal : (n : ℕ) → n < 2 ^ 31 → atoi (decimal n) ≡ n
atoi-decimal n h =
    rw (atoi-Starts (decimal n) (decimal-Starts n))
      (omega (arith, digits_from-decimal n (omega arith)))
