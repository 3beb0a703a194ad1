-- ===== src/Text/Compare.antt =====
-- `strncmp` over one more than a string's length compares whole strings.
use pdns_logger.Base.{
  suc, Bool, true, false, ◌&&◌, [], ◌∷◌, ◌≡◌, ◌↔◌, refl, ap, arith, length, ◌==◌,
}
use pdns_logger.Text.{Text, strn_eq}

abbrev pub text_eq : Text → Text → Bool
text_eq [] [] = true
text_eq (x ∷ a) (y ∷ b) = x == y && text_eq a b
text_eq _ _ = false

pub text_eq_iff : (a b : Text) → (text_eq a b ≡ true) ↔ (a ≡ b)
text_eq_iff (x ∷ a) (y ∷ b) = ground (arith, text_eq_iff a b)
text_eq_iff _ _ = ground arith

-- The terminating NUL of one of the strings is compared too, so neither can be a prefix.
strn_eq_left : (a b : Text) → strn_eq a b (suc (length a)) ≡ text_eq a b
unfolding strn_eq
strn_eq_left [] [] = refl
strn_eq_left [] (y ∷ b) = refl
strn_eq_left (x ∷ a) [] = refl
strn_eq_left (x ∷ a) (y ∷ b) = ap (λ t. x == y && t) (strn_eq_left a b)

pub strn_eq_right : (a b : Text) → strn_eq a b (suc (length b)) ≡ text_eq a b
unfolding strn_eq
strn_eq_right [] [] = refl
strn_eq_right [] (y ∷ b) = refl
strn_eq_right (x ∷ a) [] = refl
strn_eq_right (x ∷ a) (y ∷ b) = ap (λ t. x == y && t) (strn_eq_right a b)

-- `strncmp(a, b, strlen(a) + 1)` and `strncmp(a, b, strlen(b) + 1)` are 0 exactly when the two
-- strings are equal.
pub strn_eq_lem :
    (a b : Text)
    → ((strn_eq a b (suc (length a)) ≡ true) ↔ (a ≡ b))
      × ((strn_eq a b (suc (length b)) ≡ true) ↔ (a ≡ b))
strn_eq_lem a b = ground (arith, strn_eq_left a b, strn_eq_right a b, text_eq_iff a b)
