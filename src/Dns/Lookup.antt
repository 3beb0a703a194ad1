-- ===== src/Dns/Lookup.antt =====
-- Which numbers the lookups of src/pdns-logger-dns.c name rightly. They read a table by its
-- position, while the tables pair each name with its number.
use native.Mathlib.Decide.{ℕ_discrete}
use pdns_logger.Base.{
  ℕ, zero, suc, ◌≤◌, ◌<◌, Bool, true, false, not, ◌&&◌, ◌||◌, List, [], ◌∷◌, Option, none, some,
  ◌≡◌, ◌≢◌, ◌↔◌, ◌⊎◌, inl, inr, refl, sym, ◌∙◌, arith, ltb, leb, ◌==◌, if◌then◌else◌, length,
  Bool-cases,
}
use pdns_logger.Dns.{
  NameVal, dns_classtab, dns_typetab, dns_rcodetab, name_at, rcode2p, type2p, class2p,
}
use pdns_logger.Text.Compare.{text_eq, text_eq_iff}
use pdns_logger.Text.{Text}

-- The name that a table gives a number: the name of the entry with that number.
pub name_of : List NameVal → ℕ → Option Text
name_of [] i = none
name_of (e ∷ table) i = if e.0 == i then e.1 else name_of table i

abbrev name_eq : Option Text → Option Text → Bool
name_eq (some a) (some b) = text_eq a b
name_eq none none = true
name_eq _ _ = false

name_eq_iff : (a b : Option Text) → (name_eq a b ≡ true) ↔ (a ≡ b)
name_eq_iff (some a) (some b) = ground (arith, text_eq_iff a b)
name_eq_iff _ _ = ground arith

abbrev same : Bool → Bool → Bool
same true b = b
same false b = not b

-- No entry has the number.
abbrev Unlisted : List NameVal → ℕ → Type 0
Unlisted [] i = Unit {0}
Unlisted (e ∷ table) i = (e.0 ≢ i) × Unlisted table i

name_of-Unlisted : (table : List NameVal) (i : ℕ) → Unlisted table i → name_of table i ≡ none
unfolding name_of
name_of-Unlisted [] i h = refl
name_of-Unlisted (e ∷ table) i h = ground (arith, name_of-Unlisted table i)

-- Where a range check of a lookup fails, and no entry is listed, both sides have no name.
name_at_beyond : (table : List NameVal) (i : ℕ) → length table ≤ i → name_at table i ≡ none
name_at_beyond table i h = ground arith

module _ (table : List NameVal) (agrees : ℕ → Bool) where
  abbrev check : ℕ → Bool
  check i = same (name_eq (name_at table i) (name_of table i)) (agrees i)

  check_iff : (i : ℕ) → check i ≡ true → (name_at table i ≡ name_of table i) ↔ (agrees i ≡ true)
  check_iff i h = ground (arith, name_eq_iff (name_at table i) (name_of table i))

  -- The check of all numbers below a bound.
  checked : ℕ → Bool
  checked zero = true
  checked (suc i) = if check i then checked i else false

  check-below : (i : ℕ) {n : ℕ} → checked n ≡ true → i < n → check i ≡ true
  unfolding checked
  check-below i {n = zero} all near = absurd (omega arith)
  check-below i {n = suc n} all near = ground (arith, check-below i {n = n})

  -- A check of the numbers below `n` decides them, if those from `n` on are checked too, or are
  -- neither in the table nor positions of it.
  by_check :
      (n i : ℕ)
      → checked n ≡ true
      → (n ≤ i → (check i ≡ true) ⊎ ((agrees i ≡ true) × (length table ≤ i) × Unlisted table i))
      → (name_at table i ≡ name_of table i) ↔ (agrees i ≡ true)
  by_check n i h far = elim (Bool-cases (ltb i n)) [
    | inl near ↦ check_iff i (check-below i h (ground arith))
    | inr out ↦ elim (far (ground arith)) [
      | inl checked ↦ check_iff i checked
      | inr (a, beyond, unlisted) ↦
          ((λ _. a), (λ _. name_at_beyond table i beyond ∙ sym (name_of-Unlisted table i unlisted)))
    ]
  ]

-- `pdns_logger_class2p` agrees with its table exactly on 0, 1, 5 and on the numbers from 6 on but
-- 255. So it takes 2, 3 and 4 for the classes at these positions (CH, HS and ANY), and has no name
-- for 255, which is ANY.
class2p_iff :
    (i : ℕ)
    → (class2p i ≡ name_of dns_classtab i) ↔ ((ltb i 2 || (leb 5 i && not (i == 255))) ≡ true)
unfolding class2p name_of
class2p_iff i =
    by_check dns_classtab (λ i. ltb i 2 || (leb 5 i && not (i == 255))) 256 i
      (unfold checked name_of in refl) (λ h. inr (ground arith, omega arith, omega arith))

-- `pdns_logger_type2p` agrees with its table exactly on the numbers below 42, where a type's
-- number is its position, on 50, and on those above that are not 250 to 256 or 65536. So it gives 42
-- to 49 the names of other types, and has no name for the types 250 to 256.
type2p_iff :
    (i : ℕ)
    → (type2p i ≡ name_of dns_typetab i)
      ↔ ((ltb i 42 || (leb 50 i && not (leb 250 i && leb i 256) && not (i == 65536))) ≡ true)
unfolding type2p
type2p_iff i =
    by_check dns_typetab
      (λ i. ltb i 42 || (leb 50 i && not (leb 250 i && leb i 256) && not (i == 65536))) 257 i
      (unfold checked name_of in refl)
      (λ h. elim (ℕ_discrete i 65536) [
        | yes e ↦ inl (rw e (unfold name_of in refl))
        | no ne ↦ inr (ground arith, omega arith, omega arith)
      ])

-- `pdns_logger_rcode2p` agrees with its table exactly on the codes below 11, and on the numbers
-- from 14 on but 16, 17 and 18. So it gives 11 to 13 the names of the codes 16 to 18, and has no
-- name for those.
rcode2p_iff :
    (i : ℕ)
    → (rcode2p i ≡ name_of dns_rcodetab i)
      ↔ ((ltb i 11 || (leb 14 i && not (leb 16 i && leb i 18))) ≡ true)
unfolding rcode2p
rcode2p_iff i =
    by_check dns_rcodetab (λ i. ltb i 11 || (leb 14 i && not (leb 16 i && leb i 18))) 19 i
      (unfold checked name_of in refl) (λ h. inr (ground arith, omega arith, omega arith))

-- The three lookups of a name agree with their tables exactly on these numbers, and give other names
-- or none on all others. Types: those below 42, where a type's number is its position, 50, and those
-- above that are not 250 to 256 or 65536; so 42 to 49 get the names of other types, and 250 to 256
-- none. Classes: 0, 1, 5 and those above but 255; so 2, 3 and 4 are taken for the classes at these
-- positions (CH, HS and ANY), and 255, which is ANY, has no name. Codes: those below 11, and from 14
-- on but 16, 17 and 18; so 11 to 13 get the names of the codes 16 to 18, and those have none.
pub lookups_iff :
    (t c r : ℕ)
    → ((type2p t ≡ name_of dns_typetab t)
        ↔ ((ltb t 42 || (leb 50 t && not (leb 250 t && leb t 256) && not (t == 65536))) ≡ true))
      × ((class2p c ≡ name_of dns_classtab c) ↔ ((ltb c 2 || (leb 5 c && not (c == 255))) ≡ true))
      × ((rcode2p r ≡ name_of dns_rcodetab r)
          ↔ ((ltb r 11 || (leb 14 r && not (leb 16 r && leb r 18))) ≡ true))
lookups_iff t c r = (type2p_iff t, class2p_iff c, rcode2p_iff r)
