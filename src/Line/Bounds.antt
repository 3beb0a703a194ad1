-- ===== src/Line/Bounds.antt =====
-- The buffer `str` of a log line: when its content is the text appended so far, and when an
-- `append` writes past its end.
use pdns_logger.Base.{
  ℕ, ◌+◌, ◌-◌, ◌^◌, ◌≤◌, ◌<◌, Bool, true, ◌&&◌, List, [], ◌∷◌, ◌++◌, ◌≡◌, ◌≢◌, refl, sym, ◌∙◌, ap,
  arith, leb, if◌then◌else◌, length, take, Result, ok, fault, smashed, append_assoc, append-nil,
  length-append, length-take, take_all, take-append_beyond, take-take, lt→ltb, le→leb, leb→le,
  Bool-cases, inl, inr,
}
use pdns_logger.Base.Int.{pos, sub_ℕ, subtract}
use pdns_logger.Line.{Line, append, strncat, as_size}
use pdns_logger.Line.Pieces.{append_all}
use pdns_logger.Text.{Text}

-- The line after the text `s` was appended to it: the buffer holds what fits of it, and the count
-- of the bytes left may have gone below 0.
pub record At (s : Text) (l : Line) : Type 0 where
  pub holds : l.str ≡ take 1023 s
  pub left : l.sz ≡ sub_ℕ 1023 (length s)

subtract-sub_ℕ : (a n m : ℕ) → subtract (sub_ℕ a n) m ≡ sub_ℕ a (n + m)
subtract-sub_ℕ a n m = ground arith

strncat-fits :
    (s t : Text) (n : ℕ) → length (s ++ take n t) < 1024 → strncat s t n ≡ ok (s ++ take n t)
unfolding strncat
strncat-fits s t n h = rw (lt→ltb _ _ h)

strncat-smashed :
    (s t : Text) (n : ℕ) → 1024 ≤ length (s ++ take n t) → strncat s t n ≡ fault smashed
unfolding strncat
strncat-smashed s t n h = ground arith

-- What is cut off at the room that is left is cut off at the buffer's size.
cut_at_room :
    (s t : Text) → length s ≤ 1023 → s ++ take (1023 - length s) (take 1023 t) ≡ take 1023 (s ++ t)
cut_at_room s t h =
    ap (λ u. s ++ u) (take-take (1023 - length s) 1023 t (omega arith))
    ∙ sym (take-append_beyond 1023 s t h)

-- While the text so far fits, `append` appends what fits of the next one.
append-fits :
    (s t : Text) (l : Line)
    → At s l
    → length s ≤ 1023
    → (l' : Line) × (append t l ≡ ok l') × At (s ++ t) l'
unfolding append
append-fits s t l a h = (
  record { str = take 1023 (s ++ t); sz = subtract l.sz (length t) },
  rw (a.left, a.holds, take_all 1023 s h, room)
      (rw (strncat-fits s (take 1023 t) (1023 - length s) fits, cut_at_room s t h)),
  record { holds = refl; left = rw (a.left, subtract-sub_ℕ, length-append) },
)
  where
    room : sub_ℕ 1023 (length s) ≡ pos (1023 - length s)
    room = rw (le→leb _ _ h)

    fits : length (s ++ take (1023 - length s) (take 1023 t)) < 1024
    fits = rw (cut_at_room s t h, length-take) (omega arith)

huge_size : (n : ℕ) → 1023 < n → n < 2 ^ 31 → 0 < as_size (sub_ℕ 1023 n)
huge_size n h small = ground arith

length-pos : (t : Text) → t ≢ [] → 0 < length t
length-pos [] ne = absurd (ne refl)
length-pos (c ∷ t) ne = omega arith

-- Once the text so far does not fit, `sz` is negative, a huge size for `strncat`, and the next text
-- goes past the end of the buffer. (2 ^ 31 is where an `int` ends.)
append-smashed :
    (s t : Text) (l : Line)
    → At s l
    → 1023 < length s
    → length s < 2 ^ 31
    → t ≢ []
    → append t l ≡ fault smashed
unfolding append
append-smashed s t l a h small ne =
    rw (a.left, a.holds)
      (rw (strncat-smashed (take 1023 s) (take 1023 t) (as_size (sub_ℕ 1023 (length s))) over))
  where
    over : 1024 ≤ length (take 1023 s ++ take (as_size (sub_ℕ 1023 (length s))) (take 1023 t))
    over =
        rw (length-append, length-take, length-take, length-take)
          (omega (arith, huge_size (length s) h small, length-pos t ne))

-- All texts of a list, one behind the other.
abbrev pub joined : List Text → Text
joined [] = []
joined (t ∷ ts) = t ++ joined ts

-- Before each text, what stands in front of it fits: `n` bytes, and the texts before.
abbrev pub fits : ℕ → List Text → Bool
fits n [] = true
fits n (t ∷ ts) = leb n 1023 && fits (n + length t) ts

abbrev pub NonEmpty : List Text → Type 0
NonEmpty [] = Unit {0}
NonEmpty (t ∷ ts) = (t ≢ []) × NonEmpty ts

-- What appending a list of texts comes to, as far as the texts fit.
abbrev pub Outcome : Text → List Text → Result Line → Type 0
Outcome s ts r =
    if fits (length s) ts
    then ((l : Line) × (r ≡ ok l) × At (s ++ joined ts) l)
    else (r ≡ fault smashed)

-- Behind the text `s`, a list of texts is appended with no fault exactly if each of them starts at
-- or before byte 1023; the buffer then holds what fits of all the text.
pub append_all-Outcome :
    (ts : List Text) (s : Text) (l : Line)
    → At s l
    → NonEmpty ts
    → length s + length (joined ts) < 2 ^ 31
    → Outcome s ts (append_all ts l)
unfolding append_all
append_all-Outcome [] s l a ne h = (l, refl, rw append-nil a)
append_all-Outcome (t ∷ ts) s l a ne h = elim (Bool-cases (leb (length s) 1023)) [
  | inl room ↦
      let (k, e, b) = append-fits s t l a (leb→le _ _ room) in
      rw (room, e, ← append_assoc s t (joined ts), ← length-append s t)
        (append_all-Outcome ts (s ++ t) k b ne.1
          (omega (arith, length-append s t, length-append t (joined ts))))
  | inr full ↦ rw (full, append-smashed s t l a (ground arith) (omega arith) ne.0)
]

-- With room for all of them, the texts are appended whole.
pub append_all-fits :
    (ts : List Text) (s : Text) (l : Line)
    → At s l
    → length s + length (joined ts) ≤ 1023
    → (l' : Line) × (append_all ts l ≡ ok l') × At (s ++ joined ts) l'
unfolding append_all
append_all-fits [] s l a h = (l, refl, rw append-nil a)
append_all-fits (t ∷ ts) s l a h =
    let (k, e, b) = append-fits s t l a (omega arith) in
    rw (e, ← append_assoc s t (joined ts))
      (append_all-fits ts (s ++ t) k b
        (omega (arith, length-append s t, length-append t (joined ts))))
