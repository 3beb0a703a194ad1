-- ===== src/Stream/Unique.antt =====
-- A stream of src/pdns-logger-protobuf.c is cut into frames in one way only.
use mathlib.Core.List.{head-eq_of_cons-eq, tail-eq_of_cons-eq}
use pdns_logger.Base.{
  ℕ, ◌+◌, ◌*◌, List, ◌∷◌, ◌++◌, ◌≡◌, refl, sym, ap, ap₂, ◌∙◌, arith, length, take, drop,
  length-append, take-append_self, drop-append_self,
}
use pdns_logger.Stream.Frames.{Incomplete, no_bytes, one_byte, partial, Deframes, stop, frame}

-- What a frame's front looks like from the bytes: they begin with its length, and are long enough.
whole_not-Incomplete :
    {bytes : List ℕ} (hi lo : ℕ) (payload tail : List ℕ)
    → bytes ≡ hi ∷ lo ∷ (payload ++ tail)
    → length payload ≡ hi * 256 + lo
    → ¬ Incomplete bytes
whole_not-Incomplete hi lo payload tail e n no_bytes = absurd (cc)
whole_not-Incomplete hi lo payload tail e n (one_byte h) = absurd (cc (tail-eq_of_cons-eq e))
whole_not-Incomplete hi lo payload tail e n (partial h l t short) =
    let same_hi = head-eq_of_cons-eq e in
    let same_lo = head-eq_of_cons-eq (tail-eq_of_cons-eq e) in
    let same_tail = tail-eq_of_cons-eq (tail-eq_of_cons-eq e) in
    let size = ap length same_tail ∙ length-append payload tail in
    omega (arith, same_hi, same_lo, size)

split_unique : (p t p' t' : List ℕ) → p ++ t ≡ p' ++ t' → length p ≡ length p' → (p ≡ p') × (t ≡ t')
split_unique p t p' t' e n = (
  sym (take-append_self (length p) p t refl)
      ∙ ap (take (length p)) e
      ∙ take-append_self (length p) p' t' (sym n),
  sym (drop-append_self (length p) p t refl)
      ∙ ap (drop (length p)) e
      ∙ drop-append_self (length p) p' t' (sym n),
)

pub Deframes-unique :
    {bytes bytes' rest rest' : List ℕ} {frames frames' : List (List ℕ)}
    → bytes ≡ bytes'
    → Deframes bytes frames rest
    → Deframes bytes' frames' rest'
    → (frames ≡ frames') × (rest ≡ rest')
Deframes-unique same (stop i) (stop j) = (refl, same)
Deframes-unique same (stop i) (frame hi lo payload tail e n d) =
    absurd (whole_not-Incomplete hi lo payload tail (same ∙ e) n i)
Deframes-unique same (frame hi lo payload tail e n d) (stop j) =
    absurd (whole_not-Incomplete hi lo payload tail (sym same ∙ e) n j)
Deframes-unique same (frame hi lo payload tail e n d) (frame hi' lo' payload' tail' e' n' d') =
    let both : hi ∷ lo ∷ (payload ++ tail) ≡ hi' ∷ lo' ∷ (payload' ++ tail') = sym e ∙ same ∙ e' in
    let same_hi = head-eq_of_cons-eq both in
    let same_lo = head-eq_of_cons-eq (tail-eq_of_cons-eq both) in
    let (same_payload, same_tail) =
      split_unique payload tail payload' tail' (tail-eq_of_cons-eq (tail-eq_of_cons-eq both))
        (n ∙ ap₂ (λ a b. a * 256 + b) same_hi same_lo ∙ sym n') in
    let (same_frames, same_rest) = Deframes-unique same_tail d d' in
    (ap₂ (λ p fs. p ∷ fs) same_payload same_frames, same_rest)
