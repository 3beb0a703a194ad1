-- ===== src/Stream/Buffers.antt =====
-- The buffer of `protobuf_extract` in src/pdns-logger-protobuf.c: what a round of its loop leaves in
-- use, and when it begins with a whole frame.
use pdns_logger.Base.{
  ℕ, zero, suc, ◌+◌, ◌-◌, ◌*◌, ◌≤◌, ◌<◌, List, [], ◌∷◌, ◌++◌, ◌≡◌, sym, ◌∙◌, ap, ap₂, arith, length,
  take, drop, length-append, length-take, length-drop, take-append-drop, take-append_self,
  take-take, drop-take,
}
use pdns_logger.Stream.Frames.{Incomplete, no_bytes, one_byte, partial, Deframes, frame}
use pdns_logger.Stream.{Buffer, byte, frame_length, move_down, advance}

-- The bytes in use.
abbrev pub used : Buffer → List ℕ
used b = take b.blen b.mem

-- What is left moves to the front.
used-move_down :
    (mem : List ℕ) (blen n : ℕ)
    → n ≤ blen
    → blen ≤ length mem
    → take (blen - n) (move_down n (blen - n) mem) ≡ drop n (take blen mem)
used-move_down mem blen n h k =
    take-append_self (blen - n) (take (blen - n) (drop n mem)) (drop (blen - n) mem)
      (length-take (blen - n) (drop n mem) ∙ omega (arith, length-drop n mem))
    ∙ sym (drop-take n blen mem)

length-move_down :
    (mem : List ℕ) (n count : ℕ)
    → n + count ≤ length mem
    → length (move_down n count mem) ≡ length mem
length-move_down mem n count h =
    rw (length-append, length-take, length-drop, length-drop) (omega arith)

-- A buffer that begins with a whole frame.
split_frame :
    (mem : List ℕ) (blen : ℕ)
    → blen ≤ length mem
    → frame_length mem + 2 ≤ blen
    → take blen mem
      ≡ byte mem 0
        ∷ byte mem 1
        ∷ (take (frame_length mem) (drop 2 mem) ++ drop (frame_length mem + 2) (take blen mem))
split_frame [] blen h k = absurd (omega arith)
split_frame (hi ∷ []) blen h k = absurd (omega arith)
split_frame (hi ∷ lo ∷ mem) zero h k = absurd (omega arith)
split_frame (hi ∷ lo ∷ mem) (suc zero) h k = absurd (omega arith)
split_frame (hi ∷ lo ∷ mem) (suc (suc blen)) h k =
    let n = hi * 256 + lo in
    ap (λ t. hi ∷ lo ∷ t)
      (sym (take-append-drop n (take blen mem))
        ∙ ap₂ (λ s t. s ++ t) (take-take n blen mem (omega arith))
            (ap (λ m. drop m (take (suc (suc blen)) (hi ∷ lo ∷ mem))) two_more))
  where
    two_more : suc (suc (hi * 256 + lo)) ≡ hi * 256 + lo + 2
    two_more = omega arith

-- A buffer that does not.
pub short_Incomplete :
    (mem : List ℕ) (blen : ℕ)
    → blen ≤ length mem
    → blen < frame_length mem + 2
    → Incomplete (take blen mem)
short_Incomplete mem zero h k = no_bytes
short_Incomplete [] (suc blen) h k = no_bytes
short_Incomplete (hi ∷ mem) (suc zero) h k = one_byte hi
short_Incomplete (hi ∷ []) (suc (suc blen)) h k = one_byte hi
short_Incomplete (hi ∷ lo ∷ mem) (suc (suc blen)) h k =
    partial hi lo (take blen mem) (omega (arith, length-take blen mem))

unfoldable pub payload : Buffer → List ℕ
payload b = take (frame_length b.mem) (drop 2 b.mem)

-- A round of the loop takes the first frame off the bytes in use.
module _ (b : Buffer) (fits : b.blen ≤ length b.mem) (whole : frame_length b.mem + 2 ≤ b.blen) where
  used-advance : used (advance b) ≡ drop (frame_length b.mem + 2) (used b)
  used-advance = rw same (used-move_down b.mem b.blen (frame_length b.mem + 2) whole fits)
    where
      same : b.blen - frame_length b.mem - 2 ≡ b.blen - (frame_length b.mem + 2)
      same = omega arith

  pub length-advance : length (advance b).mem ≡ length b.mem
  length-advance = length-move_down b.mem _ _ (omega arith)

  length-payload : length (payload b) ≡ byte b.mem 0 * 256 + byte b.mem 1
  unfolding payload
  length-payload = length-take _ _ ∙ omega (arith, length-drop 2 b.mem)

  pub advance-Deframes :
      {frames : List (List ℕ)} {rest : List ℕ}
      → Deframes (used (advance b)) frames rest
      → Deframes (used b) (payload b ∷ frames) rest
  unfolding payload
  advance-Deframes d =
      frame (byte b.mem 0) (byte b.mem 1) (payload b) (used (advance b))
        (split_frame b.mem b.blen fits whole
          ∙ ap (λ t. byte b.mem 0 ∷ byte b.mem 1 ∷ (payload b ++ t)) (sym used-advance))
        length-payload d

pub length-used : (b : Buffer) → b.blen ≤ length b.mem → length (used b) ≡ b.blen
length-used b h = length-take b.blen b.mem ∙ omega arith

pub tiny_Incomplete : (mem : List ℕ) (blen : ℕ) → blen < 2 → Incomplete (take blen mem)
tiny_Incomplete mem zero h = no_bytes
tiny_Incomplete [] (suc blen) h = no_bytes
tiny_Incomplete (hi ∷ mem) (suc zero) h = one_byte hi
tiny_Incomplete (hi ∷ mem) (suc (suc blen)) h = absurd (omega arith)
