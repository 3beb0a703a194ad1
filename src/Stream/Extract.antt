-- ===== src/Stream/Extract.antt =====
-- `protobuf_extract` of src/pdns-logger-protobuf.c against the framing of a stream.
use mathlib.Core.Path.{fun_ext}
use pdns_logger.Base.{
  ℕ, zero, suc, ◌+◌, ◌≤◌, ◌<◌, Bool, true, false, List, [], ◌∷◌, Option, some, ◌≡◌, refl, sym, ◌∙◌,
  ap, ltb, ltb→lt, arith, leb, leb→le, ◌==◌, ==_iff, length, take, Result, ok, fault, Bool-cases,
  inl, inr,
}
use pdns_logger.Status.{Status, pdns_ok, pdns_retry}
use pdns_logger.Stream.Frames.{no_bytes, Deframes, stop}
use pdns_logger.Stream.{Buffer, frame_length, advance, parse, after, extract_loop, extract}
use pdns_logger.Stream.Buffers.{
  used, payload, short_Incomplete, tiny_Incomplete, length-used, length-advance, advance-Deframes,
}

-- PDNS_OK if nothing is left.
abbrev pub status_of : List ℕ → Status
status_of [] = pdns_ok
status_of (_ ∷ _) = pdns_retry

status_retry : (rest : List ℕ) → 0 < length rest → status_of rest ≡ pdns_retry
status_retry [] h = absurd (omega arith)
status_retry (x ∷ rest) h = refl

module _ {M S : Type 0} (ndebug : Bool) (unpack : List ℕ → Option M)
    (log : M → S → Result Status × S) where
  abbrev pub continue : Result Status × S → (S → Result (Unit {0}) × S) → Result (Unit {0}) × S
  continue (ok _, s) next = next s
  continue (fault e, s) next = (fault e, s)

  -- The frames, decoded and logged one after the other, up to a fault.
  unfoldable pub handle_frames : List (List ℕ) → S → Result (Unit {0}) × S
  handle_frames [] s = (ok tt, s)
  handle_frames (f ∷ fs) s = continue (parse ndebug unpack log f s) (handle_frames fs)

abbrev pub conclude :
    {S : Type 0} → Result (Unit {0}) × S → Status → Buffer → Result (Status × Buffer) × S
conclude (ok _, s) status b = (ok (status, b), s)
conclude (fault e, s) status b = (fault e, s)

module _ {M S : Type 0} (ndebug : Bool) (unpack : List ℕ → Option M)
    (log : M → S → Result Status × S) where
  -- What `protobuf_extract` does with a buffer: it hands on the whole frames in it, in order, keeps
  -- the rest at the front, and answers whether there is one.
  pub record Extraction (b : Buffer) (out : S → Option (Result (Status × Buffer) × S))
      : Type 0 where
    pub frames : List (List ℕ)
    pub rest : List ℕ
    pub buffer : Buffer
    pub deframes : Deframes (used b) frames rest
    pub kept : used buffer ≡ rest
    pub count : buffer.blen ≡ length rest
    pub size : length buffer.mem ≡ length b.mem
    pub result :
        (s : S)
        → out s ≡ some (conclude (handle_frames ndebug unpack log frames s) (status_of rest) buffer)

  after-continue :
      (fs : List (List ℕ)) (status : Status) (b : Buffer) (p : Result Status × S)
      → after ndebug unpack log p
          (λ s. some (conclude (handle_frames ndebug unpack log fs s) status b))
        ≡ some
            (conclude (continue ndebug unpack log p (handle_frames ndebug unpack log fs)) status b)
  after-continue fs status b (ok _, s) = refl
  after-continue fs status b (fault e, s) = refl

  module _ (fuel : ℕ) (b : Buffer) (s : S) where
    loop-short :
        leb (frame_length b.mem + 2) b.blen ≡ false
        → extract_loop ndebug unpack log (suc fuel) b s ≡ some (ok (pdns_retry, b), s)
    unfolding extract_loop
    loop-short short = rw short

    loop-last :
        leb (frame_length b.mem + 2) b.blen ≡ true
        → ((advance b).blen == 0) ≡ true
        → extract_loop ndebug unpack log (suc fuel) b s
          ≡ after ndebug unpack log
              (parse ndebug unpack log (payload b) s)
              (λ s'. some (ok (pdns_ok, advance b), s'))
    unfolding extract_loop payload
    loop-last whole last = rw (whole, last)

    loop-more :
        leb (frame_length b.mem + 2) b.blen ≡ true
        → ((advance b).blen == 0) ≡ false
        → extract_loop ndebug unpack log (suc fuel) b s
          ≡ after ndebug unpack log
              (parse ndebug unpack log (payload b) s)
              (extract_loop ndebug unpack log fuel (advance b))
    unfolding extract_loop payload
    loop-more whole more = rw (whole, more)

  -- With as much fuel as there are bytes the loop ends, and does what it should.
  extract_loop-Extraction :
      (fuel : ℕ) (b : Buffer)
      → 0 < b.blen
      → b.blen ≤ fuel
      → b.blen ≤ length b.mem
      → Extraction b (extract_loop ndebug unpack log fuel b)
  unfolding handle_frames
  extract_loop-Extraction zero b pos few fits = absurd (omega arith)
  extract_loop-Extraction (suc fuel) b pos few fits =
      elim (Bool-cases (leb (frame_length b.mem + 2) b.blen)) [
        | inr short ↦ record {
          frames = [];
          rest = used b;
          buffer = b;
          deframes = stop (short_Incomplete b.mem b.blen fits (ground arith));
          kept = refl;
          count = sym (length-used b fits);
          size = refl;
          result = λ s.
              loop-short fuel b s short
              ∙ ap (λ status. some (ok (status, b), s))
                  (sym (status_retry (used b) (omega (arith, length-used b fits))));
        }
        | inl whole ↦ elim (Bool-cases ((advance b).blen == 0)) [
          | inl last ↦
              let none_used = ap (λ n. take n (advance b).mem) ((==_iff _ 0).0 last) in
              record {
                frames = payload b ∷ [];
                rest = [];
                buffer = advance b;
                deframes =
                    advance-Deframes b fits (leb→le _ _ whole) (rw none_used (stop no_bytes));
                kept = none_used;
                count = (==_iff _ 0).0 last;
                size = length-advance b fits (leb→le _ _ whole);
                result = λ s.
                    loop-last fuel b s whole last
                    ∙ after-continue [] pdns_ok (advance b) (parse ndebug unpack log (payload b) s);
              }
          | inr more ↦
              let e =
                extract_loop-Extraction fuel (advance b) (ground arith) (omega arith)
                  (omega (arith, length-advance b fits (leb→le _ _ whole))) in
              record {
                frames = payload b ∷ e.frames;
                rest = e.rest;
                buffer = e.buffer;
                deframes = advance-Deframes b fits (leb→le _ _ whole) e.deframes;
                kept = e.kept;
                count = e.count;
                size = e.size ∙ length-advance b fits (leb→le _ _ whole);
                result = λ s.
                    loop-more fuel b s whole more
                    ∙ ap (after ndebug unpack log (parse ndebug unpack log (payload b) s))
                        (fun_ext e.result)
                    ∙ after-continue e.frames (status_of e.rest) e.buffer
                        (parse ndebug unpack log (payload b) s);
              }
        ]
      ]

  -- On a buffer with at least one byte in use, `protobuf_extract` ends, and hands exactly the whole
  -- frames at the front of it to the decoder and the engines, in order and up to a fault. It leaves
  -- the bytes behind them at the front of a buffer of the same size, and answers PDNS_OK if there are
  -- none and PDNS_RETRY otherwise.
  pub extract_refines :
      (b : Buffer) → 0 < b.blen → b.blen ≤ length b.mem → Extraction b (extract ndebug unpack log b)
  unfolding extract handle_frames
  extract_refines b pos fits = elim (Bool-cases (ltb b.blen 2)) [
    | inl tiny ↦ record {
      frames = [];
      rest = used b;
      buffer = b;
      deframes = stop (tiny_Incomplete b.mem b.blen (ltb→lt _ _ tiny));
      kept = refl;
      count = sym (length-used b fits);
      size = refl;
      result = λ s. rw tiny (
          ap (λ status. some (ok (status, b), s))
            (sym (status_retry (used b) (omega (arith, length-used b fits)))));
    }
    | inr enough ↦
        let e = extract_loop-Extraction b.blen b pos (omega arith) fits in
        record {
          frames = e.frames;
          rest = e.rest;
          buffer = e.buffer;
          deframes = e.deframes;
          kept = e.kept;
          count = e.count;
          size = e.size;
          result = λ s. rw enough (e.result s);
        }
  ]
