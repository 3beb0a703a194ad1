-- ===== src/Clients/Alone.antt =====
-- The turns of one thread of src/pdns-logger-protobuf.c in a row, against protobuf_extract.
use mathlib.Core.Option
use pdns_logger.Base.{
  ℕ, zero, suc, ◌+◌, ◌≤◌, Bool, List, Option, none, some, ◌≡◌, refl, sym, ap, ◌∙◌, arith, leb, ◌==◌,
  if◌then◌else◌, length, take, drop, Result, ok, fault, Bool-cases, inl, inr,
}
use pdns_logger.Clients.{Phase, reading, extracting, closed, handled, turn}
use pdns_logger.Status.{Status, pdns_ok}
use pdns_logger.Stream.Buffers.{used}
use pdns_logger.Stream.Extract.{status_of, handle_frames, extract_refines, conclude}
use pdns_logger.Stream.Frames.{Deframes}
use pdns_logger.Stream.{
  Buffer, end_of_file, frame_length, advance, parse, after, extract_loop, extract,
}

-- `protobuf_extract` without its status.
abbrev pub drop_status : {S : Type 0} → Result (Status × Buffer) × S → Result Buffer × S
drop_status (ok (status, b), s) = (ok b, s)
drop_status (fault e, s) = (fault e, s)

module _ {M S : Type 0} (ndebug : Bool) (unpack : List ℕ → Option M)
    (log : M → S → Result Status × S) where
  abbrev next :
      Result (Phase × Buffer) × S
      → (Buffer → S → Option (Result Buffer × S))
      → Option (Result Buffer × S)
  next (ok (extracting, b), s) go = go b s
  next (ok (reading, b), s) go = some (ok b, s)
  next (ok (closed, b), s) go = some (ok b, s)
  next (fault e, s) go = some (fault e, s)

  -- Turns of one thread until it reads again, at most so many.
  unfoldable pub alone : ℕ → Buffer → S → Option (Result Buffer × S)
  alone zero b s = none
  alone (suc n) b s = next (turn ndebug unpack log extracting end_of_file b s) (alone n)

  alone-extract_loop :
      (n : ℕ) (b : Buffer) (s : S)
      → alone n b s ≡ Option.map drop_status (extract_loop ndebug unpack log n b s)
  unfolding alone extract_loop turn
  alone-extract_loop zero b s = refl
  alone-extract_loop (suc n) b s = elim (Bool-cases (leb (frame_length b.mem + 2) b.blen)) [
    | inl whole ↦ rw whole (
        by_parse (parse ndebug unpack log (take (frame_length b.mem) (drop 2 b.mem)) s)
          (λ u. alone-extract_loop n (advance b) u))
    | inr short ↦ rw short refl
  ]
    where
      by_parse :
          (m : Result Status × S)
          → ((u : S)
              → alone n (advance b) u
                ≡ Option.map drop_status (extract_loop ndebug unpack log n (advance b) u))
          → next (handled ndebug unpack log m (advance b)) (alone n)
            ≡ Option.map drop_status (
                if (advance b).blen == 0
                then after ndebug unpack log m (λ t. some (ok (pdns_ok, advance b), t))
                else after ndebug unpack log m (extract_loop ndebug unpack log n (advance b)))
      by_parse (ok status, u) ih = elim (Bool-cases ((advance b).blen == 0)) [
        | inl last ↦ rw last refl
        | inr more ↦ rw more (ih u)
      ]
      by_parse (fault e, u) ih = elim (Bool-cases ((advance b).blen == 0)) [
        | inl last ↦ rw last refl
        | inr more ↦ rw more refl
      ]

  to_loop :
      (b : Buffer) (s : S)
      → 2 ≤ b.blen
      → extract ndebug unpack log b s ≡ extract_loop ndebug unpack log b.blen b s
  unfolding extract
  to_loop b s h = ground arith

  either :
      (m : Result (Unit {0}) × S) (b : Buffer) (status : Status)
      → drop_status (conclude m status b) ≡ drop_status (conclude m pdns_ok b)
  either (ok _, s) b status = refl
  either (fault e, s) b status = refl

  -- A thread in the loop of `protobuf_extract`, with at least two bytes in use and no other thread
  -- between its turns, is back at `read`, or has faulted, after no more turns than its buffer has
  -- bytes. By then it has done what `protobuf_extract` does: every whole frame in the buffer is
  -- decoded and logged, in order and up to a fault.
  pub alone_lem :
      (b : Buffer) (s : S)
      → 2 ≤ b.blen
      → b.blen ≤ length b.mem
      → (frames : List (List ℕ)) × (rest : List ℕ) × (b' : Buffer) × Deframes (used b) frames rest
        × (used b' ≡ rest)
        × (alone b.blen b s ≡ Option.map drop_status (extract ndebug unpack log b s))
        × (alone b.blen b s
            ≡ some (drop_status (conclude (handle_frames ndebug unpack log frames s) pdns_ok b')))
  alone_lem b s enough fits =
      let x = extract_refines ndebug unpack log b (omega arith) fits in
      let same =
        alone-extract_loop b.blen b s ∙ ap (Option.map drop_status) (sym (to_loop b s enough)) in
      (
        x.frames,
        x.rest,
        x.buffer,
        x.deframes,
        x.kept,
        same,
        same
            ∙ ap (Option.map drop_status) (x.result s)
            ∙ ap some
                (either (handle_frames ndebug unpack log x.frames s) x.buffer (status_of x.rest)),
      )
