-- ===== src/Stream/Disconnect.antt =====
-- When the thread of src/pdns-logger-protobuf.c itself closes a connection.
use mathlib.Core.Option
use pdns_logger.Base.{
  ℕ, ◌+◌, ◌≤◌, ◌<◌, Bool, List, [], ◌∷◌, Option, some, ◌≡◌, ◌⊎◌, inl, inr, sym, ◌∙◌, ap, arith,
  length, Result, ok, fault,
}
use pdns_logger.Status.{Status}
use pdns_logger.Stream.Buffers.{used, length-used}
use pdns_logger.Stream.Extract.{extract_refines, handle_frames, conclude, status_of}
use pdns_logger.Stream.Frames.{Incomplete, partial, Deframes-Incomplete}
use pdns_logger.Stream.Session.{Conn, Reach, Reach-Inv, on_read-room, length-fill}
use pdns_logger.Stream.{
  Buffer, max_buffer_size, frame_length, got, disconnected, fill, reacted, on_read,
}

Incomplete-frame_length :
    (bytes : List ℕ) → Incomplete bytes → 2 ≤ length bytes → length bytes < frame_length bytes + 2
Incomplete-frame_length [] i h = absurd (omega arith)
Incomplete-frame_length (hi ∷ []) i h = absurd (omega arith)
Incomplete-frame_length (hi ∷ lo ∷ tail) (partial _ _ _ less) h = omega arith

module _ {M S : Type 0} (ndebug : Bool) (unpack : List ℕ → Option M)
    (log : M → S → Result Status × S) where
  -- The status of an extraction never closes the connection.
  stays :
      (r : Result (Unit {0}) × S) (rest : List ℕ) (b b' : Buffer) (s : S)
      → ¬ (
          Option.map (reacted ndebug unpack log) (some (conclude r (status_of rest) b))
          ≡ some (ok (disconnected, b'), s))
  stays (ok x, s) [] b b' t e = cc
  stays (ok x, s) (y ∷ rest) b b' t e = cc
  stays (fault x, s) rest b b' t e = cc

  full_frame :
      (b : Buffer)
      → b.blen ≤ length b.mem
      → b.blen ≡ max_buffer_size
      → Incomplete (used b)
      → 8190 < frame_length (used b)
  full_frame b fits full i =
      let n = length-used b fits in
      omega (arith, n, Incomplete-frame_length (used b) i (omega (arith, n)))

  -- If the thread closes the connection on a chunk that `read` returned or could have returned, then
  -- its buffer is full, and all it holds is the beginning of a frame of more than 8190 bytes.
  pub disconnect_lem :
      {s₀ : S} {c : Conn ndebug unpack log} (chunk : List ℕ) {b : Buffer} {s : S}
      → Reach ndebug unpack log s₀ c
      → 0 < length chunk
      → (c.buffer.blen + length chunk ≤ max_buffer_size) ⊎ (c.buffer.blen ≡ max_buffer_size)
      → on_read ndebug unpack log (got chunk) c.buffer c.engines ≡ some (ok (disconnected, b), s)
      → (c.buffer.blen ≡ max_buffer_size) × (8190 < frame_length (used c.buffer))
  disconnect_lem {c} chunk {b} {s} r pos (inr full) e =
      let i = Reach-Inv ndebug unpack log r in
      (full, full_frame c.buffer (omega (arith, i.size)) full (Deframes-Incomplete i.deframes))
  disconnect_lem {c} chunk {b} {s} r pos (inl room) e =
      let i = Reach-Inv ndebug unpack log r in
      let x =
        extract_refines ndebug unpack log (fill chunk c.buffer) (omega arith)
          (omega (arith, i.size, length-fill chunk c.buffer (omega (arith, i.size)))) in
      absurd (
        stays (handle_frames ndebug unpack log x.frames c.engines) x.rest x.buffer b s (
          ap (Option.map (reacted ndebug unpack log)) (sym (x.result c.engines))
          ∙ sym (on_read-room ndebug unpack log chunk c.buffer c.engines (omega arith))
          ∙ e))
