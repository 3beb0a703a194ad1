-- ===== src/Stream/Session.antt =====
-- A client's connection in src/pdns-logger-protobuf.c as a state machine, whose steps are the chunks
-- in which its stream arrives.
use mathlib.Core.Option
use mathlib.Core.Path.{subst₂}
use pdns_logger.Base.{
  ℕ, ◌+◌, ◌≤◌, ◌<◌, Bool, List, [], ◌∷◌, ◌++◌, Option, some, ◌≡◌, refl, sym, ◌∙◌, ap, arith, length,
  Result, ok, fault, length-append, length-take, length-drop, take-append_self,
}
use pdns_logger.Status.{Status, pdns_no, pdns_ok, pdns_fork, pdns_retry}
use pdns_logger.Stream.Buffers.{used, length-used}
use pdns_logger.Stream.Extract.{extract_refines, handle_frames, conclude, status_of, continue}
use pdns_logger.Stream.Frames.{no_bytes, Deframes, stop, Deframes-append, Deframes-length}
use pdns_logger.Stream.{
  Buffer, max_buffer_size, extract, got, connected, fill, reacted, on_read, fresh, parse,
}

module _ (chunk : List ℕ) (b : Buffer) (fits : b.blen + length chunk ≤ length b.mem) where
  pub used-fill : used (fill chunk b) ≡ used b ++ chunk
  used-fill =
      take-append_self _ (used b ++ chunk) _
        (length-append (used b) chunk ∙ ap (λ n. n + length chunk) (length-used b (omega arith)))

  pub length-fill : length (fill chunk b).mem ≡ length b.mem
  length-fill = rw (length-append, length-append, length-take, length-drop) (omega arith)

module _ {M S : Type 0} (ndebug : Bool) (unpack : List ℕ → Option M)
    (log : M → S → Result Status × S) where
  -- A connection, with the bytes that it has received so far.
  pub record Conn : Type 0 where
    pub buffer : Buffer
    pub engines : S
    pub received : List ℕ

  -- `read` returns at least one byte, and no more than there is room for.
  pub data Step (c : Conn) : Conn → Type 0 where
    receives :
        (chunk : List ℕ) (b : Buffer) (s : S)
        → 0 < length chunk
        → c.buffer.blen + length chunk ≤ max_buffer_size
        → on_read ndebug unpack log (got chunk) c.buffer c.engines ≡ some (ok (connected, b), s)
        → Step c (record { buffer = b; engines = s; received = c.received ++ chunk })

  pub data Reach (s₀ : S) : Conn → Type 0 where
    start :
        (stack : List ℕ)
        → length stack ≡ max_buffer_size
        → Reach s₀ (record { buffer = fresh stack; engines = s₀; received = [] })
    later : {c d : Conn} → Reach s₀ c → Step c d → Reach s₀ d

  -- What holds of a connection: its buffer has its size and is not overrun, its bytes in use are
  -- those behind the last whole frame received, and the engines are in the state in which handling
  -- all the frames received, in order, leaves them.
  pub record Inv (s₀ : S) (c : Conn) : Type 0 where
    pub frames : List (List ℕ)
    pub size : length c.buffer.mem ≡ max_buffer_size
    pub within : c.buffer.blen ≤ max_buffer_size
    pub deframes : Deframes c.received frames (used c.buffer)
    pub handled : handle_frames ndebug unpack log frames s₀ ≡ (ok tt, c.engines)

  handle_frames-append :
      (fs gs : List (List ℕ)) (s t : S)
      → handle_frames ndebug unpack log fs s ≡ (ok tt, t)
      → handle_frames ndebug unpack log (fs ++ gs) s ≡ handle_frames ndebug unpack log gs t
  unfolding handle_frames
  handle_frames-append [] gs s t h =
      ap (λ (r : Result (Unit {0}) × S). handle_frames ndebug unpack log gs r.1) h
  handle_frames-append (f ∷ fs) gs s t h =
      first (parse ndebug unpack log f s) h (λ u e. handle_frames-append fs gs u t e)
    where
      first :
          (p : Result Status × S)
          → continue ndebug unpack log p (handle_frames ndebug unpack log fs) ≡ (ok tt, t)
          → ((u : S)
              → handle_frames ndebug unpack log fs u ≡ (ok tt, t)
              → handle_frames ndebug unpack log (fs ++ gs) u ≡ handle_frames ndebug unpack log gs t)
          → continue ndebug unpack log p (handle_frames ndebug unpack log (fs ++ gs))
            ≡ handle_frames ndebug unpack log gs t
      first (ok _, u) e ih = ih u e
      first (fault x, u) e ih = absurd (cc (ap (λ (r : Result (Unit {0}) × S). r.0) e))

  -- A round of the loop that goes on: the frames of the extraction were all handled.
  connected-handled :
      (r : Result (Unit {0}) × S) (status : Status) (b b' : Buffer) (s' : S)
      → Option.map (reacted ndebug unpack log) (some (conclude r status b))
        ≡ some (ok (connected, b'), s')
      → (r ≡ (ok tt, s')) × (b' ≡ b)
  connected-handled (ok tt, s) pdns_no b b' s' e = absurd (cc e)
  connected-handled (ok tt, s) pdns_ok b b' s' e = (cc e, cc e)
  connected-handled (ok tt, s) pdns_retry b b' s' e = (cc e, cc e)
  connected-handled (ok tt, s) pdns_fork b b' s' e = ground arith
  connected-handled (fault x, s) status b b' s' e = absurd (cc e)

  pub on_read-room :
      (chunk : List ℕ) (b : Buffer) (s : S)
      → b.blen < max_buffer_size
      → on_read ndebug unpack log (got chunk) b s
        ≡ Option.map (reacted ndebug unpack log) (extract ndebug unpack log (fill chunk b) s)
  unfolding on_read
  on_read-room chunk b s h = ground arith

  Step-Inv : {s₀ : S} {c d : Conn} → Inv s₀ c → Step c d → Inv s₀ d
  Step-Inv {s₀} {c} i (receives chunk b s pos room e) =
      let filled = length-fill chunk c.buffer (omega (arith, i.size)) in
      let x =
        extract_refines ndebug unpack log (fill chunk c.buffer) (omega arith)
          (omega (arith, filled, i.size)) in
      let (done, same) =
        connected-handled (handle_frames ndebug unpack log x.frames c.engines) (status_of x.rest)
          x.buffer b s
          (ap (Option.map (reacted ndebug unpack log)) (sym (x.result c.engines))
            ∙ sym (on_read-room chunk c.buffer c.engines (omega arith))
            ∙ e) in
      let room' : c.buffer.blen + length chunk ≤ length c.buffer.mem = omega (arith, i.size) in
      record {
        frames = i.frames ++ x.frames;
        size = ap (λ (t : Buffer). length t.mem) same ∙ x.size ∙ filled ∙ i.size;
        within = omega (
          arith,
          ap (λ (t : Buffer). t.blen) same,
          x.count,
          Deframes-length x.deframes,
          length-used (fill chunk c.buffer) (omega (arith, filled)),
        );
        deframes = Deframes-append chunk i.deframes (
            subst₂ (λ p q. Deframes p x.frames q) (used-fill chunk c.buffer room')
              (sym (ap used same ∙ x.kept)) x.deframes);
        handled = handle_frames-append i.frames x.frames s₀ c.engines i.handled ∙ done;
      }

  -- In whatever chunks a client's stream arrives, while the connection stands the buffer is never
  -- overrun, and the frames of all that was received, in order, have been decoded and logged; the
  -- bytes that the buffer holds are those behind the last whole frame.
  pub Reach-Inv : {s₀ : S} {c : Conn} → Reach s₀ c → Inv s₀ c
  Reach-Inv (start stack h) = record {
    frames = [];
    size = h;
    within = omega arith;
    deframes = stop no_bytes;
    handled = unfold handle_frames in refl;
  }
  Reach-Inv (later r st) = Step-Inv (Reach-Inv r) st
