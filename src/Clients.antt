-- ===== src/Clients.antt =====
-- Several threads of src/pdns-logger-protobuf.c at once, for what becomes of each connection. They
-- share the engines, with no lock. The loop of protobuf_extract is taken apart: one turn is one
-- read, or one frame with its decoding and its logging by all engines, and the turns come in any
-- order. The program lets the threads come between each other inside such a turn too, between two
-- engines or inside one; what the engines make of that is not followed here.
pub mod Deeds
pub mod Turns
pub mod Steps
pub mod Order
pub mod Alone
use pdns_logger.Base.{
  ℕ, ◌+◌, ◌≤◌, ◌<◌, Bool, true, false, List, [], ◌∷◌, ◌++◌, Option, none, some, ◌≡◌, ltb, leb, ◌==◌,
  if◌then◌else◌, length, take, drop, Result, ok, fault,
}
use pdns_logger.Status.{Status}
use pdns_logger.Stream.{
  Buffer, Read, got, end_of_file, failed, max_buffer_size, frame_length, advance, parse, fill,
  fresh,
}

-- Where a thread is: at the call of `read`, in the loop of `protobuf_extract`, or at its end.
pub data Phase : Type 0 where
  reading extracting closed : Phase

module _ {M S : Type 0} (ndebug : Bool) (unpack : List ℕ → Option M)
    (log : M → S → Result Status × S) where
  -- Behind a message: the loop returns if the buffer is empty.
  abbrev pub handled : Result Status × S → Buffer → Result (Phase × Buffer) × S
  handled (ok _, s) b = (ok ((if b.blen == 0 then reading else extracting), b), s)
  handled (fault e, s) b = (fault e, s)

  -- A `read`, if there is room: `protobuf_extract` returns at once if there are less than two bytes.
  abbrev pub received : Read → Buffer → S → Result (Phase × Buffer) × S
  received (got chunk) b s =
      let b' = fill chunk b in (ok ((if ltb b'.blen 2 then reading else extracting), b'), s)
  received end_of_file b s = (ok (closed, b), s)
  received failed b s = (ok (closed, b), s)

  -- One turn of a thread; what `read` returns matters only where it is called.
  unfoldable pub turn : Phase → Read → Buffer → S → Result (Phase × Buffer) × S
  unfolding parse
  turn reading r b s = if b.blen == max_buffer_size then (ok (closed, b), s) else received r b s
  turn extracting r b s =
      if leb (frame_length b.mem + 2) b.blen
      then handled (parse ndebug unpack log (take (frame_length b.mem) (drop 2 b.mem)) s)
          (advance b)
      else (ok (reading, b), s)
  turn closed r b s = (ok (closed, b), s)

-- A connection, with all that its client has sent so far and the thread has read.
pub record Client : Type 0 where
  pub phase : Phase
  pub buffer : Buffer
  pub sent : List ℕ

-- The connections by their numbers, and what they share.
pub record System (S : Type 0) : Type 0 where
  pub client : ℕ → Option Client
  pub engines : S

abbrev pub put : {S : Type 0} → ℕ → Client → S → System S → System S
put i c s y = record { client = λ j. if j == i then some c else y.client j; engines = s }

module _ {M S : Type 0} (ndebug : Bool) (unpack : List ℕ → Option M)
    (log : M → S → Result Status × S) where
  -- A client connects; a thread reads, and gets at least one byte and no more than there is room
  -- for; it does another turn, the end of the stream included; or the engines change otherwise, by a
  -- signal or by a thread of their own, in a way of those allowed. A turn that faults ends the
  -- daemon, and is no step.
  pub data Step (Allowed : (S → S) → Type 0) (y : System S) : System S → Type 0 where
    connects :
        (i : ℕ) (stack : List ℕ)
        → y.client i ≡ none
        → length stack ≡ max_buffer_size
        → Step Allowed y
            (put i (record { phase = reading; buffer = fresh stack; sent = [] }) y.engines y)
    reads :
        (i : ℕ) (c : Client) (chunk : List ℕ) {p : Phase} {b : Buffer} {s : S}
        → y.client i ≡ some c
        → c.phase ≡ reading
        → 0 < length chunk
        → c.buffer.blen + length chunk ≤ max_buffer_size
        → turn ndebug unpack log reading (got chunk) c.buffer y.engines ≡ (ok (p, b), s)
        → Step Allowed y (put i (record { phase = p; buffer = b; sent = c.sent ++ chunk }) s y)
    extracts :
        (i : ℕ) (c : Client) {p : Phase} {b : Buffer} {s : S}
        → y.client i ≡ some c
        → c.phase ≡ extracting
        → turn ndebug unpack log extracting end_of_file c.buffer y.engines ≡ (ok (p, b), s)
        → Step Allowed y (put i (record { phase = p; buffer = b; sent = c.sent }) s y)
    ends :
        (i : ℕ) (c : Client)
        → y.client i ≡ some c
        → c.phase ≡ reading
        → Step Allowed y (put i (record c { phase = closed }) y.engines y)
    elsewhere : (f : S → S) → Allowed f → Step Allowed y (record y { engines = f y.engines })

  pub data Reach (Allowed : (S → S) → Type 0) (s₀ : S) : System S → Type 0 where
    start : Reach Allowed s₀ (record { client = λ _. none; engines = s₀ })
    later : {y z : System S} → Reach Allowed s₀ y → Step Allowed y z → Reach Allowed s₀ z
