-- ===== src/Tests/Streams.antt =====
-- A client that sends frames in pieces, and engines that keep a list of what they get.
use pdns_logger.Base.{
  ℕ, zero, suc, ◌<◌, true, List, [], ◌∷◌, ◌++◌, Option, some, ◌≡◌, inr, refl, arith, Result, ok,
}
use pdns_logger.Status.{Status, pdns_ok, pdns_retry}
use pdns_logger.Stream.Buffers.{used}
use pdns_logger.Stream.Disconnect.{disconnect_lem}
use pdns_logger.Stream.Extract.{Extraction, extract_refines}
use pdns_logger.Stream.Session.{Conn, Step, receives, Reach, start, later, Inv, Reach-Inv}
use pdns_logger.Stream.{
  Buffer, extract, max_buffer_size, fresh, fill, advance, on_read, got, disconnected, frame_length,
}

abbrev pub unpack : List ℕ → Option (List ℕ)
unpack frame = some frame

abbrev pub keep : List ℕ → List (List ℕ) → Result Status × List (List ℕ)
keep msg s = (ok pdns_ok, s ++ msg ∷ [])

-- two frames, "AB" and "", and the first byte of a third
abbrev pub bytes : List ℕ
bytes = 0 ∷ 2 ∷ 65 ∷ 66 ∷ 0 ∷ 0 ∷ 1 ∷ []

abbrev pub two_frames : Buffer
two_frames = record { mem = bytes ++ 9 ∷ []; blen = 7 }

extract-two_frames :
    extract true unpack keep two_frames []
    ≡ some (
      ok (pdns_retry, record { mem = 1 ∷ 0 ∷ 1 ∷ 66 ∷ 0 ∷ 0 ∷ 1 ∷ 9 ∷ []; blen = 1 }),
      (65 ∷ 66 ∷ []) ∷ [] ∷ [],
    )
unfolding extract
extract-two_frames = refl

extract_refines_example :
    Extraction true unpack keep two_frames (extract true unpack keep two_frames)
extract_refines_example = extract_refines true unpack keep two_frames (omega arith) (omega arith)

abbrev zeros : ℕ → List ℕ
zeros zero = []
zeros (suc n) = 0 ∷ zeros n

abbrev pub stack : List ℕ
stack = zeros max_buffer_size

abbrev first : Conn true unpack keep
first = record { buffer = fresh stack; engines = []; received = [] }

abbrev second : Conn true unpack keep
second = record {
  buffer = advance (advance (fill bytes (fresh stack)));
  engines = (65 ∷ 66 ∷ []) ∷ [] ∷ [];
  received = bytes;
}

first-second : Step true unpack keep first second
unfolding on_read
first-second = receives bytes _ _ (omega arith) (omega arith) refl

Reach-second : Reach true unpack keep [] second
Reach-second = later (start stack refl) first-second

Reach-Inv_example : Inv true unpack keep [] second
Reach-Inv_example = Reach-Inv true unpack keep Reach-second

-- A frame of 65535 bytes begins.
abbrev large : List ℕ
large = 255 ∷ 255 ∷ zeros 8190

abbrev full : Conn true unpack keep
full = record { buffer = fill large (fresh stack); engines = []; received = large }

first-full : Step true unpack keep first full
unfolding on_read
first-full = receives large _ _ (omega arith) (omega arith) refl

full-disconnects :
    on_read true unpack keep (got (1 ∷ [])) full.buffer []
    ≡ some (ok (disconnected, full.buffer), [])
unfolding on_read
full-disconnects = refl

disconnect_lem_example :
    (full.buffer.blen ≡ max_buffer_size) × (8190 < frame_length (used full.buffer))
disconnect_lem_example =
    disconnect_lem true unpack keep (1 ∷ []) (later (start stack refl) first-full) (omega arith)
      (inr refl) full-disconnects
