-- ===== src/Tests/Clients.antt =====
-- Two clients whose threads take turns.
use mathlib.Core.Option
use pdns_logger.Base.{ℕ, true, List, [], ◌∷◌, some, none, ◌≡◌, refl, arith, ok}
use pdns_logger.Clients.{
  reading, extracting, turn, Client, System, put, Reach, start, later, connects, reads, extracts,
}
use pdns_logger.Clients.Alone.{drop_status, alone, alone_lem}
use pdns_logger.Clients.Deeds.{Deed, of_client, Permits, Nothing, perform}
use pdns_logger.Clients.Order.{Explained, clients_lem}
use pdns_logger.Status.{pdns_ok}
use pdns_logger.Stream.Buffers.{used}
use pdns_logger.Stream.Extract.{conclude, handle_frames}
use pdns_logger.Stream.Frames.{Deframes}
use pdns_logger.Stream.{Buffer, extract, fresh, fill, advance}
use pdns_logger.Tests.Streams.{unpack, keep, bytes, two_frames, stack}

abbrev nobody : System (List (List ℕ))
nobody = record { client = λ _. none; engines = [] }

-- The first client sends two frames and a byte, the second one an empty frame in between.
abbrev hello : Client
hello = record { phase = reading; buffer = fresh stack; sent = [] }

abbrev busy : Client
busy = record { phase = extracting; buffer = fill bytes (fresh stack); sent = bytes }

abbrev half : Client
half = record { phase = extracting; buffer = advance busy.buffer; sent = bytes }

abbrev short : Client
short = record { phase = extracting; buffer = fill (0 ∷ 0 ∷ []) (fresh stack); sent = 0 ∷ 0 ∷ [] }

abbrev short_done : Client
short_done = record { phase = reading; buffer = advance short.buffer; sent = 0 ∷ 0 ∷ [] }

abbrev AB : List ℕ
AB = 65 ∷ 66 ∷ []

abbrev first_system : System (List (List ℕ))
first_system = put 2 hello [] (put 1 hello [] nobody)

abbrev sent_system : System (List (List ℕ))
sent_system = put 2 short [] (put 1 busy [] first_system)

abbrev mixed : System (List (List ℕ))
mixed = put 2 short_done (AB ∷ [] ∷ []) (put 1 half (AB ∷ []) sent_system)

Reach-mixed : Reach true unpack keep Nothing [] mixed
unfolding turn
Reach-mixed =
    later
      (later
        (later
          (later (later (later start (connects 1 stack refl refl)) (connects 2 stack refl refl))
            (reads 1 hello bytes refl refl (omega arith) (omega arith) refl))
          (reads 2 hello (0 ∷ 0 ∷ []) refl refl (omega arith) (omega arith) refl))
        (extracts 1 busy refl refl refl))
      (extracts 2 short refl refl refl)

clients_lem_example :
    (deeds : List (Deed (List (List ℕ)))) × (perform true unpack keep deeds []
      ≡ (ok tt, mixed.engines))
    × Permits Nothing deeds
    × ((i : ℕ) → Explained (mixed.client i) (of_client i deeds))
clients_lem_example = clients_lem true unpack keep Reach-mixed

alone_lem_example :
    (frames : List (List ℕ)) × (rest : List ℕ) × (b' : Buffer) × Deframes
      (used two_frames)
      frames
      rest
    × (used b' ≡ rest)
    × (alone true unpack keep 7 two_frames []
        ≡ Option.map drop_status (extract true unpack keep two_frames []))
    × (alone true unpack keep 7 two_frames []
        ≡ some (drop_status (conclude (handle_frames true unpack keep frames []) pdns_ok b')))
alone_lem_example = alone_lem true unpack keep two_frames [] (omega arith) (omega arith)
