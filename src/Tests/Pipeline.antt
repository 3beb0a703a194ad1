-- ===== src/Tests/Pipeline.antt =====
-- A client's bytes in the log file, in syslog and in the database.
use mathlib.Core.Option
use pdns_logger.Base.{
  ℕ, true, List, [], ◌∷◌, ◌++◌, Option, some, none, ◌≡◌, inr, refl, arith, Result, ok,
}
use pdns_logger.Database.{db_exec}
use pdns_logger.Dispatch.{Engines, loggers_log}
use pdns_logger.Dns.{type2p, class2p, rcode2p}
use pdns_logger.Line.{log_message}
use pdns_logger.Line.Overflow.{message_lines}
use pdns_logger.LogFile
use pdns_logger.Message.{Message}
use pdns_logger.Pipeline.{log_all, message, no_more, Ready, grown, pipeline_lem}
use pdns_logger.Queue
use pdns_logger.Queue.{Fifo, push_item, pop_item}
use pdns_logger.Queue.Refine.{Holds, init-Holds}
use pdns_logger.Sqlite
use pdns_logger.Sqlite.{background, log_rows}
use pdns_logger.Sqlite.Known.{message_rows}
use pdns_logger.Sqlite.Rows.{carry}
use pdns_logger.Stream.Buffers.{used}
use pdns_logger.Stream.Frames.{one_byte}
use pdns_logger.Stream.Session.{Conn, start, later, receives}
use pdns_logger.Stream.{Buffer, Link, connected, fresh, fill, advance, on_read, got}
use pdns_logger.Syslog
use pdns_logger.Tests.All.{lib, sql, started}
use pdns_logger.Tests.Lines.{libc, answer, message_of, answer-small}
use pdns_logger.Tests.Streams.{stack}
use pdns_logger.Text.{Text, codes, decimal, decimal_int}

-- A frame is taken for the name that is asked for.
abbrev unpack : List ℕ → Option Message
unpack f = some (message_of f answer)

-- The message "a." and the first byte of another one.
abbrev bytes : List ℕ
bytes = 0 ∷ 2 ∷ 97 ∷ 46 ∷ 0 ∷ []

abbrev buffer : Buffer
buffer = advance (fill bytes (fresh stack))

abbrev engines_of : Option (Result (Link × Buffer) × Engines) → Engines
engines_of none = started
engines_of (some (r, e)) = e

abbrev logged : Engines
logged =
    engines_of
      (on_read true unpack (log_all libc lib sql true unpack) (got bytes) (fresh stack) started)

abbrev conn : Conn true unpack (log_all libc lib sql true unpack)
conn = record { buffer = buffer; engines = logged; received = bytes }

reads_message :
    on_read true unpack (log_all libc lib sql true unpack) (got bytes) (fresh stack) started
    ≡ some (ok (connected, buffer), logged)
unfolding on_read loggers_log LogFile.log log_message type2p class2p rcode2p decimal decimal_int
    Syslog.log Sqlite.log log_rows Sqlite.log_response carry background push_item pop_item
    Queue.push Queue.pop Queue.init db_exec Option.bind LogFile.write_log Syslog.write_log
reads_message = refl

Ready-started : Ready libc lib sql true unpack started
Ready-started = record {
  opened = refl;
  file_on = refl;
  sys_on = refl;
  sql_on = refl;
  begun = refl;
  queue = Queue.init;
  here = refl;
  empty = init-Holds;
}

pipeline_lem_example :
    (q : Fifo Text) × (logged
      ≡ grown libc lib sql true unpack
          (message_lines libc (message_of (codes "a.") answer) answer ++ [])
          (message_rows libc (message_of (codes "a.") answer) answer ++ [])
          q
          started)
    × Holds q none
    × (used buffer ≡ 0 ∷ [])
pipeline_lem_example =
    pipeline_lem libc lib sql true unpack {conn = conn} {frames = codes "a." ∷ []} Ready-started
      (later (start stack refl)
        (receives bytes buffer logged (omega arith) (omega arith) reads_message))
      (message (codes "a.") (message_of (codes "a.") answer) answer refl refl refl (inr refl)
        answer-small no_more)
      (one_byte 0) refl
