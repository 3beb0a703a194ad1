-- ===== src/Sqlite/Late.antt =====
-- What logsqlite_log of src/pdns-logger-sqlite.c leaves in the queue if the engine's thread does not
-- come between two records.
use pdns_logger.Base.{ℕ, Bool, true, List, Option, some, Result, ok, ◌>>=◌}
use pdns_logger.Line.{Libc}
use pdns_logger.Message.{Record, Response, Message}
use pdns_logger.Queue.{Fifo}
use pdns_logger.Sqlite.{Engine, log_rows}
use pdns_logger.Sqlite.Rows.{Row, Carried}
use pdns_logger.Status.{Status}
use pdns_logger.Text.{Text}

module _ (c : Libc) (sql : Row → Text) where
  rows_late : Bool → Message → Response → ℕ → List Record → Carried → Engine → Result Engine
  rows_late ndebug = log_rows c (λ y. some (sql y)) ndebug (λ _. true) (λ _ s. ok s)

  abbrev pushed : Engine → Result (Status × Option (Fifo Text)) → Result Engine
  pushed s m = m >>= λ r. ok (record s { fifo = r.1 })
