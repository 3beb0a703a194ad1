-- ===== src/Sqlite.antt =====
-- src/pdns-logger-sqlite.c: the engine that logs to an sqlite3 database. `log` formats one
-- statement for each record and puts it into the queue, a thread of the engine takes it out again
-- and executes it. `sqlite3_mprintf` with the format SQL_INSERT is the parameter `mprintf`, and NULL
-- if it runs out of memory.
pub mod Rows
pub mod Lifecycle
pub mod Known
pub mod Untouched
pub mod Wanted
pub mod Round
pub mod Logged
pub mod Late
pub mod Slotted
pub mod Offered
pub mod Schedule
pub mod Thread
pub mod Laws
use pdns_logger.Base.{
  ℕ, suc, ◌+◌, ◌%◌, ◌^◌, Bool, true, false, ◌&&◌, ◌||◌, List, [], ◌∷◌, Option, none, some, ◌==◌,
  length, if◌then◌else◌, Result, ok, fault, bad_thread, ◌>>=◌,
}
use pdns_logger.Database.{Sqlite3, Db, db_exec}
use pdns_logger.Line.{Libc}
use pdns_logger.Message.{Record, Response, Message}
use pdns_logger.Queue.{Fifo, push_item, pop_item}
use pdns_logger.Sqlite.Rows.{Row, Carried, nothing_carried, carry, row}
use pdns_logger.Status.{Status, pdns_ok}
use pdns_logger.Text.{Text, zstr}

-- The static variables, and the database that sqlite3 keeps. `db` says that the pointer is not
-- NULL, `thread` that a thread of the process stands behind `bgthread`.
pub record Engine : Type 0 where
  pub dbfile : Option Text
  pub db : Bool
  pub rewrites_only : Bool
  pub fifo : Option (Fifo Text)
  pub thread : Bool
  pub bgrunning : Bool
  pub disabled : Bool
  pub autocommit : Bool
  pub database : Db

abbrev pub initial : Engine
initial = record {
  dbfile = none;
  db = false;
  rewrites_only = true;
  fifo = none;
  thread = false;
  bgrunning = false;
  disabled = false;
  autocommit = true;
  database = record { counter = 0; executed = [] };
}

abbrev pub stored : Option (Status × Db) → Engine → Engine
stored none s = s
stored (some r) s = record s { database = r.1 }

-- `db_exec` with fuel 2, which is always enough. Its status is looked at by no caller.
abbrev pub execute : Sqlite3 → Text → Engine → Engine
execute lib sql s = stored (db_exec lib s.autocommit 2 sql s.database) s

-- What the thread does with what it took out of the queue.
abbrev pub taken_out : Sqlite3 → Option Text × Option (Fifo Text) → Engine → Result Engine
taken_out lib (none, q) s = ok (record s { fifo = q })
taken_out lib (some sql, q) s = ok (execute lib sql (record s { fifo = q }))

-- One round of the loop of `bg_thread_exec`, behind the wait. The thread's handle on the queue is
-- the static variable.
unfoldable pub background : Sqlite3 → Engine → Result Engine
background lib s = if s.bgrunning then (pop_item s.fifo >>= λ r. taken_out lib r s) else ok s

-- `mprintf` formats a statement, `memory t` is the answer of `malloc` in the t-th push, and
-- `between t` is what the background thread does after it.
module _ (c : Libc) (mprintf : Row → Option Text) (ndebug : Bool) (memory : ℕ → Bool)
    (between : ℕ → Engine → Result Engine) where
  -- `prepare_sql` and `fifo_push_item`, whose status is not looked at
  abbrev pub push_row : ℕ → Row → Engine → Result Engine
  push_row t row s =
      push_item ndebug (memory t) (mprintf row) s.fifo >>= λ r. between t (record s { fifo = r.1 })

  -- The loop over the records.
  unfoldable pub log_rows : Message → Response → ℕ → List Record → Carried → Engine → Result Engine
  log_rows msg r t [] v s = ok s
  log_rows msg r t (rr ∷ rrs) v s =
      push_row t (row c msg r rr.name (carry c rr v)) s
      >>= log_rows msg r (t + 1) rrs (carry c rr v)

  abbrev pub log_records : Message → Response → List Record → Engine → Result Engine
  log_records msg r [] s = push_row 1 (row c msg r none nothing_carried) s
  log_records msg r (rr ∷ rrs) s = log_rows msg r 1 (rr ∷ rrs) nothing_carried s

  unfoldable pub log_response : Message → Option Response → Engine → Result (Status × Engine)
  log_response msg none s = ok (pdns_ok, s)
  log_response msg (some r) s =
      if s.disabled || (s.rewrites_only && zstr r.appliedpolicy)
      then ok (pdns_ok, s)
      else (log_records msg r r.rrs s >>= λ s'. ok (pdns_ok, s'))

  -- `logsqlite_log`
  unfoldable pub log : Option Message → Engine → Result (Status × Engine)
  unfolding log_response log_rows carry
  log none s = ok (pdns_ok, s)
  log (some msg) s = log_response msg msg.response s
