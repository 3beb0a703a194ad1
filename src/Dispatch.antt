-- ===== src/Dispatch.antt =====
-- src/pdns-logger.c: the calls that go to the three engines in the order of their table. None of
-- them looks at the status of an engine.
pub mod Together
pub mod Settings
use pdns_logger.Base.{ℕ, Bool, Option, Result, ok, fault, ◌>>=◌}
use pdns_logger.Config.{Ini}
use pdns_logger.Database.{Sqlite3}
use pdns_logger.Line.{Libc}
use pdns_logger.LogFile
use pdns_logger.Message.{Message}
use pdns_logger.Sqlite
use pdns_logger.Sqlite.Lifecycle
use pdns_logger.Sqlite.Lifecycle.{Opening}
use pdns_logger.Sqlite.Rows.{Row}
use pdns_logger.Status.{Status, pdns_ok}
use pdns_logger.Syslog
use pdns_logger.Text.{Text}

-- The static variables of the three engines; the table `engines` always has all of them.
pub record Engines : Type 0 where
  pub file : LogFile.Engine
  pub sys : Syslog.Engine
  pub sql : Sqlite.Engine

abbrev pub after_file :
    Result Status × LogFile.Engine
    → Engines
    → (Engines → Result Status × Engines)
    → Result Status × Engines
after_file (ok _, f) e next = next (record e { file = f })
after_file (fault x, f) e next = (fault x, record e { file = f })

abbrev pub after_sys :
    Result Status × Syslog.Engine
    → Engines
    → (Engines → Result Status × Engines)
    → Result Status × Engines
after_sys (ok _, s) e next = next (record e { sys = s })
after_sys (fault x, s) e next = (fault x, record e { sys = s })

abbrev pub after_sql : Result (Status × Sqlite.Engine) → Engines → Result Status × Engines
after_sql (ok (_, s)) e = (ok pdns_ok, record e { sql = s })
after_sql (fault x) e = (fault x, e)

-- `pdns_loggers_log`, with the parameters of the sqlite3 engine
unfoldable pub loggers_log :
    Libc
    → (Row → Option Text)
    → Bool
    → (ℕ → Bool)
    → (ℕ → Sqlite.Engine → Result Sqlite.Engine)
    → Option Message
    → Engines
    → Result Status × Engines
loggers_log c mprintf ndebug memory between pbm e =
    after_file (LogFile.log c ndebug pbm e.file) e (λ e.
      after_sys (Syslog.log c ndebug pbm e.sys) e
        (λ e. after_sql (Sqlite.log c mprintf ndebug memory between pbm e.sql) e))

-- `pdns_loggers_rotate`, with the answers of `freopen` and of `sqlite3_open_v2`
unfoldable pub loggers_rotate : Sqlite3 → Bool → Opening → Engines → Status × Engines
loggers_rotate lib reopens answer e = (
  pdns_ok,
  record {
    file = (LogFile.rotate reopens e.file).1;
    sys = (Syslog.rotate e.sys).1;
    sql = (Sqlite.Lifecycle.rotate lib answer e.sql).1;
  },
)

-- `loggers_initialize`, with the answers of `fopen`, `malloc`, `pthread_create` and
-- `sqlite3_open_v2`
unfoldable pub loggers_initialize :
    Sqlite3 → Ini → Bool → Bool → Bool → Opening → Option Text → Engines → Status × Engines
loggers_initialize lib ini opens memory created answer conf e = (
  pdns_ok,
  record {
    file = (LogFile.init ini opens conf e.file).1;
    sys = (Syslog.init ini conf e.sys).1;
    sql = (Sqlite.Lifecycle.init lib ini memory created answer conf e.sql).1;
  },
)

-- `loggers_halt`
unfoldable pub loggers_halt : Engines → Result (Status × Engines)
loggers_halt e = Sqlite.Lifecycle.stop e.sql >>= λ s.
    ok (pdns_ok, record { file = (LogFile.stop e.file).1; sys = (Syslog.stop e.sys).1; sql = s.1 })
