-- ===== src/Tests/All.antt =====
-- A message in all three engines.
use pdns_logger.Base.{true, false, [], ◌++◌, some, none, ◌≡◌, refl, inr, ok}
use pdns_logger.Database.{Sqlite3}
use pdns_logger.Dispatch.{Engines, loggers_log}
use pdns_logger.Dispatch.Together.{syslog_events, loggers_log_lem}
use pdns_logger.Line.Overflow.{message_lines}
use pdns_logger.LogFile
use pdns_logger.LogFile.Laws.{line_events}
use pdns_logger.Message.{Message}
use pdns_logger.Queue
use pdns_logger.Queue.{Fifo}
use pdns_logger.Queue.Refine.{Holds, init-Holds}
use pdns_logger.Sqlite
use pdns_logger.Sqlite.{background}
use pdns_logger.Sqlite.Known.{message_rows}
use pdns_logger.Sqlite.Round.{exec_all, map_text}
use pdns_logger.Sqlite.Rows.{Row}
use pdns_logger.Status.{pdns_ok}
use pdns_logger.Syslog
use pdns_logger.Tests.Lines.{libc, answer, message_of, answer-small}
use pdns_logger.Text.{Text, codes}

abbrev pub lib : Sqlite3
lib = record { succeeds = λ es sql. true; in_autocommit = λ es. true }

abbrev pub sql : Row → Text
sql x = x.rname

abbrev query : Message
query = message_of (codes "a.") answer

abbrev pub started : Engines
started = record {
  file = record LogFile.initial { fp = true; file = some (codes "/log") };
  sys = Syslog.initial;
  sql = record Sqlite.initial {
    fifo = some Queue.init;
    thread = true;
    bgrunning = true;
    db = true;
  };
}

loggers_log_lem_example :
    (q : Fifo Text) × (loggers_log libc
        (λ y. some (sql y))
        false
        (λ _. true)
        (λ _. background lib)
        (some query)
        started
      ≡ (
        ok pdns_ok,
        record {
          file = record started.file {
            events = [] ++ line_events false (message_lines libc query answer);
          };
          sys = record Syslog.initial {
            events = [] ++ syslog_events (message_lines libc query answer);
          };
          sql = record started.sql {
            fifo = some q;
            database =
                exec_all lib true
                  (map_text sql (message_rows libc query answer))
                  started.sql.database;
          };
        },
      ))
    × Holds q none
loggers_log_lem_example =
    loggers_log_lem libc lib sql false query answer started Queue.init refl refl (inr refl)
      answer-small refl refl refl refl refl refl init-Holds
