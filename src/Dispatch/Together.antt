-- ===== src/Dispatch/Together.antt =====
-- What a message comes to in all three engines.
use pdns_logger.Base.{
  ◌≤◌, Bool, true, false, ◌&&◌, ◌⊎◌, List, [], ◌∷◌, ◌++◌, none, some, ◌≡◌, refl, sym, ap, ◌∙◌,
  Result, ok, append-nil, append_assoc, length,
}
use pdns_logger.Database.{Sqlite3}
use pdns_logger.Dispatch.{Engines, after_file, after_sys, after_sql, loggers_log}
use pdns_logger.Line.{Libc, log_message}
use pdns_logger.Line.Bounds.{joined}
use pdns_logger.Line.Overflow.{message_pieces, message_lines, log_message-fits}
use pdns_logger.Line.Records.{write_all}
use pdns_logger.LogFile.Laws.{line_events, logfile_log_lem}
use pdns_logger.Message.{Message, Response}
use pdns_logger.Queue.{Fifo}
use pdns_logger.Queue.Refine.{Holds}
use pdns_logger.Sqlite
use pdns_logger.Sqlite.{background}
use pdns_logger.Sqlite.Known.{message_rows}
use pdns_logger.Sqlite.Logged.{sqlite_log-in_time}
use pdns_logger.Sqlite.Round.{exec_all, map_text}
use pdns_logger.Sqlite.Rows.{Row}
use pdns_logger.Status.{Status, pdns_ok}
use pdns_logger.Syslog
use pdns_logger.Text.{Text, zstr}

abbrev pub syslog_events : List Text → List Syslog.Event
syslog_events [] = []
syslog_events (t ∷ ts) = Syslog.wrote t ∷ syslog_events ts

write_all-syslog :
    (ts : List Text) (s : Syslog.Engine)
    → write_all Syslog.write_log ts s ≡ record s { events = s.events ++ syslog_events ts }
unfolding Syslog.write_log
write_all-syslog [] s = ap (λ es. record s { events = es }) (sym (append-nil s.events))
write_all-syslog (t ∷ ts) s =
    write_all-syslog ts (record s { events = s.events ++ Syslog.wrote t ∷ [] })
    ∙ ap (λ es. record s { events = es })
        (append_assoc s.events (Syslog.wrote t ∷ []) (syslog_events ts))

and_false : (b : Bool) → (b && false) ≡ false
and_false true = refl
and_false false = refl

syslog_log_lem :
    (c : Libc) (ndebug : Bool) (msg : Message) (r : Response) (s : Syslog.Engine)
    → s.disabled ≡ false
    → msg.response ≡ some r
    → (s.rewrites_only && zstr r.appliedpolicy) ≡ false
    → (ndebug ≡ true) ⊎ (msg.originalrequestorsubnet ≡ none)
    → length (joined (message_pieces c msg r)) ≤ 1023
    → Syslog.log c ndebug (some msg) s
      ≡ (ok pdns_ok, record s { events = s.events ++ syslog_events (message_lines c msg r) })
unfolding Syslog.log
syslog_log_lem c ndebug msg r s on answered wanted unchecked small =
    ap (λ d. log_message c Syslog.write_log ndebug d s.rewrites_only (some msg) s) on
    ∙ log_message-fits c Syslog.write_log ndebug s.rewrites_only msg r answered wanted unchecked s
        small
    ∙ ap (λ t. (ok pdns_ok, t)) (write_all-syslog (message_lines c msg r) s)

-- A message that all three engines are to log, and whose text fits the buffer of a line, is in the
-- end in all three places: its lines in the open file and in syslog, and the statements of its rows
-- executed, if the queue is empty, there is memory, and the database thread runs a round after each
-- push. Nothing else changes but the queue, which is empty again.
pub loggers_log_lem :
    (c : Libc) (lib : Sqlite3) (sql : Row → Text) (ndebug : Bool) (msg : Message) (r : Response)
    (e : Engines) (q : Fifo Text)
    → msg.response ≡ some r
    → zstr r.appliedpolicy ≡ false
    → (ndebug ≡ true) ⊎ (msg.originalrequestorsubnet ≡ none)
    → length (joined (message_pieces c msg r)) ≤ 1023
    → e.file.fp ≡ true
    → e.file.disabled ≡ false
    → e.sys.disabled ≡ false
    → e.sql.disabled ≡ false
    → e.sql.bgrunning ≡ true
    → e.sql.fifo ≡ some q
    → Holds q none
    → (q' : Fifo Text) × (loggers_log c
          (λ y. some (sql y))
          ndebug
          (λ _. true)
          (λ _. background lib)
          (some msg)
          e
        ≡ (
          ok pdns_ok,
          record {
            file = record e.file {
              events = e.file.events ++ line_events e.file.force_flush (message_lines c msg r);
            };
            sys = record e.sys { events = e.sys.events ++ syslog_events (message_lines c msg r) };
            sql = record e.sql {
              fifo = some q';
              database =
                  exec_all lib e.sql.autocommit
                    (map_text sql (message_rows c msg r))
                    e.sql.database;
            };
          },
        ))
      × Holds q' none
unfolding loggers_log
loggers_log_lem c lib sql ndebug msg r e q answered policy unchecked small opened file_on sys_on
      sql_on running here h =
    let wanted : (b : Bool) → (b && zstr r.appliedpolicy) ≡ false =
      λ b. ap (λ z. b && z) policy ∙ and_false b in
    let (q', done, h') =
      sqlite_log-in_time c lib sql ndebug msg r e.sql q answered sql_on (wanted e.sql.rewrites_only)
        running here h in
    let to_sql : Engines → Result Status × Engines = λ e.
      after_sql
        (Sqlite.log c (λ y. some (sql y)) ndebug (λ _. true) (λ _. background lib) (some msg) e.sql)
        e in
    let to_sys : Engines → Result Status × Engines =
      λ e. after_sys (Syslog.log c ndebug (some msg) e.sys) e to_sql in
    let file = record e.file {
      events = e.file.events ++ line_events e.file.force_flush (message_lines c msg r);
    } in
    let sys = record e.sys { events = e.sys.events ++ syslog_events (message_lines c msg r) } in
    (
      q',
      ap (λ m. after_file m e to_sys)
            (logfile_log_lem c ndebug msg r e.file opened file_on answered
              (wanted e.file.rewrites_only) unchecked small)
          ∙ ap (λ m. after_sys m (record e { file = file }) to_sql)
              (syslog_log_lem c ndebug msg r e.sys sys_on answered (wanted e.sys.rewrites_only)
                unchecked small)
          ∙ ap (λ m. after_sql m (record { file = file; sys = sys; sql = e.sql })) done,
      h',
    )
