-- ===== src/Pipeline.antt =====
-- The whole way of a message, from the bytes of a client's connection (src/pdns-logger-protobuf.c)
-- through pdns_loggers_log (src/pdns-logger.c) into the log file, syslog and the database.
use pdns_logger.Base.{
  ◌≤◌, Bool, true, false, ◌⊎◌, ℕ, List, [], ◌∷◌, ◌++◌, Option, none, some, ◌≡◌, refl, sym, ap, ◌∙◌,
  Result, ok, append-nil, append_assoc, length,
}
use pdns_logger.Database.{Sqlite3}
use pdns_logger.Dispatch.{Engines, loggers_log}
use pdns_logger.Dispatch.Together.{syslog_events, loggers_log_lem}
use pdns_logger.Line.{Libc}
use pdns_logger.Line.Bounds.{joined}
use pdns_logger.Line.Overflow.{message_pieces, message_lines}
use pdns_logger.LogFile
use pdns_logger.LogFile.Laws.{line_events}
use pdns_logger.Message.{Message, Response}
use pdns_logger.Queue.{Fifo}
use pdns_logger.Queue.Refine.{Holds}
use pdns_logger.Sqlite.{background}
use pdns_logger.Sqlite.Known.{message_rows}
use pdns_logger.Sqlite.Offered.{exec_all-append}
use pdns_logger.Sqlite.Round.{exec_all, map_text}
use pdns_logger.Sqlite.Rows.{Row}
use pdns_logger.Status.{Status, pdns_ok}
use pdns_logger.Stream.Buffers.{used}
use pdns_logger.Stream.Extract.{handle_frames, continue}
use pdns_logger.Stream.Frames.{Incomplete, encode_all, Deframes-encode_all}
use pdns_logger.Stream.Session.{Conn, Reach, Reach-Inv}
use pdns_logger.Stream.Unique.{Deframes-unique}
use pdns_logger.Stream.{parse, parsed, log_decoded}
use pdns_logger.Syslog
use pdns_logger.Text.{Text, zstr}

line_events-append :
    (flush : Bool) (xs ys : List Text)
    → line_events flush (xs ++ ys) ≡ line_events flush xs ++ line_events flush ys
line_events-append flush [] ys = refl
line_events-append true (x ∷ xs) ys =
    ap (λ l. LogFile.wrote x ∷ LogFile.flushed ∷ l) (line_events-append true xs ys)
line_events-append false (x ∷ xs) ys =
    ap (λ l. LogFile.wrote x ∷ l) (line_events-append false xs ys)

syslog_events-append :
    (xs ys : List Text) → syslog_events (xs ++ ys) ≡ syslog_events xs ++ syslog_events ys
syslog_events-append [] ys = refl
syslog_events-append (x ∷ xs) ys = ap (λ l. Syslog.wrote x ∷ l) (syslog_events-append xs ys)

map_text-append :
    (f : Row → Text) (xs ys : List Row) → map_text f (xs ++ ys) ≡ map_text f xs ++ map_text f ys
map_text-append f [] ys = refl
map_text-append f (x ∷ xs) ys = ap (λ l. f x ∷ l) (map_text-append f xs ys)

module _ (c : Libc) (lib : Sqlite3) (sql : Row → Text) (ndebug : Bool)
    (unpack : List ℕ → Option Message) where
  -- `pdns_loggers_log` with memory at hand and the database thread in time.
  abbrev pub log_all : Message → Engines → Result Status × Engines
  log_all msg e =
      loggers_log c (λ y. some (sql y)) ndebug (λ _. true) (λ _. background lib) (some msg) e

  -- Frames that the decoder accepts, of messages that all engines log and whose text fits a line;
  -- with their lines and rows.
  pub data Messages : List (List ℕ) → List Text → List Row → Type 0 where
    no_more : Messages [] [] []
    message :
        {frames : List (List ℕ)} {lines : List Text} {rows : List Row} (f : List ℕ) (msg : Message)
        (r : Response)
        → unpack f ≡ some msg
        → msg.response ≡ some r
        → zstr r.appliedpolicy ≡ false
        → (ndebug ≡ true) ⊎ (msg.originalrequestorsubnet ≡ none)
        → length (joined (message_pieces c msg r)) ≤ 1023
        → Messages frames lines rows
        → Messages (f ∷ frames) (message_lines c msg r ++ lines) (message_rows c msg r ++ rows)

  -- Engines that log: an open file, nothing disabled, and a running database thread with an empty
  -- queue.
  pub record Ready (e : Engines) : Type 0 where
    pub opened : e.file.fp ≡ true
    pub file_on : e.file.disabled ≡ false
    pub sys_on : e.sys.disabled ≡ false
    pub sql_on : e.sql.disabled ≡ false
    pub begun : e.sql.bgrunning ≡ true
    pub queue : Fifo Text
    pub here : e.sql.fifo ≡ some queue
    pub empty : Holds queue none

  -- The engines with lines and statements added.
  abbrev pub grown : List Text → List Row → Fifo Text → Engines → Engines
  grown lines rows q e = record {
    file = record e.file { events = e.file.events ++ line_events e.file.force_flush lines };
    sys = record e.sys { events = e.sys.events ++ syslog_events lines };
    sql = record e.sql {
      fifo = some q;
      database = exec_all lib e.sql.autocommit (map_text sql rows) e.sql.database;
    };
  }

  grown-append :
      (ls ms : List Text) (xs ys : List Row) (q q' : Fifo Text) (e : Engines)
      → grown ms ys q' (grown ls xs q e) ≡ grown (ls ++ ms) (xs ++ ys) q' e
  grown-append ls ms xs ys q q' e = λ i. record {
    file = record e.file {
      events =
          (append_assoc e.file.events (line_events e.file.force_flush ls)
                (line_events e.file.force_flush ms)
              ∙ ap (λ l. e.file.events ++ l) (sym (line_events-append e.file.force_flush ls ms)))
            i;
    };
    sys = record e.sys {
      events =
          (append_assoc e.sys.events (syslog_events ls) (syslog_events ms)
              ∙ ap (λ l. e.sys.events ++ l) (sym (syslog_events-append ls ms)))
            i;
    };
    sql = record e.sql {
      fifo = some q';
      database =
          (sym (
                exec_all-append lib e.sql.autocommit (map_text sql xs) (map_text sql ys)
                  e.sql.database)
              ∙ ap (λ l. exec_all lib e.sql.autocommit l e.sql.database)
                  (sym (map_text-append sql xs ys)))
            i;
    };
  }

  grown-nil : (e : Engines) (q : Fifo Text) → e.sql.fifo ≡ some q → e ≡ grown [] [] q e
  grown-nil e q here = λ i. record {
    file = record e.file { events = sym (append-nil e.file.events) i };
    sys = record e.sys { events = sym (append-nil e.sys.events) i };
    sql = record e.sql { fifo = here i };
  }

  -- One frame.
  parse-message :
      (f : List ℕ) (msg : Message) (r : Response) (e : Engines) (y : Ready e)
      → unpack f ≡ some msg
      → msg.response ≡ some r
      → zstr r.appliedpolicy ≡ false
      → (ndebug ≡ true) ⊎ (msg.originalrequestorsubnet ≡ none)
      → length (joined (message_pieces c msg r)) ≤ 1023
      → (q : Fifo Text) × (parse ndebug unpack log_all f e
          ≡ (ok pdns_ok, grown (message_lines c msg r) (message_rows c msg r) q e))
        × Holds q none
  unfolding parse
  parse-message f msg r e y decoded answered policy unchecked small =
      let (q, logged, h) =
        loggers_log_lem c lib sql ndebug msg r e y.queue answered policy unchecked small y.opened
          y.file_on y.sys_on y.sql_on y.begun y.here y.empty in
      (
        q,
        ap (λ o. log_decoded ndebug unpack log_all o e) decoded
            ∙ ap (λ (p : Result Status × Engines). (parsed p.0, p.1)) logged,
        h,
      )

  grown-Ready :
      (lines : List Text) (rows : List Row) (q : Fifo Text) (e : Engines)
      → Holds q none
      → Ready e
      → Ready (grown lines rows q e)
  grown-Ready lines rows q e h y = record {
    opened = y.opened;
    file_on = y.file_on;
    sys_on = y.sys_on;
    sql_on = y.sql_on;
    begun = y.begun;
    queue = q;
    here = refl;
    empty = h;
  }

  handle_frames-grown :
      {frames : List (List ℕ)} {lines : List Text} {rows : List Row}
      → Messages frames lines rows
      → (e : Engines) → Ready e
      → (q : Fifo Text) × (handle_frames ndebug unpack log_all frames e
          ≡ (ok tt, grown lines rows q e))
        × Holds q none
  unfolding handle_frames
  handle_frames-grown no_more e y =
      (y.queue, ap (λ t. (ok tt, t)) (grown-nil e y.queue y.here), y.empty)
  handle_frames-grown
        (message {frames} {lines} {rows} f msg r decoded answered policy unchecked small ms) e y =
      let ls = message_lines c msg r in
      let xs = message_rows c msg r in
      let (q₁, e₁, h₁) = parse-message f msg r e y decoded answered policy unchecked small in
      let (q₂, e₂, h₂) = handle_frames-grown ms (grown ls xs q₁ e) (grown-Ready ls xs q₁ e h₁ y) in
      (
        q₂,
        ap (λ p. continue ndebug unpack log_all p (handle_frames ndebug unpack log_all frames)) e₁
            ∙ e₂
            ∙ ap (λ t. (ok tt, t)) (grown-append ls lines xs rows q₁ q₂ e),
        h₂,
      )

  -- If a client has sent messages that the decoder accepts and all engines log, each with its
  -- length in front and with text that fits a line, in whatever chunks they have arrived, to engines
  -- that are ready: then all their lines stand in the log file and in syslog, in order, and the
  -- statements of all their rows are executed, in order, if there is memory and the database thread
  -- runs a round after each push. The buffer has what is behind the last message.
  pub pipeline_lem :
      {e : Engines} {conn : Conn ndebug unpack log_all} {frames : List (List ℕ)} {lines : List Text}
      {rows : List Row} {rest : List ℕ}
      → Ready e
      → Reach ndebug unpack log_all e conn
      → Messages frames lines rows
      → Incomplete rest
      → conn.received ≡ encode_all frames ++ rest
      → (q : Fifo Text) × (conn.engines ≡ grown lines rows q e)
        × Holds q none
        × (used conn.buffer ≡ rest)
  pipeline_lem {e} {conn} {frames} {lines} {rows} {rest} y reach ms short sent =
      let v = Reach-Inv ndebug unpack log_all reach in
      let (same_frames, same_rest) =
        Deframes-unique sent v.deframes (Deframes-encode_all frames short) in
      let (q, logged, h) = handle_frames-grown ms e y in
      (
        q,
        ap (λ (p : Result (Unit {0}) × Engines). p.1)
            (sym v.handled
              ∙ ap (λ fs. handle_frames ndebug unpack log_all fs e) same_frames
              ∙ logged),
        h,
        same_rest,
      )
