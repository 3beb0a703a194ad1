-- ===== src/Sqlite/Lifecycle.antt =====
-- src/pdns-logger-sqlite.c: the options, the start, the rotation and the stop of the engine.
use pdns_logger.Base.{
  ◌>>=◌, Bool, true, false, Option, none, some, if◌then◌else◌, Result, ok, fault, bad_thread, stuck,
}
use pdns_logger.Config.{Entry, Ini, unusable, string, is, handle_all}
use pdns_logger.Database.{Sqlite3, db_exec, flush_by}
use pdns_logger.Queue
use pdns_logger.Sqlite.{Engine, execute, stored}
use pdns_logger.Status.{Status, pdns_no, pdns_ok}
use pdns_logger.Text.{Text, codes, zstr, flag}

abbrev set_option : Entry → Engine → Engine
set_option e s =
    if is e.name (codes "dbfile")
    then record s { dbfile = some (string e.value) }
    else if is e.name (codes "only-rewrites")
    then record s { rewrites_only = flag (string e.value) }
    else if is e.name (codes "disabled")
    then record s { disabled = flag (string e.value) }
    else if is e.name (codes "autocommit")
    then record s { autocommit = flag (string e.value) }
    else s

-- `opt_handler`
unfoldable pub opt_handler : Engine → Entry → Engine
opt_handler s e =
    if unusable e then s else if is e.section (codes "sqlite3") then set_option e s else s

-- What `sqlite3_open_v2` does: whether it leaves a handle in `db`, and whether it returns
-- SQLITE_OK.
pub record Opening : Type 0 where
  pub handle : Bool
  pub opened : Bool

-- SQL_CREATE_TABLE and SQL_CREATE_INDEX
abbrev pub create_table : Text
create_table =
    codes
      "CREATE TABLE IF NOT EXISTS logs (    ts      INTEGER NOT NULL,    querier VARCHAR(48),    id      INTEGER NOT NULL,    qtype   VARCHAR(10),    qclass  VARCHAR(10),    qname   VARCHAR(256),    rcode   VARCHAR(16),    rcount  INTEGER,    rname   VARCHAR(256),    rtype   VARCHAR(10),    rclass  VARCHAR(10),    rttl    INTEGER,    rdata   VARCHAR(256),    policy  VARCHAR(100))"

abbrev pub create_index : Text
create_index =
    codes
      "CREATE INDEX IF NOT EXISTS logs_ts_idx      ON  logs(ts);CREATE INDEX IF NOT EXISTS logs_querier_idx ON  logs(querier);CREATE INDEX IF NOT EXISTS logs_qname_idx   ON  logs(qname);CREATE INDEX IF NOT EXISTS logs_policy_idx  ON logs(policy);"

-- `db_flush`
abbrev pub flush : Sqlite3 → Engine → Engine
flush lib s = stored (flush_by (db_exec lib s.autocommit 2) lib s.autocommit s.database) s

-- `db_open`
unfoldable pub db_open : Sqlite3 → Opening → Engine → Status × Engine
db_open lib answer s =
    let s' = record s { db = answer.handle } in
    if answer.opened
    then (pdns_ok, flush lib (execute lib create_index (execute lib create_table s')))
    else (pdns_no, s')

-- `fifo = fifo_init(); bg_thread_start(); return db_open(dbfile);`, with the answer of `malloc`
-- and whether pthread_create makes a thread: the code does not look at what it answers.
abbrev pub launch : Sqlite3 → Bool → Bool → Opening → Engine → Status × Engine
launch lib memory created answer s =
    db_open lib answer
      (record s { fifo = if memory then some Queue.init else none; thread = created })

abbrev pub start : Sqlite3 → Bool → Bool → Opening → Engine → Status × Engine
start lib memory created answer s =
    if s.disabled
    then (pdns_ok, s)
    else if zstr s.dbfile
    then (pdns_no, s)
    else launch lib memory created answer s

-- `logsqlite_init`
unfoldable pub init : Sqlite3 → Ini → Bool → Bool → Opening → Option Text → Engine → Status × Engine
init lib ini memory created answer inifile s =
    if zstr inifile
    then (pdns_no, s)
    else (let (read, entries) = ini (string inifile) in
        let s' = handle_all opt_handler s entries in
        if read then start lib memory created answer s' else (pdns_no, s'))

-- The first statement of `bg_thread_exec`.
abbrev pub background_starts : Engine → Engine
background_starts s = record s { bgrunning = true }

-- `logsqlite_rotate`. The status of `db_open` is not looked at.
unfoldable pub rotate : Sqlite3 → Opening → Engine → Status × Engine
rotate lib answer s = if s.db then (pdns_ok, (db_open lib answer s).1) else (pdns_ok, s)

-- `bg_thread_stop`. A thread that has not begun sets `bgrunning` again, and its join does not return:
-- see Sqlite/Thread.antt. `pthread_join` where no thread of the process stands behind `bgthread` is
-- undefined.
abbrev pub bg_thread_stop : Engine → Result Engine
bg_thread_stop s =
    if s.thread
    then (if s.bgrunning then ok (record s { bgrunning = false }) else fault stuck)
    else fault bad_thread

-- `logsqlite_stop`
unfoldable pub stop : Engine → Result (Status × Engine)
stop s = bg_thread_stop s >>= λ s'. ok (pdns_ok, s')
