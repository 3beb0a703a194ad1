-- ===== src/Tests/Database.antt =====
-- The database engine: a message with two records.
use mathlib.Core.Option
use mathlib.Core.List.{Sublist}
use pdns_logger.Base.{
  ℕ, Bool, ◌==◌, true, false, List, [], ◌∷◌, ◌++◌, Option, none, some, ◌≡◌, arith, refl,
  if◌then◌else◌, ◌&&◌, ok, fault, bad_thread, stuck,
}
use pdns_logger.Config.{Entry, Ini}
use pdns_logger.Database.{Sqlite3, Db, db_exec, commit, begin}
use pdns_logger.Database.Executed.{db_exec_lem, exec_once}
use pdns_logger.Dns.{type2p}
use pdns_logger.Message.{Record, Response, Message}
use pdns_logger.Queue
use pdns_logger.Queue.{Fifo, at, junk}
use pdns_logger.Queue.Refine.{Holds, taken, init-Holds}
use pdns_logger.Sqlite.{Engine, initial, background, log}
use pdns_logger.Sqlite.Known.{message_rows, rows_behind, last_known}
use pdns_logger.Sqlite.Laws.{ready, stop_after_init}
use pdns_logger.Sqlite.Lifecycle.{Opening, init, stop, background_starts}
use pdns_logger.Sqlite.Logged.{sqlite_log-in_time}
use pdns_logger.Sqlite.Round.{exec_all, map_text}
use pdns_logger.Sqlite.Schedule.{round_if, sqlite_log-schedule}
use pdns_logger.Sqlite.Slotted.{listed, statements, passed, left}
use pdns_logger.Sqlite.Rows.{Row}
use pdns_logger.Sqlite.Thread.{Offer, waiting, work, Outcome, bg_thread_stop_lem}
use pdns_logger.Status.{pdns_ok}
use pdns_logger.Tests.Lines.{libc, alias, message_of}
use pdns_logger.Text.{Text, codes}

-- A library that executes everything but one statement, in a transaction that stays open.
abbrev lib : Sqlite3
lib = record {
  succeeds = λ es sql. elim sql [ [] ↦ false | _ ∷ _ ↦ true ];
  in_autocommit = λ es. elim es [ [] ↦ true | _ ∷ _ ↦ false ];
}

abbrev almost : Db
almost = record { counter = 49; executed = [] }

db_exec-fiftieth :
    db_exec lib false 2 (codes "x") almost
    ≡ some (pdns_ok, record { counter = 2; executed = codes "x" ∷ commit ∷ begin ∷ [] })
unfolding db_exec Option.bind
db_exec-fiftieth = refl

db_exec_lem_example :
    db_exec lib false 5 (codes "x") almost ≡ some (exec_once lib false (codes "x") almost)
db_exec_lem_example = db_exec_lem lib false 3 (codes "x") almost

-- A record with a name only.
abbrev bare : Record
bare = record { name = some (codes "b."); type = none; class_ = none; ttl = none; rdata = none }

abbrev two : Response
two = record { rcode = some 0; rrs = alias ∷ bare ∷ []; appliedpolicy = some (codes "P") }

abbrev query : Message
query = message_of (codes "a.") two

abbrev running : Engine
running = record initial { fifo = some Queue.init; thread = true; bgrunning = true; db = true }

-- The text of a row, for the tests.
abbrev sql : Row → Text
sql x = x.rname ++ x.rtype

-- The second row has the type of the first record.
late_type : map_text sql (message_rows libc query two) ≡ codes "a.CNAME" ∷ codes "b.CNAME" ∷ []
unfolding type2p rows_behind last_known
late_type = refl

sqlite_log-in_time_example :
    (q : Fifo Text) × (log libc
        (λ y. some (sql y))
        false
        (λ _. true)
        (λ _. background lib)
        (some query)
        running
      ≡ ok (
        pdns_ok,
        record running {
          fifo = some q;
          database =
              exec_all lib true (map_text sql (message_rows libc query two)) running.database;
        },
      ))
    × Holds q none
sqlite_log-in_time_example =
    sqlite_log-in_time libc lib sql false query two running Queue.init refl refl refl refl refl
      init-Holds

abbrev set : Text → Text → Entry
set n v = record { section = some (codes "sqlite3"); name = some n; value = some v }

abbrev options : List Entry
options = set (codes "dbfile") (codes "/db") ∷ set (codes "disabled") (codes "1") ∷ []

abbrev ini : Ini
ini _ = (true, options)

abbrev path : Option Text
path = some (codes "x.ini")

abbrev opening : Opening
opening = record { handle = true; opened = true }

abbrev started : Engine
started = (init lib ini true true opening path initial).1

stop_after_init_example :
    (started.thread ≡ (ready ini path && true))
    × (stop started ≡ fault (if ready ini path && true then stuck else bad_thread))
    × (stop (background_starts started) ≡ (
        if ready ini path && true
        then ok (pdns_ok, record started { bgrunning = false })
        else fault bad_thread))
stop_after_init_example = stop_after_init lib ini true true opening path

-- The thread comes behind the first push only.
abbrev comes : ℕ → Bool
comes t = t == 1

sqlite_log-schedule_example :
    let xs = message_rows libc query two in
    let out = passed (λ x. some (sql x)) (λ _. true) comes 1 xs none in
    let waiting = left (λ x. some (sql x)) (λ _. true) comes 1 xs none in
    (q : Fifo Text) × (log libc
        (λ x. some (sql x))
        true
        (λ _. true)
        (round_if libc lib (λ x. some (sql x)) (λ _. true) comes)
        (some query)
        running
      ≡ ok (
        pdns_ok,
        record running { fifo = some q; database = exec_all lib true out running.database },
      ))
    × Holds q waiting
    × Sublist (out ++ listed waiting) (listed {A = Text} none ++ statements (λ x. some (sql x)) xs)
sqlite_log-schedule_example =
    sqlite_log-schedule libc lib (λ x. some (sql x)) (λ _. true) comes query two running Queue.init
      refl refl refl refl refl init-Holds

one_each :
    (passed (λ x. some (sql x)) (λ _. true) comes 1 (message_rows libc query two) none
      ≡ codes "a.CNAME" ∷ [])
    × (left (λ x. some (sql x)) (λ _. true) comes 1 (message_rows libc query two) none
        ≡ some (codes "b.CNAME"))
unfolding type2p rows_behind last_known
one_each = (refl, refl)

-- A statement waits in the queue when the thread is stopped; another one comes too late.
abbrev waiting_queue : Fifo Text
waiting_queue = record Queue.init {
  head = at 0;
  tail = at 0;
  fresh = 1;
  cell = λ a. if a == 0 then some (record { value = codes "x"; next = junk }) else none;
}

waiting_queue-Holds : Holds waiting_queue (some (codes "x"))
unfolding Queue.init
waiting_queue-Holds =
    taken 0 (record { value = codes "x"; next = junk }) refl refl refl refl (omega arith)

abbrev stopping : Engine
stopping = record running { fifo = some waiting_queue; bgrunning = false }

abbrev offers : List Offer
offers = (true, some (codes "y")) ∷ (true, some (codes "z")) ∷ []

bg_thread_stop_lem_example :
    Outcome lib waiting (some (codes "x")) stopping (work lib offers waiting stopping)
bg_thread_stop_lem_example =
    bg_thread_stop_lem lib (true, some (codes "y")) (true, some (codes "z")) [] waiting stopping
      waiting_queue refl refl waiting_queue-Holds
