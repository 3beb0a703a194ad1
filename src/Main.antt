-- ===== src/Main.antt =====
-- src/pdns-logger.c: fork_and_close_parent, the signal handlers and main. The answers of the system
-- are a record, and what the threads and the signals do to the engines while the server runs is a
-- list of events.
pub mod Happenings
pub mod Detached
pub mod Foreground
use pdns_logger.Base.{
  ℕ, Bool, true, false, List, [], ◌∷◌, Option, none, some, if◌then◌else◌, Result, ok, fault, ◌>>=◌,
}
use pdns_logger.Config.{Ini, Globals}
use pdns_logger.Daemon.{Opt, configure}
use pdns_logger.Database.{Sqlite3}
use pdns_logger.Dispatch.{Engines, loggers_log, loggers_rotate, loggers_initialize, loggers_halt}
use pdns_logger.Line.{Libc}
use pdns_logger.Message.{Message}
use pdns_logger.Server.{Answers, Round, Call, Served, pdns_socket_run}
use pdns_logger.Sqlite
use pdns_logger.Sqlite.{background}
use pdns_logger.Sqlite.Lifecycle.{Opening, background_starts}
use pdns_logger.Sqlite.Rows.{Row}
use pdns_logger.Status.{Status, pdns_no, pdns_ok, pdns_fork, pdns_retry}
use pdns_logger.Text.{Text}

-- What `fork` returns: not 0, which is the parent or an error, or 0.
pub data Fork : Type 0 where
  parent child : Fork

-- `fork_and_close_parent`, with whether `setsid` succeeds
abbrev pub fork_and_close_parent : Fork → Bool → Status
fork_and_close_parent parent session = pdns_ok
fork_and_close_parent child session = if session then pdns_fork else pdns_no

-- What happens to the engines while the server runs: a client's thread logs a message, SIGHUP
-- arrives, with the answers that the rotation gets, the database thread starts, or it goes round
-- its loop.
pub data Event : Type 0 where
  logs : Option Message → (ℕ → Bool) → Event
  hangs_up : Bool → Opening → Event
  database_starts database_round : Event

-- What the daemon gets from its surroundings; `libc`, `sqlite3` and `mprintf` are library calls.
pub record World : Type 0 where
  pub libc : Libc
  pub sqlite3 : Sqlite3
  pub mprintf : Row → Option Text
  pub ndebug : Bool
  pub opts : List Opt
  pub default_config_file : Text
  pub ini : Ini
  pub opens : Bool
  pub memory : Bool
  pub creates : Bool
  pub opening : Opening
  pub forked : Fork
  pub session : Bool
  pub o_nonblock : ℕ
  pub answers : Answers
  pub rounds : List Round
  pub events : List Event

-- The engines behind a step that may fault.
abbrev pub engines_of : Result Status × Engines → Result Engines
engines_of (ok _, e) = ok e
engines_of (fault x, e) = fault x

-- A step of the database thread, if there is one.
abbrev pub by_thread : (Sqlite.Engine → Result Sqlite.Engine) → Engines → Result Engines
by_thread f e = if e.sql.thread then (f e.sql >>= λ s. ok (record e { sql = s })) else ok e

module _ (w : World) where
  -- `pdns_loggers_log` in a client's thread, `signal_rotate`, and the database thread. While a
  -- message is logged the database thread waits.
  unfoldable pub happen : Event → Engines → Result Engines
  happen (logs msg memory) e =
      engines_of (loggers_log w.libc w.mprintf w.ndebug memory (λ _ s. ok s) msg e)
  happen (hangs_up reopens answer) e = ok (loggers_rotate w.sqlite3 reopens answer e).1
  happen database_starts e = by_thread (λ s. ok (background_starts s)) e
  happen database_round e = by_thread (background w.sqlite3) e

  unfoldable pub happen_all : List Event → Engines → Result Engines
  unfolding happen
  happen_all [] e = ok e
  happen_all (x ∷ xs) e = happen x e >>= happen_all xs

-- The threads of a process do not go over into its child.
abbrev pub in_child : Engines → Engines
in_child e = record e { sql = record e.sql { thread = false } }

pub data Exit : Type 0 where
  success failure : Exit
  -- the server still runs when the rounds are over
  running : Exit

-- How a run of the daemon ends, with its engines and the calls on its socket.
pub record End : Type 0 where
  pub code : Exit
  pub engines : Engines
  pub calls : List Call

module _ (w : World) where
  -- What happens while the server runs, and then the end of `main`: `none` is a server that still
  -- runs. If it could not be started, no client's thread has run.
  abbrev pub finish : Option Status → List Call → Engines → Result End
  finish none calls e =
      happen_all w w.events e >>= λ e'. ok (record { code = running; engines = e'; calls = calls })
  finish (some pdns_ok) calls e = happen_all w w.events e >>= λ e'.
      (loggers_halt e' >>= λ r. ok (record { code = success; engines = r.1; calls = calls }))
  finish (some _) calls e = ok (record { code = failure; engines = e; calls = calls })

  -- `globals.running = 1; pdns_socket_run(&globals)`, and the end of `main`.
  unfoldable pub serve : Globals → Engines → Result End
  unfolding pdns_socket_run happen_all
  serve g e =
      pdns_socket_run w.ndebug w.o_nonblock w.answers w.rounds (record g { running = true })
      >>= λ s. finish s.status s.calls e

  -- The branches on the status of `fork_and_close_parent`.
  abbrev pub forked : Status → Globals → Engines → Result End
  forked pdns_ok g e = ok (record { code = success; engines = e; calls = [] })
  forked pdns_fork g e = serve g (in_child e)
  forked _ g e = ok (record { code = failure; engines = e; calls = [] })

  abbrev pub detach : Globals → Engines → Result End
  detach g e =
      if g.foreground then serve g e else forked (fork_and_close_parent w.forked w.session) g e

  -- The engines behind `loggers_initialize`.
  abbrev pub initialized : Globals → Engines → Engines
  initialized g e =
      (loggers_initialize w.sqlite3 w.ini w.opens w.memory w.creates w.opening g.config_file e).1

  abbrev pub main_with : Option Globals → Engines → Result End
  main_with none e = ok (record { code = failure; engines = e; calls = [] })
  main_with (some g) e = detach g (initialized g e)

  -- `main`. A start as root is only reported, whatever `allow-root` says.
  unfoldable pub main : Engines → Result End
  unfolding configure serve
  main e = main_with (configure w.ini w.default_config_file w.opts) e
