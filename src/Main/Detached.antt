-- ===== src/Main/Detached.antt =====
-- The daemon of src/pdns-logger.c in the background: `main` starts the engines, and with them the
-- database thread, before it forks, and the child has no such thread.
use mathlib.Core.Path.{subst}
use pdns_logger.Base.{
  true, false, List, Option, none, some, ◌≡◌, ◌≢◌, refl, sym, ap, ◌∙◌, if◌then◌else◌, Result, ok,
  fault, bad_thread, ◌>>=◌,
}
use pdns_logger.Config.{Globals}
use pdns_logger.Daemon.{configure}
use pdns_logger.Dispatch.{Engines, loggers_halt}
use pdns_logger.LogFile
use pdns_logger.Main
use pdns_logger.Main.{
  World, Fork, child, End, Exit, success, failure, running, happen_all, finish, serve,
  fork_and_close_parent, detach, initialized, in_child, main, main_with,
}
use pdns_logger.Main.Happenings.{
  Takes, SameThread, SameDatabase, no_hangups, happen_all-SameThread, happen_all-SameDatabase,
}
use pdns_logger.Server.{Call, Served, pdns_socket_run}
use pdns_logger.Sqlite.Laws.{stop_cases}
use pdns_logger.Status.{Status, pdns_no, pdns_ok, pdns_fork, pdns_retry}
use pdns_logger.Syslog

-- Without the thread, the halt joins none.
pub halt-bad_thread : (e : Engines) → e.sql.thread ≡ false → loggers_halt e ≡ fault bad_thread
unfolding loggers_halt
halt-bad_thread e off =
    ap
      (λ m. m >>= λ s. ok (
        pdns_ok,
        record { file = (LogFile.stop e.file).1; sys = (Syslog.stop e.sys).1; sql = s.1 },
      ))
      (stop_cases e.sql false e.sql.bgrunning off refl)

-- What is said of an end: no success, and nothing new in the database without a SIGHUP.
abbrev Idle : World → Engines → End → Type 0
Idle w e end =
    (end.code ≢ success) × (no_hangups w.events ≡ true → end.engines.sql.database ≡ e.sql.database)

module _ (w : World) (e : Engines) (off : e.sql.thread ≡ false) {end : End} where
  Idle-end : (x : End) → ok x ≡ ok end → Idle w e x → Idle w e end
  Idle-end x h i = let same : x ≡ end = cc in subst (Idle w e) same i

  failed :
      (calls : List Call)
      → ok (record { code = failure; engines = e; calls = calls }) ≡ ok end
      → Idle w e end
  failed calls h =
      Idle-end (record { code = failure; engines = e; calls = calls }) h
        ((λ (x : failure ≡ success). cc), (λ quiet. refl))

  still_runs :
      (m : Result Engines) (calls : List Call)
      → (no_hangups w.events ≡ true → Takes SameDatabase e m)
      → (m >>= λ e'. ok (record { code = running; engines = e'; calls = calls })) ≡ ok end
      → Idle w e end
  still_runs (ok e') calls same h =
      Idle-end (record { code = running; engines = e'; calls = calls }) h
        ((λ (x : running ≡ success). cc), (λ quiet. (same quiet).0))
  still_runs (fault x) calls same h = absurd (cc)

  no_return :
      (m : Result Engines) (calls : List Call)
      → Takes SameThread e m
      → ¬ (
          (m >>= λ e'.
          (loggers_halt e' >>= λ r. ok (record { code = success; engines = r.1; calls = calls })))
          ≡ ok end)
  no_return (ok e') calls same h = cc (halt-bad_thread e' (same ∙ off))
  no_return (fault x) calls same h = cc

  finish-Idle :
      (status : Option Status) (calls : List Call) → finish w status calls e ≡ ok end → Idle w e end
  finish-Idle none calls h =
      still_runs (happen_all w w.events e) calls
        (λ quiet. happen_all-SameDatabase w w.events e quiet off) h
  finish-Idle (some pdns_ok) calls h =
      absurd (no_return (happen_all w w.events e) calls (happen_all-SameThread w w.events e) h)
  finish-Idle (some pdns_no) calls h = failed calls h
  finish-Idle (some pdns_fork) calls h = failed calls h
  finish-Idle (some pdns_retry) calls h = failed calls h

  serve-Idle : (g : Globals) → serve w g e ≡ ok end → Idle w e end
  unfolding serve
  serve-Idle g h =
      by_run
        (pdns_socket_run w.ndebug w.o_nonblock w.answers w.rounds (record g { running = true })) h
    where
      by_run :
          (m : Result Served) → (m >>= λ s. finish w s.status s.calls e) ≡ ok end → Idle w e end
      by_run (ok s) h = finish-Idle s.status s.calls h
      by_run (fault x) h = absurd (cc)

-- A daemon in the background comes to the serving of its child.
to_serve :
    (w : World) (e : Engines) (g : Globals)
    → configure w.ini w.default_config_file w.opts ≡ some g
    → g.foreground ≡ false
    → w.forked ≡ child
    → w.session ≡ true
    → main w e ≡ serve w g (in_child (initialized w g e))
unfolding main
to_serve w e g configured background forked session =
    ap (λ o. main_with w o e) configured
    ∙ ap
        (λ b.
          if b
          then serve w g (initialized w g e)
          else Main.forked w (fork_and_close_parent w.forked w.session) g (initialized w g e))
        background
    ∙ ap (λ f. Main.forked w (fork_and_close_parent f w.session) g (initialized w g e)) forked
    ∙ ap (λ b. Main.forked w (if b then pdns_fork else pdns_no) g (initialized w g e)) session

-- A daemon that goes into the background never comes back with success: when its server ends, it
-- joins a thread that its process does not have.
pub main_detached :
    (w : World) (e : Engines) (g : Globals) {end : End}
    → configure w.ini w.default_config_file w.opts ≡ some g
    → g.foreground ≡ false
    → w.forked ≡ child
    → w.session ≡ true
    → main w e ≡ ok end
    → end.code ≢ success
main_detached w e g configured background forked session h =
    (serve-Idle w (in_child (initialized w g e)) refl g
      (sym (to_serve w e g configured background forked session) ∙ h)).0
