-- ===== src/Main/Foreground.antt =====
-- The daemon of src/pdns-logger.c in the foreground, from its start to its end.
use Prim.Native.Nat.{bit_or}
use mathlib.Core.Path.{subst}
use pdns_logger.Base.{
  ℕ, ◌%◌, ◌^◌, ◌<◌, Bool, true, false, List, [], ◌∷◌, none, some, ◌≡◌, ap, ◌∙◌, if◌then◌else◌,
  Result, ok, arith, ◌>>=◌,
}
use pdns_logger.Config.{Globals}
use pdns_logger.Daemon.{configure}
use pdns_logger.Dispatch.{Engines, loggers_halt}
use pdns_logger.LogFile
use pdns_logger.Main
use pdns_logger.Main.{World, End, success, happen_all, finish, serve, initialized, main, main_with}
use pdns_logger.Main.Happenings.{Takes, SameThread, happen_all-SameThread}
use pdns_logger.Server.{
  Answers, Call, Round, reuses, binds, sets_flags, listens, closes, Served, fd_setsize,
  socket_start, run_started, pdns_socket_run,
}
use pdns_logger.Server.Loop.{All, Reports, clients, stopped, socket_loop_lem}
use pdns_logger.Server.Setup.{all_good, value}
use pdns_logger.Sqlite.Laws.{stop_cases}
use pdns_logger.Status.{pdns_ok}
use pdns_logger.Syslog

-- The calls on the listening socket of a daemon that starts and ends well.
abbrev pub all_calls : ℕ → Answers → Globals → List Call
all_calls o_nonblock a g =
    let fd = value a.descriptor in
    reuses fd
    ∷ binds fd 0 (g.bind_port % 2 ^ 16)
    ∷ sets_flags fd (bit_or (value a.flags) o_nonblock)
    ∷ listens fd
    ∷ closes fd
    ∷ []

-- The engines behind a halt.
abbrev pub halted : Engines → Engines
halted e = record {
  file = (LogFile.stop e.file).1;
  sys = (Syslog.stop e.sys).1;
  sql = record e.sql { bgrunning = false };
}

halt_lem :
    (e : Engines)
    → e.sql.thread ≡ true
    → e.sql.bgrunning ≡ true
    → loggers_halt e ≡ ok (pdns_ok, halted e)
unfolding loggers_halt
halt_lem e on begun =
    ap
      (λ m. m >>= λ s. ok (
        pdns_ok,
        record { file = (LogFile.stop e.file).1; sys = (Syslog.stop e.sys).1; sql = s.1 },
      ))
      (stop_cases e.sql true true on begun)

module _ (a : Answers) (o_nonblock : ℕ) (g : Globals) (good : all_good a ≡ true) where
  socket_start-good : socket_start o_nonblock a g ≡ (
    pdns_ok,
    record g { socket = value a.descriptor },
    reuses (value a.descriptor)
        ∷ binds (value a.descriptor) 0 (g.bind_port % 2 ^ 16)
        ∷ sets_flags (value a.descriptor) (bit_or (value a.flags) o_nonblock)
        ∷ listens (value a.descriptor)
        ∷ [],
  )
  unfolding socket_start
  socket_start-good = ground arith

  run-good :
      (ndebug : Bool) (rs : List Round)
      → value a.descriptor < fd_setsize
      → All (λ r. (r.prompt ≡ true) × Reports (value a.descriptor) r) rs
      → stopped rs ≡ true
      → pdns_socket_run ndebug o_nonblock a rs g
        ≡ ok (record {
          status = some pdns_ok;
          globals = record g { socket = value a.descriptor };
          calls = all_calls o_nonblock a g;
          threads = clients (value a.descriptor) rs;
        })
  unfolding pdns_socket_run
  run-good ndebug rs small fair ends =
      let g' = record g { socket = value a.descriptor } in
      let loop =
        socket_loop_lem ndebug g' rs small fair ∙ ap (λ b. ok (clients g'.socket rs, b)) ends in
      ap (run_started ndebug rs) socket_start-good ∙ ap (λ m. m >>= λ r. ok (ended r)) loop
    where
      ended : List ℕ × Bool → Served
      ended r = record {
        status = if r.1 then some pdns_ok else none;
        globals = record g { socket = value a.descriptor };
        calls =
            if r.1
            then all_calls o_nonblock a g
            else reuses (value a.descriptor)
              ∷ binds (value a.descriptor) 0 (g.bind_port % 2 ^ 16)
              ∷ sets_flags (value a.descriptor) (bit_or (value a.flags) o_nonblock)
              ∷ listens (value a.descriptor)
              ∷ [];
        threads = r.0;
      }

-- A daemon in the foreground whose database thread has been started and has begun its loop, and whose
-- socket opens below FD_SETSIZE, ends once its server finds `running` reset, if nothing faults until then, `select`
-- reports no other descriptor, and each new thread reads its argument in time. It closes its socket,
-- its log file and syslog, stops the database thread, and exits with success.
pub main_foreground :
    (w : World) (e : Engines) (g : Globals) (e' : Engines)
    → configure w.ini w.default_config_file w.opts ≡ some g
    → g.foreground ≡ true
    → all_good w.answers ≡ true
    → value w.answers.descriptor < fd_setsize
    → All (λ r. (r.prompt ≡ true) × Reports (value w.answers.descriptor) r) w.rounds
    → stopped w.rounds ≡ true
    → (initialized w g e).sql.thread ≡ true
    → happen_all w w.events (initialized w g e) ≡ ok e'
    → e'.sql.bgrunning ≡ true
    → main w e
      ≡ ok (record {
        code = success;
        engines = halted e';
        calls = all_calls w.o_nonblock w.answers g;
      })
unfolding main serve
main_foreground w e g e' configured foreground good small fair ends thread happened begun =
    ap (λ o. main_with w o e) configured
    ∙ ap
        (λ b.
          if b
          then serve w g (initialized w g e)
          else Main.forked w (Main.fork_and_close_parent w.forked w.session) g (initialized w g e))
        foreground
    ∙ ap (λ m. m >>= λ s. finish w s.status s.calls (initialized w g e))
        (run-good w.answers w.o_nonblock (record g { running = true }) good w.ndebug w.rounds small
          fair ends)
    ∙ ap (λ m. m >>= halting) happened
    ∙ ap (λ m. m >>= λ r. ok (done r.1)) (halt_lem e' (kept ∙ thread) begun)
  where
    done : Engines → End
    done e = record { code = success; engines = e; calls = all_calls w.o_nonblock w.answers g }

    halting : Engines → Result End
    halting e' = loggers_halt e' >>= λ r. ok (done r.1)

    kept : e'.sql.thread ≡ (initialized w g e).sql.thread
    kept =
        subst (Takes SameThread (initialized w g e)) happened
          (happen_all-SameThread w w.events (initialized w g e))
