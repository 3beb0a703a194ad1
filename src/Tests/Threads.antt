-- ===== src/Tests/Threads.antt =====
-- Threads at the queue: one that pushes, and one that pops.
use pdns_logger.Base.{◌⊎◌, inr, ℕ, ◌+◌, ◌++◌, ◌≤◌, arith, true, List, some, none, ◌≡◌, ◌≢◌, refl}
use pdns_logger.Queue.{Fifo, Item, init, allocate, at}
use pdns_logger.Queue.Refine.{answered}
use pdns_logger.Queue.Threads.{
  answers, announces, signalling, Done, pushes, pops, calling, has_lock, interrupted, rotating,
  idle, made, linking, linked, waits, State, Step, Run, still, later, initial, moves,
}
use pdns_logger.Queue.Threads.Local.{has_sync, own}
use pdns_logger.Queue.Threads.Outcome.{Explains, threads_refine, threads_exclude}
use pdns_logger.Queue.Threads.Progress.{Served}
use pdns_logger.Status.{pdns_ok}
use pdns_logger.Queue.Threads.Finish.{done, onward, work, threads_end}

abbrev allocated : State ℕ
allocated =
    moves 1 (made 0 7) (calling 1 (pushes (some 7)) (record initial { queue = allocate 7 init }))

abbrev waiting : State ℕ
waiting = moves 2 waits (calling 2 pops allocated)

abbrev own_lock : State ℕ
own_lock = moves 1 (linking 0 7) (record waiting { lock = some 1 })

-- SIGHUP while the thread has the lock.
abbrev in_handler : State ℕ
in_handler = moves 1 (interrupted (linking 0 7)) own_lock

abbrev again : State ℕ
again = moves 1 (rotating (linking 0 7)) (record in_handler { lock = some 1 })

abbrev held : State ℕ
held = moves 1 (linking 0 7) (record again { lock = some 1 })

abbrev full : Fifo ℕ
full = record (allocate 7 init) { head = at 0; tail = at 0 }

abbrev stored : State ℕ
stored = moves 1 (linked 7) (record held { queue = full })

abbrev unlocked : State ℕ
unlocked = moves 1 (announces 7) (record stored { lock = none })

abbrev in_signal : State ℕ
in_signal = moves 1 (signalling 7) (record unlocked { sync = some 1 })

-- The push has returned.
abbrev returned : State ℕ
returned = answers 1 (pushes (some 7), answered pdns_ok) (record in_signal { sync = none })

unlocks_1 : Step true 1 stored unlocked
unlocks_1 = Step.unlocks_push refl

locks_signal_1 : Step true 1 unlocked in_signal
locks_signal_1 = Step.locks_signal refl refl

signals_1 : Step true 1 in_signal returned
signals_1 = Step.signals refl

links_full : Step true 1 held stored
unfolding init
links_full = Step.links refl refl

makes_7 : Step true 1 initial allocated
unfolding init
makes_7 = Step.makes 7 refl

calls_2 : Step true 2 allocated waiting
calls_2 = Step.calls_pop refl

locks_1 : Step true 1 waiting own_lock
locks_1 = Step.locks_push refl refl

hangs_up : Step true 1 own_lock in_handler
hangs_up = Step.interrupts refl refl

locks_again : Step true 1 in_handler again
locks_again = Step.locks refl (inr refl)

unlocks_once : Step true 1 again held
unlocks_once = Step.unlocks refl

Run-held : Run true initial held
Run-held =
    later (later (later (later (later (later still makes_7) calls_2) locks_1) hangs_up) locks_again)
      unlocks_once

threads_refine_example :
    (rs : List (ℕ × Done ℕ)) × (more : List (ℕ × Done ℕ)) × Explains true held rs
    × Explains true returned (rs ++ more)
threads_refine_example =
    threads_refine true Run-held returned
      (later (later (later (later still links_full) unlocks_1) locks_signal_1) signals_1)

threads_exclude_example :
    ((i j : ℕ) → has_lock (held.phase i) ≡ true → has_lock (held.phase j) ≡ true → i ≡ j)
    × ((i j : ℕ) → has_sync (held.phase i) ≡ true → has_sync (held.phase j) ≡ true → i ≡ j)
    × ((i a : ℕ)
        → own (held.phase i) ≡ some a
        → ((j : ℕ) → own (held.phase j) ≡ some a → j ≡ i)
          × (held.queue.head ≢ at a)
          × ((item : Item ℕ) × (held.queue.cell a ≡ some item)))
threads_exclude_example = threads_exclude true Run-held

two_threads : (i : ℕ) → 3 ≤ i → held.phase i ≡ idle
two_threads i h = ground arith

threads_end_example :
    (1 + work 3 stored.phase ≡ work 3 held.phase)
    × ((i : ℕ) → (stored.phase i ≡ idle) ⊎ Served stored i)
unfolding init
threads_end_example =
    threads_end held Run-held 3 two_threads 1 stored (onward done (Step.links refl refl) tt)
