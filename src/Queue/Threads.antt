-- ===== src/Queue/Threads.antt =====
-- The queue of src/pdns-logger-queue.c with its two mutexes: what a thread does between two of its
-- calls of the mutex and memory functions is one step, and the steps of the threads come in any
-- order.
pub mod Local
pub mod Shared
pub mod Invariant
pub mod Steps
pub mod Preserved
pub mod Asked
pub mod Outcome
pub mod Progress
pub mod Finish
use pdns_logger.Base.{
  goto, ◌⊎◌, ℕ, ◌+◌, Bool, true, false, List, [], ◌∷◌, ◌++◌, Option, none, some, ◌≡◌, if◌then◌else◌,
  ok,
}
use pdns_logger.Queue.{Pointer, at, Fifo, init, allocate, link, unlink, take_item}
use pdns_logger.Queue.Refine.{Reply, answered, popped}
use pdns_logger.Status.{pdns_no, pdns_ok}

-- What a thread calls: fifo_push_item, with the pointer that it passes, or fifo_pop_item. A call
-- that has returned, with its answer.
pub data Call (A : Type 0) : Type 0 where
  pushes : Option A → Call A
  pops : Call A

abbrev pub Done : Type 0 → Type 0
Done A = Call A × Reply A

-- Where a thread is, with the local variables that are live there.
pub data Phase (A : Type 0) : Type 0 where
  idle : Phase A
  -- fifo_push_item: an item is allocated; the lock is held; the item is linked; fifo_send_signal
  made linking : ℕ → A → Phase A
  linked announces signalling : A → Phase A
  -- fifo_pop_item: fifo_wait_signal, before and in its mutex, asleep in pthread_cond_timedwait, and
  -- awake; fifo_pop, before and in the lock, with the item in the lock, and without
  waits dozing asleep woken looks unlinking : Phase A
  unlinked takes : Pointer → Phase A
  -- logsqlite_rotate in the handler of SIGHUP, which has interrupted the thread somewhere: before
  -- fifo_lock, and between it and fifo_unlock
  interrupted rotating : Phase A → Phase A

-- The queue, the threads that have `lock` and `sync_mutex`, the calls that have begun, with what they
-- were passed, and those that have returned, each with its thread.
pub record State (A : Type 0) : Type 0 where
  pub queue : Fifo A
  pub lock : Option ℕ
  pub sync : Option ℕ
  pub phase : ℕ → Phase A
  pub calls : List (ℕ × Call A)
  pub returns : List (ℕ × Done A)

module _ {A : Type 0} where
  -- Thread `i` goes on, with nothing else changed; it begins a call; it returns from its call.
  abbrev pub moves : ℕ → Phase A → State A → State A
  moves i p s = record s { phase = goto i p s.phase }

  abbrev pub calling : ℕ → Call A → State A → State A
  calling i c s = record s { calls = s.calls ++ (i, c) ∷ [] }

  abbrev pub answers : ℕ → Done A → State A → State A
  answers i r s = record s { phase = goto i idle s.phase; returns = s.returns ++ (i, r) ∷ [] }

  -- A handler is not interrupted by its own signal.
  abbrev pub handles : Phase A → Bool
  handles (interrupted p) = true
  handles (rotating p) = true
  handles _ = false

  -- The mutex is recursive: behind the handler's unlock it is with the thread that was interrupted, if
  -- that had it.
  abbrev pub has_lock : Phase A → Bool
  has_lock (linking _ _) = true
  has_lock (linked _) = true
  has_lock unlinking = true
  has_lock (unlinked _) = true
  has_lock (interrupted p) = has_lock p
  has_lock (rotating p) = true
  has_lock _ = false

  -- A step of thread `i`. An assertion that fails ends the process, and is no step.
  pub data Step (ndebug : Bool) (i : ℕ) (s : State A) : State A → Type 0 where
    -- fifo_push_item of NULL, or with no memory
    refuses :
        (o : Option A)
        → s.phase i ≡ idle
        → Step ndebug i s (answers i (pushes o, answered pdns_no) (calling i (pushes o) s))
    makes :
        (v : A)
        → s.phase i ≡ idle
        → Step ndebug i s (
            moves i
              (made s.queue.fresh v)
              (calling i (pushes (some v)) (record s { queue = allocate v s.queue })))
    locks_push :
        {a : ℕ} {v : A}
        → s.phase i ≡ made a v
        → s.lock ≡ none
        → Step ndebug i s (moves i (linking a v) (record s { lock = some i }))
    links :
        {a : ℕ} {v : A} {q : Fifo A}
        → s.phase i ≡ linking a v
        → link ndebug (at a) v s.queue ≡ ok q
        → Step ndebug i s (moves i (linked v) (record s { queue = q }))
    unlocks_push :
        {v : A}
        → s.phase i ≡ linked v
        → Step ndebug i s (moves i (announces v) (record s { lock = none }))
    locks_signal :
        {v : A}
        → s.phase i ≡ announces v
        → s.sync ≡ none
        → Step ndebug i s (moves i (signalling v) (record s { sync = some i }))
    -- A sleeper wakes by a signal or by its deadline; so a signal is no condition of its waking.
    signals :
        {v : A}
        → s.phase i ≡ signalling v
        → Step ndebug i s (answers i (pushes (some v), answered pdns_ok) (record s { sync = none }))
    calls_pop : s.phase i ≡ idle → Step ndebug i s (moves i waits (calling i pops s))
    locks_wait :
        s.phase i ≡ waits
        → s.sync ≡ none
        → Step ndebug i s (moves i dozing (record s { sync = some i }))
    sleeps : s.phase i ≡ dozing → Step ndebug i s (moves i asleep (record s { sync = none }))
    wakes :
        s.phase i ≡ asleep
        → s.sync ≡ none
        → Step ndebug i s (moves i woken (record s { sync = some i }))
    unlocks_wait : s.phase i ≡ woken → Step ndebug i s (moves i looks (record s { sync = none }))
    locks_pop :
        s.phase i ≡ looks
        → s.lock ≡ none
        → Step ndebug i s (moves i unlinking (record s { lock = some i }))
    unlinks :
        {p : Pointer} {q : Fifo A}
        → s.phase i ≡ unlinking
        → unlink s.queue ≡ ok (p, q)
        → Step ndebug i s (moves i (unlinked p) (record s { queue = q }))
    unlocks_pop :
        {p : Pointer}
        → s.phase i ≡ unlinked p
        → Step ndebug i s (moves i (takes p) (record s { lock = none }))
    takes_out :
        {p : Pointer} {o : Option A} {q : Fifo A}
        → s.phase i ≡ takes p
        → take_item p s.queue ≡ ok (o, q)
        → Step ndebug i s (answers i (pops, popped o) (record s { queue = q }))
    -- SIGHUP, fifo_lock and fifo_unlock
    interrupts :
        {p : Phase A}
        → s.phase i ≡ p
        → handles p ≡ false
        → Step ndebug i s (moves i (interrupted p) s)
    locks :
        {p : Phase A}
        → s.phase i ≡ interrupted p
        → (s.lock ≡ none) ⊎ (s.lock ≡ some i)
        → Step ndebug i s (moves i (rotating p) (record s { lock = some i }))
    unlocks :
        {p : Phase A}
        → s.phase i ≡ rotating p
        → Step ndebug i s (moves i p (record s { lock = if has_lock p then some i else none }))

  -- A step that goes on with a call or a handler: none begins.
  abbrev pub Continues : {ndebug : Bool} {i : ℕ} {s t : State A} → Step ndebug i s t → Type 0
  Continues (Step.refuses o e) = ⊥
  Continues (Step.makes v e) = ⊥
  Continues (Step.locks_push e n) = Unit {0}
  Continues (Step.links e l) = Unit {0}
  Continues (Step.unlocks_push e) = Unit {0}
  Continues (Step.locks_signal e n) = Unit {0}
  Continues (Step.signals e) = Unit {0}
  Continues (Step.calls_pop e) = ⊥
  Continues (Step.locks_wait e n) = Unit {0}
  Continues (Step.sleeps e) = Unit {0}
  Continues (Step.wakes e n) = Unit {0}
  Continues (Step.unlocks_wait e) = Unit {0}
  Continues (Step.locks_pop e n) = Unit {0}
  Continues (Step.unlinks e u) = Unit {0}
  Continues (Step.unlocks_pop e) = Unit {0}
  Continues (Step.takes_out e u) = Unit {0}
  Continues (Step.interrupts e n) = ⊥
  Continues (Step.locks e n) = Unit {0}
  Continues (Step.unlocks e) = Unit {0}

  -- Behind fifo_init.
  abbrev pub initial : State A
  initial = record {
    queue = init;
    lock = none;
    sync = none;
    phase = λ _. idle;
    calls = [];
    returns = [];
  }

  -- Any steps of any threads.
  pub data Run (ndebug : Bool) (s : State A) : State A → Type 0 where
    still : Run ndebug s s
    later : {i : ℕ} {t u : State A} → Run ndebug s t → Step ndebug i t u → Run ndebug s u
