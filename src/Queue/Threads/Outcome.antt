-- ===== src/Queue/Threads/Outcome.antt =====
-- What the threads at the queue of src/pdns-logger-queue.c see, against the calls of one slot, and
-- what its mutexes are for.
use pdns_logger.Base.{
  of_thread, ℕ, ◌≤◌, Bool, true, List, [], ◌++◌, length, Option, none, some, ◌≡◌, ◌≢◌, ◌⊎◌, refl,
  ap, arith, append_assoc,
}
use pdns_logger.Queue.{Pointer, null, junk, at, Item, Fifo}
use pdns_logger.Queue.Refine.{Holds, init-Holds}
use pdns_logger.Queue.Threads.{
  Done, has_lock, interrupted, Phase, idle, made, linking, linked, announces, signalling, waits,
  dozing, asleep, woken, looks, unlinking, unlinked, takes, rotating, State, Run, still, later,
  initial,
}
use pdns_logger.Queue.Threads.Local.{has_sync, own, Taken, Local, Answers}
use pdns_logger.Queue.Threads.Asked.{called, running, Local-running, Run-Asked}
use pdns_logger.Queue.Threads.Shared
use pdns_logger.Queue.Threads.Invariant.{Owns, Inv}
use pdns_logger.Queue.Threads.Steps.{due_at}
use pdns_logger.Queue.Threads.Preserved.{Explained, Inv-Explained, Step-Explained}

module _ {A : Type 0} where
  Owns-one :
      (has : Phase A → Bool) (owner : Option ℕ) (phase : ℕ → Phase A)
      → Owns has owner phase
      → (i j : ℕ) → has (phase i) ≡ true
      → has (phase j) ≡ true
      → i ≡ j
  Owns-one has none phase h i j e f = absurd (ground (arith, h i))
  Owns-one has (some k) phase h i j e f = ground (arith, h i, h j)

  -- What thread `i` has called and been told, against the calls and answers `rs` of the slot.
  pub record Told (i : ℕ) (s : State A) (rs : List (ℕ × Done A)) : Type 0 where
    pub due : List (Done A)
    pub told : of_thread i rs ≡ of_thread i s.returns ++ due
    pub few : length due ≤ 1
    pub idle_none : s.phase i ≡ idle → due ≡ []
    pub asked : of_thread i s.calls ≡ called (of_thread i s.returns) ++ running (s.phase i)
    pub of_call : (due ≡ []) ⊎ (called due ≡ running (s.phase i))

  Taken-few : (q : Fifo A) (p : Pointer) (rs : List (Done A)) → Taken {A = A} q p rs → length rs ≤ 1
  Taken-few q null rs e = omega (arith, ap length e)
  Taken-few q (at a) rs (v, p, e) = omega (arith, ap length e)
  Taken-few q junk rs t = absurd t

  Local-few : (q : Fifo A) (p : Phase A) (rs : List (Done A)) → Local q p rs → length rs ≤ 1
  Local-few q (made a v) rs (p, e) = omega (arith, ap length e)
  Local-few q (linking a v) rs (p, e) = omega (arith, ap length e)
  Local-few q (unlinked p) rs t = Taken-few q p rs t
  Local-few q (takes p) rs t = Taken-few q p rs t
  Local-few q idle rs e = omega (arith, ap length e)
  Local-few q (linked v) rs e = omega (arith, ap length e)
  Local-few q (announces v) rs e = omega (arith, ap length e)
  Local-few q (signalling v) rs e = omega (arith, ap length e)
  Local-few q waits rs e = omega (arith, ap length e)
  Local-few q dozing rs e = omega (arith, ap length e)
  Local-few q asleep rs e = omega (arith, ap length e)
  Local-few q woken rs e = omega (arith, ap length e)
  Local-few q looks rs e = omega (arith, ap length e)
  Local-few q unlinking rs e = omega (arith, ap length e)
  Local-few q (interrupted p) rs t = Local-few q p rs t
  Local-few q (rotating p) rs t = Local-few q p rs t

  -- The state `s`, by the answers `rs` of a slot's calls.
  pub record Explains (ndebug : Bool) (s : State A) (rs : List (ℕ × Done A)) : Type 0 where
    pub slot : Option A
    pub holds : Holds s.queue slot
    pub answers : Answers ndebug slot rs
    pub tells : (i : ℕ) → Told i s rs

module _ {A : Type 0} {ndebug : Bool} where
  initial-Inv : Inv {A = A} ndebug initial none []
  initial-Inv = record {
    answers = Answers.nothing;
    holds = init-Holds;
    locals = λ j. record { due = []; sound = refl; told = refl };
    apart = λ j k a e f. absurd (cc);
    locked = λ j. refl;
    synced = λ j. refl;
  }

  Run-Explained :
      {s t : State A} {slot : Option A} {rs : List (ℕ × Done A)}
      → Inv ndebug s slot rs
      → Run ndebug s t
      → Explained ndebug rs t
  Run-Explained {rs} inv still = Inv-Explained rs inv
  Run-Explained {rs} inv (later {i} {t} r step) =
      let x = Run-Explained inv r in
      let y = Step-Explained t i x.inv step in
      record {
        slot = y.slot;
        more = x.more ++ y.more;
        inv = rw (← append_assoc rs x.more y.more) y.inv;
      }

  Run-Run : {r s t : State A} → Run ndebug r s → Run ndebug s t → Run ndebug r t
  Run-Run r still = r
  Run-Run r (later t step) = later (Run-Run r t) step

  pub Run-Inv :
      {s : State A}
      → Run ndebug initial s
      → (slot : Option A) × (rs : List (ℕ × Done A)) × Inv ndebug s slot rs
  Run-Inv r = let x = Run-Explained initial-Inv r in (x.slot, x.more, x.inv)

  Inv-Explains :
      (s : State A)
      → Run ndebug initial s
      → {slot : Option A} {rs : List (ℕ × Done A)} → Inv ndebug s slot rs
      → Explains ndebug s rs
  Inv-Explains s behind {slot} inv = record {
    slot = slot;
    holds = inv.holds;
    answers = inv.answers;
    tells = λ i.
        let d = inv.locals i in
        record {
          due = d.due;
          told = d.told;
          few = Local-few s.queue (s.phase i) d.due d.sound;
          idle_none = λ e. due_at s i inv idle e (λ ts z. z);
          asked = Run-Asked behind i;
          of_call = Local-running s.queue (s.phase i) d.due d.sound;
        };
  }

module _ {A : Type 0} (ndebug : Bool) {s : State A} (behind : Run ndebug initial s) where
  -- Whatever the threads do one after another, some calls of a single slot, one at a time, explain
  -- it, each with the value that a thread passed: the calls that a thread has begun, in their order,
  -- are those that have returned and then the running one. Those of the slot are, for each thread,
  -- the ones that have returned, with their answers, and after them at most the running one, with the
  -- answer that it is still to return. A later state is explained by the same calls with some more
  -- behind them: so a call that begins once another one has returned stands behind it.
  pub threads_refine :
      (t : State A)
      → Run ndebug s t
      → (rs : List (ℕ × Done A)) × (more : List (ℕ × Done A)) × Explains ndebug s rs
        × Explains ndebug t (rs ++ more)
  threads_refine t r =
      let (slot, rs, inv) = Run-Inv behind in
      let x = Run-Explained inv r in
      (rs, x.more, Inv-Explains s behind inv, Inv-Explains t (Run-Run behind r) x.inv)

  -- At most one thread is between lock and unlock of each mutex. An item that a thread has
  -- allocated and not linked yet, or has taken out and not freed yet, is no other thread's, is not
  -- in the queue, and has not been freed.
  pub threads_exclude :
      ((i j : ℕ) → has_lock (s.phase i) ≡ true → has_lock (s.phase j) ≡ true → i ≡ j)
      × ((i j : ℕ) → has_sync (s.phase i) ≡ true → has_sync (s.phase j) ≡ true → i ≡ j)
      × ((i a : ℕ)
          → own (s.phase i) ≡ some a
          → ((j : ℕ) → own (s.phase j) ≡ some a → j ≡ i)
            × (s.queue.head ≢ at a)
            × ((item : Item A) × (s.queue.cell a ≡ some item)))
  threads_exclude =
      let (slot, rs, inv) = Run-Inv behind in
      (
        Owns-one has_lock s.lock s.phase inv.locked,
        Owns-one has_sync s.sync s.phase inv.synced,
        λ i a e.
            let d = inv.locals i in
            let (v, p) = Shared.Local-Private s.queue (s.phase i) d.due d.sound e in
            (λ j f. inv.apart j i a f e, p.apart, (p.item, p.live)),
      )
