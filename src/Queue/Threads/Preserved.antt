-- ===== src/Queue/Threads/Preserved.antt =====
-- The steps of src/pdns-logger-queue.c one by one: what the queue's threads have in common holds
-- behind each of them.
use mathlib.Core.Path.{subst}
use pdns_logger.Base.{
  of_thread-other, ℕ, Bool, List, [], ◌∷◌, ◌++◌, Option, none, some, ◌≡◌, refl, sym, ap, ◌∙◌, arith,
  ok, append-nil,
}
use pdns_logger.Queue.{Pointer, at, Fifo, link, unlink, take_item, allocate}
use pdns_logger.Queue.Slot
use pdns_logger.Queue.Refine.{answered, popped}
use pdns_logger.Queue.Threads.{
  Done, pushes, pops, has_lock, interrupted, idle, made, linking, linked, announces, signalling,
  waits, dozing, asleep, woken, looks, unlinking, unlinked, takes, rotating, State, Step, moves,
  calling, answers,
}
use pdns_logger.Queue.Threads.Local.{has_sync, own, Local, Answers}
use pdns_logger.Queue.Threads.Shared
use pdns_logger.Queue.Threads.Invariant.{Owns-keeps, Owns-again, Owns-back, Owns-gives, Inv}
use pdns_logger.Queue.Threads.Steps.{
  Inv-moves, Inv-quiet, gets_lock, gives_lock, gets_sync, gives_sync, owes, pays, owes_nothing,
  pays_at_once, due_at,
}
use pdns_logger.Status.{pdns_no, pdns_ok}

-- Some calls of a slot, behind those that answer `rs`, explain what the threads have seen.
pub record Explained {A : Type 0} (ndebug : Bool) (rs : List (ℕ × Done A)) (s : State A)
    : Type 0 where
  pub slot : Option A
  pub more : List (ℕ × Done A)
  pub inv : Inv ndebug s slot (rs ++ more)

pub Inv-Explained :
    {A : Type 0} {ndebug : Bool} (rs : List (ℕ × Done A)) {s : State A} {slot : Option A}
    → Inv ndebug s slot rs
    → Explained ndebug rs s
Inv-Explained rs {slot} inv = record { slot = slot; more = []; inv = rw (append-nil rs) inv }

module _ {A : Type 0} {ndebug : Bool} (s : State A) {slot : Option A} {rs : List (ℕ × Done A)}
    (i : ℕ) (inv : Inv ndebug s slot rs) where
  linking-Explained :
      (a : ℕ) (v : A) {q : Fifo A}
      → s.phase i ≡ linking a v
      → link ndebug (at a) v s.queue ≡ ok q
      → Explained ndebug rs (moves i (linked v) (record s { queue = q }))
  linking-Explained a v {q} e l =
      let d = inv.locals i in
      let r = subst (λ x. Local s.queue x d.due) e d.sound in
      let w = Shared.link-Holds ndebug a v s.queue q r.0 inv.holds l in
      record {
        slot = w.0;
        more = (i, (pushes (some v), answered pdns_ok)) ∷ [];
        inv =
            Inv-moves s i (linked v) inv (Answers.pushed i v inv.answers w.2) w.1
              (owes s i inv (linked v) (pushes (some v), answered pdns_ok)
                (due_at s i inv (linking a v) e (λ ts z. z.1)) refl)
              (λ j n. (of_thread-other i j rs _ n, refl))
              (λ j b y n x z. (
                w.3 b y (λ m. n (inv.apart j i b x (ap own e ∙ ap some (sym m)))) z,
                λ k. ground arith,
              ))
              (Owns-keeps has_lock s.phase i (linking a v) (linked v) s.lock e inv.locked refl)
              (Owns-keeps has_sync s.phase i (linking a v) (linked v) s.sync e inv.synced refl);
      }

  unlinking-Explained :
      {p : Pointer} {q : Fifo A}
      → s.phase i ≡ unlinking
      → unlink s.queue ≡ ok (p, q)
      → Explained ndebug rs (moves i (unlinked p) (record s { queue = q }))
  unlinking-Explained {p} {q} e u =
      let w = Shared.unlink-Holds s.queue inv.holds in
      let x : (w.0 ≡ p) × (w.1 ≡ q) = let y = w.2 in ground arith in
      subst (λ t. Explained ndebug rs (moves i (unlinked t) (record s { queue = q }))) x.0
        (subst (λ t. Explained ndebug rs (moves i (unlinked w.0) (record s { queue = t }))) x.1
          (record {
            slot = (Slot.pop slot).1;
            more = (i, (pops, popped (Slot.pop slot).0)) ∷ [];
            inv =
                Inv-moves s i (unlinked w.0) inv (Answers.taken i inv.answers) w.3
                  (owes s i inv (unlinked w.0) _ (due_at s i inv unlinking e (λ ts z. z)) w.4)
                  (λ j n. (of_thread-other i j rs _ n, refl)) (λ j b y n z r. w.5 b y r)
                  (Owns-keeps has_lock s.phase i unlinking (unlinked w.0) s.lock e inv.locked refl)
                  (Owns-keeps has_sync s.phase i unlinking (unlinked w.0) s.sync e inv.synced refl);
          }))

  taking-Explained :
      {p : Pointer} {o : Option A} {q : Fifo A}
      → s.phase i ≡ takes p
      → take_item p s.queue ≡ ok (o, q)
      → Explained ndebug rs (answers i (pops, popped o) (record s { queue = q }))
  taking-Explained {p} {o} {q} e u =
      let d = inv.locals i in
      let w =
        Shared.take-Holds s.queue p d.due inv.holds
          (subst (λ x. Local s.queue x d.due) e d.sound) in
      let x : (w.0 ≡ o) × (w.1 ≡ q) = let y = w.2 in ground arith in
      subst (λ t. Explained ndebug rs (answers i (pops, popped t) (record s { queue = q }))) x.0
        (subst (λ t. Explained ndebug rs (answers i (pops, popped w.0) (record s { queue = t })))
          x.1
          (Inv-Explained rs (
            Inv-moves s i idle inv inv.answers w.3 (pays s i inv _ w.4)
              (λ j n. (refl, of_thread-other i j s.returns _ n))
              (λ j b y n z r.
                (w.5 b y (λ k. n (inv.apart j i b z (ap own e ∙ k))) r, λ k. ground arith))
              (Owns-keeps has_lock s.phase i (takes p) idle s.lock e inv.locked refl)
              (Owns-keeps has_sync s.phase i (takes p) idle s.sync e inv.synced refl))))

  signalling-Inv :
      (v : A)
      → s.phase i ≡ signalling v
      → Inv ndebug
          (answers i (pushes (some v), answered pdns_ok) (record s { sync = none }))
          slot
          rs
  signalling-Inv v e =
      Inv-moves s i idle inv inv.answers inv.holds
        (pays s i inv _ (due_at s i inv (signalling v) e (λ ts z. z)))
        (λ j n. (refl, of_thread-other i j s.returns _ n))
        (λ j b y n z r. ((refl, r.apart, λ k. k), λ k. ground arith))
        (Owns-keeps has_lock s.phase i (signalling v) idle s.lock e inv.locked refl)
        (Owns-gives has_sync s.phase i (signalling v) idle s.sync e inv.synced refl refl)

  refusing-Inv :
      (o : Option A)
      → s.phase i ≡ idle
      → Inv ndebug
          (answers i (pushes o, answered pdns_no) (calling i (pushes o) s))
          slot
          (rs ++ (i, (pushes o, answered pdns_no)) ∷ [])
  refusing-Inv o e =
      Inv-moves s i idle inv (Answers.refused i o inv.answers) inv.holds
        (pays_at_once s i inv _ (due_at s i inv idle e (λ ts z. z)))
        (λ j n. (of_thread-other i j rs _ n, of_thread-other i j s.returns _ n))
        (λ j b y n z r. ((refl, r.apart, λ k. k), λ k. ground arith))
        (Owns-keeps has_lock s.phase i idle idle s.lock e inv.locked refl)
        (Owns-keeps has_sync s.phase i idle idle s.sync e inv.synced refl)

  making-Inv :
      (v : A)
      → s.phase i ≡ idle
      → Inv ndebug
          (moves i
            (made s.queue.fresh v)
            (calling i (pushes (some v)) (record s { queue = allocate v s.queue })))
          slot
          rs
  making-Inv v e =
      Inv-moves s i (made s.queue.fresh v) inv inv.answers
        (Shared.allocate-Holds v s.queue inv.holds)
        (owes_nothing s i inv (made s.queue.fresh v) (due_at s i inv idle e (λ ts z. z))
          (Shared.allocate-Private v s.queue inv.holds, refl))
        (λ j n. (refl, refl))
        (λ j b y n z r. (Shared.allocate-Spared v y s.queue b r, let o = r.old in ground arith))
        (Owns-keeps has_lock s.phase i idle (made s.queue.fresh v) s.lock e inv.locked refl)
        (Owns-keeps has_sync s.phase i idle (made s.queue.fresh v) s.sync e inv.synced refl)

  -- Every step keeps what explains the threads' answers.
  pub Step-Explained : {t : State A} → Step ndebug i s t → Explained ndebug rs t
  Step-Explained (Step.refuses o e) = record { slot = slot; more = _; inv = refusing-Inv o e }
  Step-Explained (Step.makes v e) = Inv-Explained rs (making-Inv v e)
  Step-Explained (Step.locks_push {a} {v} e n) =
      Inv-Explained rs (gets_lock s i inv (made a v) (linking a v) e n (λ ts z. z) refl refl refl)
  Step-Explained (Step.links {a} {v} e l) = linking-Explained a v e l
  Step-Explained (Step.unlocks_push {v} e) =
      Inv-Explained rs
        (gives_lock s i inv (linked v) (announces v) e (λ ts z. z) refl refl refl refl)
  Step-Explained (Step.locks_signal {v} e n) =
      Inv-Explained rs
        (gets_sync s i inv (announces v) (signalling v) e n (λ ts z. z) refl refl refl)
  Step-Explained (Step.signals {v} e) = Inv-Explained rs (signalling-Inv v e)
  Step-Explained (Step.calls_pop e) = Inv-Explained rs (
      Inv-quiet s i idle waits inv e (λ ts z. z) refl
        (Owns-keeps has_lock s.phase i idle waits s.lock e inv.locked refl)
        (Owns-keeps has_sync s.phase i idle waits s.sync e inv.synced refl))
  Step-Explained (Step.locks_wait e n) =
      Inv-Explained rs (gets_sync s i inv waits dozing e n (λ ts z. z) refl refl refl)
  Step-Explained (Step.sleeps e) =
      Inv-Explained rs (gives_sync s i inv dozing asleep e (λ ts z. z) refl refl refl refl)
  Step-Explained (Step.wakes e n) =
      Inv-Explained rs (gets_sync s i inv asleep woken e n (λ ts z. z) refl refl refl)
  Step-Explained (Step.unlocks_wait e) =
      Inv-Explained rs (gives_sync s i inv woken looks e (λ ts z. z) refl refl refl refl)
  Step-Explained (Step.locks_pop e n) =
      Inv-Explained rs (gets_lock s i inv looks unlinking e n (λ ts z. z) refl refl refl)
  Step-Explained (Step.unlinks e u) = unlinking-Explained e u
  Step-Explained (Step.unlocks_pop {p} e) =
      Inv-Explained rs (gives_lock s i inv (unlinked p) (takes p) e (λ ts z. z) refl refl refl refl)
  Step-Explained (Step.takes_out e u) = taking-Explained e u
  Step-Explained (Step.interrupts {p} e n) = Inv-Explained rs (
      Inv-quiet s i p (interrupted p) inv e (λ ts z. z) refl
        (Owns-keeps has_lock s.phase i p (interrupted p) s.lock e inv.locked refl)
        (Owns-keeps has_sync s.phase i p (interrupted p) s.sync e inv.synced refl))
  Step-Explained (Step.locks {p} e n) = Inv-Explained rs (
      Inv-quiet s i (interrupted p) (rotating p) inv e (λ ts z. z) refl
        (Owns-again has_lock s.phase i (rotating p) n inv.locked refl)
        (Owns-keeps has_sync s.phase i (interrupted p) (rotating p) s.sync e inv.synced refl))
  Step-Explained (Step.unlocks {p} e) = Inv-Explained rs (
      Inv-quiet s i (rotating p) p inv e (λ ts z. z) refl
        (Owns-back has_lock s.phase i (rotating p) p s.lock e inv.locked refl)
        (Owns-keeps has_sync s.phase i (rotating p) p s.sync e inv.synced refl))
