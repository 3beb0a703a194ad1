-- ===== src/Queue/Refine.antt =====
-- The queue of src/pdns-logger-queue.c against the slot that it amounts to.
use pdns_logger.Base.{
  ℕ, Bool, true, false, List, [], ◌∷◌, Option, none, some, ◌≡◌, ◌≢◌, ◌<◌, refl, ap, ap₂, arith,
  if◌then◌else◌, Result, ok, fault, Fault, assertion,
}
use pdns_logger.Queue.Slot
use pdns_logger.Queue.{null, junk, at, Item, Fifo, init, push, pop, push_value, allocate, release}
use pdns_logger.Status.{Status, pdns_ok}

module _ {A : Type 0} where
  -- The queue is well formed and its one slot is `s`: both pointers are null, or both are the
  -- address of one live item.
  pub data Holds (q : Fifo A) : Option A → Type 0 where
    vacant : q.head ≡ null → q.tail ≡ null → Holds q none
    taken :
        {v : A} (a : ℕ) (item : Item A)
        → q.head ≡ at a
        → q.tail ≡ at a
        → q.cell a ≡ some item
        → item.value ≡ v
        → a < q.fresh
        → Holds q (some v)

  -- Two runs of a step fault alike, or give the same answer and states that correspond.
  abbrev pub Agrees : {B : Type 0} → Result (B × Fifo A) → Result (B × Option A) → Type 0
  Agrees (ok (b, q)) (ok (c, s)) = (b ≡ c) × Holds q s
  Agrees (fault e) (fault d) = e ≡ d
  Agrees _ _ = ⊥

  pub init-Holds : Holds init none
  unfolding init
  init-Holds = vacant refl refl

  -- `fifo_push` links the new item into an empty queue.
  push_value-vacant :
      (ndebug : Bool) (v : A) (q : Fifo A)
      → q.head ≡ null
      → q.tail ≡ null
      → push_value ndebug true v q
        ≡ ok (pdns_ok, record (allocate v q) { head = at q.fresh; tail = at q.fresh })
  unfolding push_value
  push_value-vacant nd v q h t = ground arith

  -- With an item in the queue it allocates another one, and then asserts or forgets it.
  push_value-taken :
      (ndebug : Bool) (v : A) (q : Fifo A) {a : ℕ}
      → q.head ≡ at a
      → q.tail ≡ at a
      → push_value ndebug true v q
        ≡ (if ndebug then ok (pdns_ok, allocate v q) else fault assertion)
  unfolding push_value
  push_value-taken nd v q h t = ground arith

  pop-vacant : (q : Fifo A) → q.head ≡ null → q.tail ≡ null → pop q ≡ ok (none, q)
  unfolding pop
  pop-vacant q h t = ground arith

  pop-taken :
      (q : Fifo A) {a : ℕ} {item : Item A}
      → q.head ≡ at a
      → q.tail ≡ at a
      → q.cell a ≡ some item
      → pop q
        ≡ ok (some item.value, record q { head = null; tail = null; cell = release q.cell (at a) })
  unfolding pop
  pop-taken q h t c = ground arith

  -- `fifo_push` does to a well-formed queue what `Slot.push` does to its slot.
  pub push-Holds :
      (ndebug memory : Bool) (value : Option A) (q : Fifo A) {s : Option A}
      → Holds q s
      → Agrees (push ndebug memory value q) (Slot.push ndebug memory value s)
  unfolding push Slot.push
  push-Holds nd m none q h = (refl, h)
  push-Holds nd false (some v) q h = unfold push_value in (refl, h)
  push-Holds nd true (some v) q (vacant h t) = rw (push_value-vacant nd v q h t) (
    refl,
    taken q.fresh (record { value = v; next = junk }) refl refl (ground arith) refl (omega arith),
  )
  push-Holds true true (some v) q (taken a item h t c e n) =
      rw (push_value-taken true v q h t) (refl, taken a item h t (ground arith) e (omega arith))
  push-Holds false true (some v) q (taken a item h t c e n) =
      rw (push_value-taken false v q h t) refl

  pub pop-Holds : (q : Fifo A) {s : Option A} → Holds q s → Agrees (pop q) (ok (Slot.pop s))
  unfolding Slot.pop
  pop-Holds q (vacant h t) = rw (pop-vacant q h t) (refl, vacant h t)
  pop-Holds q (taken a item h t c e n) = rw (pop-taken q h t c) (ap some e, vacant refl refl)

  -- A value for an occupied queue, with memory at hand: a build that keeps assertions stops there.
  -- A release build answers PDNS_OK; the queue still holds the old value alone, and the new item
  -- stays allocated with no pointer to it.
  pub push_second :
      (v : A) (q : Fifo A) {w : A}
      → Holds q (some w)
      → (push false true (some v) q ≡ fault assertion)
        × ((q' : Fifo A) × (push true true (some v) q ≡ ok (pdns_ok, q'))
            × Holds q' (some w)
            × (q'.cell q.fresh ≡ some (record { value = v; next = junk }))
            × (q'.head ≢ at q.fresh))
  unfolding push
  push_second v q (taken a item h t c e n) = (
    push_value-taken false v q h t,
    (
      allocate v q,
      push_value-taken true v q h t,
      taken a item h t (ground arith) e (omega arith),
      ground arith,
      ground arith,
    ),
  )

-- The calls of the two threads, in the order in which they get the mutex.
pub data Op (A : Type 0) : Type 0 where
  put : Bool → Option A → Op A
  get : Op A

pub data Reply (A : Type 0) : Type 0 where
  answered : Status → Reply A
  popped : Option A → Reply A
  died : Fault → Reply A

module _ {A S B : Type 0} where
  abbrev reply : (B → Reply A) → Result (B × S) → (S → List (Reply A)) → List (Reply A)
  reply show (ok (b, s)) rest = show b ∷ rest s
  reply show (fault e) rest = died e ∷ []

module _ {A : Type 0} (ndebug : Bool) where
  -- What the callers see of a sequence of calls, up to the first fault.
  unfoldable pub run : List (Op A) → Fifo A → List (Reply A)
  run [] q = []
  run (put memory v ∷ ops) q = reply answered (push ndebug memory v q) (run ops)
  run (get ∷ ops) q = reply popped (pop q) (run ops)

  unfoldable pub run_slot : List (Op A) → Option A → List (Reply A)
  run_slot [] s = []
  run_slot (put memory v ∷ ops) s = reply answered (Slot.push ndebug memory v s) (run_slot ops)
  run_slot (get ∷ ops) s = reply popped (ok (Slot.pop s)) (run_slot ops)

  reply-Agrees :
      {B : Type 0} (show : B → Reply A) (r : Result (B × Fifo A)) (m : Result (B × Option A))
      (ops : List (Op A))
      → Agrees r m
      → ((q : Fifo A) (s : Option A) → Holds q s → run ops q ≡ run_slot ops s)
      → reply show r (run ops) ≡ reply show m (run_slot ops)
  reply-Agrees show (ok (b, q)) (ok (c, s)) ops (e, h) k = ap₂ (λ x y. x ∷ y) (ap show e) (k q s h)
  reply-Agrees show (fault e) (fault d) ops h k = ap (λ x. died x ∷ []) h
  reply-Agrees show (ok (b, q)) (fault d) ops h k = absurd h
  reply-Agrees show (fault e) (ok (c, s)) ops h k = absurd h

  run-Holds :
      (ops : List (Op A)) (q : Fifo A) (s : Option A) → Holds q s → run ops q ≡ run_slot ops s
  unfolding run run_slot
  run-Holds [] q s h = refl
  run-Holds (put memory v ∷ ops) q s h =
      reply-Agrees answered _ _ ops (push-Holds ndebug memory v q h) (run-Holds ops)
  run-Holds (get ∷ ops) q s h = reply-Agrees popped _ _ ops (pop-Holds q h) (run-Holds ops)

  -- From `fifo_init` on, no sequence of calls, with any answers of `malloc`, tells the queue from
  -- a single slot: neither by a status or a value, nor by an assertion.
  pub run_refines : (ops : List (Op A)) → run ops init ≡ run_slot ops none
  run_refines ops = run-Holds ops init none init-Holds
