-- ===== src/Queue.antt =====
-- src/pdns-logger-queue.c: the queue between the logging threads and the database thread.
-- Items live in an explicit heap, `head` and `tail` are pointers into it, and `malloc` may fail.
-- Each operation runs under the queue's mutex, so it is one step here.
pub mod Slot
pub mod Refine
pub mod Deadline
pub mod Threads
use pdns_logger.Base.{
  ℕ, suc, ◌+◌, Bool, true, false, not, ◌&&◌, ◌||◌, Option, none, some, ◌==◌, if◌then◌else◌, Result,
  ok, fault, assertion, bad_pointer, ◌>>=◌,
}
use pdns_logger.Status.{Status, pdns_no, pdns_ok}

-- A pointer to an item; `junk` is what a field holds that was never assigned.
pub data Pointer : Type 0 where
  null junk : Pointer
  at : ℕ → Pointer

abbrev pub is_null : Pointer → Bool
is_null null = true
is_null _ = false

abbrev pub same : Pointer → Pointer → Bool
same (at a) (at b) = a == b
same null null = true
same _ _ = false

-- `fifo_item_t`
pub record Item (A : Type 0) : Type 0 where
  pub value : A
  pub next : Pointer

-- `fifo_t` with the part of the heap that its items live in. `fresh` is the next address that
-- `malloc` hands out.
pub record Fifo (A : Type 0) : Type 0 where
  pub head : Pointer
  pub tail : Pointer
  pub fresh : ℕ
  pub cell : ℕ → Option (Item A)

module _ {A : Type 0} where
  abbrev pub update : (ℕ → Option (Item A)) → ℕ → Option (Item A) → ℕ → Option (Item A)
  update f p v q = if p == q then v else f q

  abbrev pub deref : (ℕ → Option (Item A)) → Pointer → Result (Item A)
  deref cell (at a) = elim (cell a) [ none ↦ fault bad_pointer | some item ↦ ok item ]
  deref cell _ = fault bad_pointer

  -- `free`
  abbrev pub release : (ℕ → Option (Item A)) → Pointer → ℕ → Option (Item A)
  release cell (at a) = update cell a none
  release cell _ = cell

  -- `memset` to 0 in `fifo_init`
  unfoldable pub init : Fifo A
  init = record { head = null; tail = null; fresh = 0; cell = λ _. none }

  -- `malloc` of an item, and `item->data = value`
  abbrev pub allocate : A → Fifo A → Fifo A
  allocate v q = record q {
    fresh = q.fresh + 1;
    cell = update q.cell q.fresh (some (record { value = v; next = junk }));
  }

  -- `item->next = next`
  abbrev pub set_next : Pointer → Pointer → (ℕ → Option (Item A)) → ℕ → Option (Item A)
  set_next (at a) next cell =
      update cell a (elim (cell a) [ none ↦ none | some i ↦ some (record i { next = next }) ])
  set_next _ next cell = cell

  -- The three branches of `fifo_push`, with the new item allocated. `ndebug` says that `assert` is
  -- compiled out, and then its branch does nothing.
  abbrev pub link : Bool → Pointer → A → Fifo A → Result (Fifo A)
  link ndebug item v q =
      if is_null q.tail && is_null q.head
      then ok (record q { head = item; tail = item })
      else if not (is_null q.tail) || not (is_null q.head)
      then (if ndebug then ok q else fault assertion)
      else ok (record q { head = item; cell = set_next item q.head q.cell })

  push_value : Bool → Bool → A → Fifo A → Result (Status × Fifo A)
  push_value ndebug memory v q =
      if memory
      then (link ndebug (at q.fresh) v (allocate v q) >>= λ r. ok (pdns_ok, r))
      else ok (pdns_no, q)

  -- `fifo_push`, on a queue that is not NULL. The value may be NULL, and `memory` is the answer of
  -- `malloc`.
  unfoldable pub push : Bool → Bool → Option A → Fifo A → Result (Status × Fifo A)
  unfolding push_value
  push ndebug memory none q = ok (pdns_no, q)
  push ndebug memory (some v) q = push_value ndebug memory v q

  -- `fifo_pop` under the lock: which item is taken, and the queue without it
  abbrev pub unlink : Fifo A → Result (Pointer × Fifo A)
  unlink q =
      if is_null q.head && is_null q.tail
      then ok (null, q)
      else if not (is_null q.head) && same q.tail q.head
      then ok (q.head, record q { head = null; tail = null })
      else deref q.cell q.head >>= λ i. ok (q.head, record q { head = i.next })

  -- the end of `fifo_pop`: read the item, free it
  abbrev pub take_item : Pointer → Fifo A → Result (Option A × Fifo A)
  take_item null q = ok (none, q)
  take_item item q =
      deref q.cell item >>= λ i. ok (some i.value, record q { cell = release q.cell item })

  -- `fifo_pop`, on a queue that is not NULL
  unfoldable pub pop : Fifo A → Result (Option A × Fifo A)
  pop q = unlink q >>= λ r. take_item r.0 r.1

  -- `fifo_push_item`: the queue may be NULL too. Waking the reader changes nothing in the queue.
  unfoldable pub push_item :
      Bool → Bool → Option A → Option (Fifo A) → Result (Status × Option (Fifo A))
  unfolding push
  push_item ndebug memory value none = ok (pdns_no, none)
  push_item ndebug memory value (some q) = push ndebug memory value q >>= λ r. ok (r.0, some r.1)

  -- `fifo_pop_item`, after the wait
  unfoldable pub pop_item : Option (Fifo A) → Result (Option A × Option (Fifo A))
  unfolding pop
  pop_item none = ok (none, none)
  pop_item (some q) = pop q >>= λ r. ok (r.0, some r.1)
