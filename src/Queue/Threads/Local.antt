-- ===== src/Queue/Threads/Local.antt =====
-- What holds of a thread of src/pdns-logger-queue.c by itself: which mutex it has, which item is its
-- own, and what its call is to return.
use pdns_logger.Base.{
  ℕ, ◌<◌, Bool, true, false, List, [], ◌∷◌, ◌++◌, Option, none, some, ◌≡◌, ◌≢◌, ◌∙◌, ◌==◌, ok,
}
use pdns_logger.Queue.{Pointer, null, junk, at, Item, Fifo}
use pdns_logger.Queue.Refine.{answered, popped}
use pdns_logger.Queue.Slot
use pdns_logger.Queue.Threads.{
  Done, pushes, pops, Phase, idle, made, linking, linked, announces, signalling, waits, dozing,
  asleep, woken, looks, unlinking, unlinked, takes, interrupted, rotating,
}
use pdns_logger.Status.{Status, pdns_no, pdns_ok}

abbrev pub is_owner : Option ℕ → ℕ → Bool
is_owner none j = false
is_owner (some k) j = j == k

abbrev pub address : Pointer → Option ℕ
address (at a) = some a
address null = none
address junk = none

module _ {A : Type 0} where
  -- Between a lock of `sync_mutex` and its unlock; asleep, a thread has given it back.
  abbrev pub has_sync : Phase A → Bool
  has_sync (signalling _) = true
  has_sync dozing = true
  has_sync woken = true
  has_sync (interrupted p) = has_sync p
  has_sync (rotating p) = has_sync p
  has_sync _ = false

  -- The item that is the thread's own.
  abbrev pub own : Phase A → Option ℕ
  own (made a v) = some a
  own (linking a v) = some a
  own (unlinked p) = address p
  own (takes p) = address p
  own (interrupted p) = own p
  own (rotating p) = own p
  own _ = none

  -- An item that is not in the queue, with its value.
  pub record Private (q : Fifo A) (a : ℕ) (v : A) : Type 0 where
    pub item : Item A
    pub live : q.cell a ≡ some item
    pub value : item.value ≡ v
    pub old : a < q.fresh
    pub apart : q.head ≢ at a

  -- What an item that was taken out is for the caller.
  abbrev pub Taken : Fifo A → Pointer → List (Done A) → Type 0
  Taken q null rs = rs ≡ (pops, popped none) ∷ []
  Taken q (at a) rs = (v : A) × Private q a v × (rs ≡ (pops, popped (some v)) ∷ [])
  Taken q junk rs = ⊥

  -- The thread's items are as it takes them to be, and `rs` is what its call has come to, but has
  -- not returned yet.
  abbrev pub Local : Fifo A → Phase A → List (Done A) → Type 0
  Local q (made a v) rs = Private q a v × (rs ≡ [])
  Local q (linking a v) rs = Private q a v × (rs ≡ [])
  Local q (linked v) rs = rs ≡ (pushes (some v), answered pdns_ok) ∷ []
  Local q (announces v) rs = rs ≡ (pushes (some v), answered pdns_ok) ∷ []
  Local q (signalling v) rs = rs ≡ (pushes (some v), answered pdns_ok) ∷ []
  Local q (unlinked p) rs = Taken q p rs
  Local q (takes p) rs = Taken q p rs
  Local q (interrupted p) rs = Local q p rs
  Local q (rotating p) rs = Local q p rs
  Local q _ rs = rs ≡ []

  -- From `q` to `q'`, the thread's own item is left alone.
  abbrev pub Spared : Fifo A → Fifo A → Option ℕ → Type 0
  Spared q q' none = Unit {0}
  Spared q q' (some a) = (q'.cell a ≡ q.cell a) × (q'.head ≢ at a) × (a < q.fresh → a < q'.fresh)

  Private-Spared :
      (q q' : Fifo A) (a : ℕ) (v : A) → Spared q q' (some a) → Private q a v → Private q' a v
  Private-Spared q q' a v (same, apart, older) p = record {
    item = p.item;
    live = same ∙ p.live;
    value = p.value;
    old = older p.old;
    apart = apart;
  }

  Taken-Spared :
      (q q' : Fifo A) (p : Pointer) (rs : List (Done A))
      → Spared q q' (address p)
      → Taken q p rs
      → Taken q' p rs
  Taken-Spared q q' null rs h t = t
  Taken-Spared q q' (at a) rs h (v, p, e) = (v, Private-Spared q q' a v h p, e)
  Taken-Spared q q' junk rs h t = t

  pub Local-Spared :
      (q q' : Fifo A) (p : Phase A) (rs : List (Done A))
      → Spared q q' (own p)
      → Local q p rs
      → Local q' p rs
  Local-Spared q q' (made a v) rs h (p, e) = (Private-Spared q q' a v h p, e)
  Local-Spared q q' (linking a v) rs h (p, e) = (Private-Spared q q' a v h p, e)
  Local-Spared q q' (unlinked p) rs h t = Taken-Spared q q' p rs h t
  Local-Spared q q' (takes p) rs h t = Taken-Spared q q' p rs h t
  Local-Spared q q' idle rs h e = e
  Local-Spared q q' (linked v) rs h e = e
  Local-Spared q q' (announces v) rs h e = e
  Local-Spared q q' (signalling v) rs h e = e
  Local-Spared q q' waits rs h e = e
  Local-Spared q q' dozing rs h e = e
  Local-Spared q q' asleep rs h e = e
  Local-Spared q q' woken rs h e = e
  Local-Spared q q' looks rs h e = e
  Local-Spared q q' unlinking rs h e = e
  Local-Spared q q' (interrupted p) rs h e = Local-Spared q q' p rs h e
  Local-Spared q q' (rotating p) rs h e = Local-Spared q q' p rs h e

-- The calls of a slot with its answers, one by one: the value that a push stores is the one that it was
-- passed.
module _ {A : Type 0} (ndebug : Bool) where
  pub data Answers : Option A → List (ℕ × Done A) → Type 0 where
    nothing : Answers none []
    refused :
        {s : Option A} {rs : List (ℕ × Done A)} (i : ℕ) (o : Option A)
        → Answers s rs
        → Answers s (rs ++ (i, (pushes o, answered pdns_no)) ∷ [])
    pushed :
        {s s' : Option A} {rs : List (ℕ × Done A)} (i : ℕ) (v : A) {st : Status}
        → Answers s rs
        → Slot.push ndebug true (some v) s ≡ ok (st, s')
        → Answers s' (rs ++ (i, (pushes (some v), answered st)) ∷ [])
    taken :
        {s : Option A} {rs : List (ℕ × Done A)} (i : ℕ)
        → Answers s rs
        → Answers (Slot.pop s).1 (rs ++ (i, (pops, popped (Slot.pop s).0)) ∷ [])
