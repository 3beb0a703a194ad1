-- ===== src/Queue/Threads/Shared.antt =====
-- What a step in the lock of src/pdns-logger-queue.c does to the slot, to the thread's own item and
-- to those of the others.
use mathlib.Core.Path.{subst}
use pdns_logger.Base.{
  ℕ, Bool, true, false, List, [], ◌∷◌, Option, none, some, ◌≡◌, ◌≢◌, refl, arith, ok, Option-cases,
  inl, inr,
}
use pdns_logger.Queue.{Pointer, null, junk, at, Fifo, allocate, release, link, unlink, take_item}
use pdns_logger.Queue.Slot
use pdns_logger.Queue.Refine.{popped, Holds}
use pdns_logger.Queue.Threads.{
  Done, pops, Phase, idle, made, linking, linked, announces, signalling, waits, dozing, asleep,
  woken, looks, unlinking, unlinked, takes, interrupted, rotating,
}
use pdns_logger.Queue.Threads.Local.{own, Spared, Private, Taken, address, Local}
use pdns_logger.Status.{pdns_ok}

module _ {A : Type 0} where
  Taken-Private :
      (q : Fifo A) (p : Pointer) (rs : List (Done A)) {a : ℕ}
      → Taken q p rs
      → address p ≡ some a
      → (v : A) × Private q a v
  Taken-Private q null rs t e = absurd (cc)
  Taken-Private q (at b) rs {a} (v, p, x) e =
      (v, let y : b ≡ a = ground arith in subst (λ c. Private q c v) y p)
  Taken-Private q junk rs t e = absurd t

  pub Local-Private :
      (q : Fifo A) (p : Phase A) (rs : List (Done A)) {a : ℕ}
      → Local q p rs
      → own p ≡ some a
      → (v : A) × Private q a v
  Local-Private q (made b v) rs {a} (p, x) e =
      (v, let y : b ≡ a = ground arith in subst (λ c. Private q c v) y p)
  Local-Private q (linking b v) rs {a} (p, x) e =
      (v, let y : b ≡ a = ground arith in subst (λ c. Private q c v) y p)
  Local-Private q (unlinked p) rs t e = Taken-Private q p rs t e
  Local-Private q (takes p) rs t e = Taken-Private q p rs t e
  Local-Private q idle rs t e = absurd (cc)
  Local-Private q (linked v) rs t e = absurd (cc)
  Local-Private q (announces v) rs t e = absurd (cc)
  Local-Private q (signalling v) rs t e = absurd (cc)
  Local-Private q waits rs t e = absurd (cc)
  Local-Private q dozing rs t e = absurd (cc)
  Local-Private q asleep rs t e = absurd (cc)
  Local-Private q woken rs t e = absurd (cc)
  Local-Private q looks rs t e = absurd (cc)
  Local-Private q unlinking rs t e = absurd (cc)
  Local-Private q (interrupted p) rs t e = Local-Private q p rs t e
  Local-Private q (rotating p) rs t e = Local-Private q p rs t e

  -- It is enough that a step spares each item that is a thread's own.
  pub Spared-own :
      (q q' : Fifo A) (p : Phase A) (rs : List (Done A))
      → Local q p rs
      → ((a : ℕ) (v : A) → own p ≡ some a → Private q a v → Spared q q' (some a))
      → Spared q q' (own p)
  Spared-own q q' p rs l h = elim (Option-cases (own p)) [
    | inl e ↦ rw e tt
    | inr (a, e) ↦ let r = Local-Private q p rs l e in rw e (h a r.0 e r.1)
  ]

  -- A new item is apart from those that are there.
  pub allocate-Holds : (v : A) (q : Fifo A) {s : Option A} → Holds q s → Holds (allocate v q) s
  allocate-Holds v q (Holds.vacant h t) = Holds.vacant h t
  allocate-Holds v q (Holds.taken a item h t c e n) =
      Holds.taken a item h t (ground arith) e (omega arith)

  pub allocate-Private :
      (v : A) (q : Fifo A) {s : Option A} → Holds q s → Private (allocate v q) q.fresh v
  allocate-Private v q (Holds.vacant h t) = record {
    item = record { value = v; next = junk };
    live = ground arith;
    value = refl;
    old = omega arith;
    apart = ground arith;
  }
  allocate-Private v q (Holds.taken a item h t c e n) = record {
    item = record { value = v; next = junk };
    live = ground arith;
    value = refl;
    old = omega arith;
    apart = ground arith;
  }

  pub allocate-Spared :
      (v w : A) (q : Fifo A) (a : ℕ) → Private q a w → Spared q (allocate v q) (some a)
  allocate-Spared v w q a p =
      let o = p.old in let n = p.apart in (ground arith, n, λ h. omega arith)

  -- In the lock, with an item of one's own.
  pub link-Holds :
      (ndebug : Bool) (a : ℕ) (v : A) (q q' : Fifo A) {s : Option A}
      → Private q a v
      → Holds q s
      → link ndebug (at a) v q ≡ ok q'
      → (s' : Option A) × Holds q' s'
        × (Slot.push ndebug true (some v) s ≡ ok (pdns_ok, s'))
        × ((b : ℕ) (w : A) → b ≢ a → Private q b w → Spared q q' (some b))
  unfolding Slot.push
  link-Holds nd a v q q' p (Holds.vacant h t) e =
      let x : q' ≡ record q { head = at a; tail = at a } = ground arith in
      (
        some v,
        rw x (Holds.taken a p.item refl refl p.live p.value p.old),
        refl,
        λ b w n r. rw x (refl, ground arith, λ k. k),
      )
  link-Holds true a v q q' p (Holds.taken {v = w} b item h t c d n) e =
      let x : q' ≡ q = ground arith in
      (some w, rw x (Holds.taken b item h t c d n), refl, λ y z m r. rw x (refl, r.apart, λ k. k))
  link-Holds false a v q q' p (Holds.taken b item h t c d n) e = absurd (ground arith)

  pub unlink-Holds :
      (q : Fifo A) {s : Option A}
      → Holds q s
      → (p : Pointer) × (q' : Fifo A) × (unlink q ≡ ok (p, q'))
        × Holds q' (Slot.pop s).1
        × Taken q' p ((pops, popped (Slot.pop s).0) ∷ [])
        × ((b : ℕ) (w : A) → Private q b w → Spared q q' (some b) × (address p ≢ some b))
  unfolding Slot.pop
  unlink-Holds q (Holds.vacant h t) = (
    null,
    q,
    ground arith,
    Holds.vacant h t,
    refl,
    λ b w r. ((refl, r.apart, λ k. k), ground arith),
  )
  unlink-Holds q (Holds.taken {v} a item h t c e n) = (
    at a,
    record q { head = null; tail = null },
    ground arith,
    Holds.vacant refl refl,
    (v, record { item = item; live = c; value = e; old = n; apart = ground arith }, refl),
    λ b w r. let x = r.apart in ((refl, ground arith, λ k. k), ground arith),
  )

  freed-Holds :
      (q : Fifo A) (a : ℕ) {s : Option A}
      → Holds q s
      → q.head ≢ at a
      → Holds (record q { cell = release q.cell (at a) }) s
  freed-Holds q a (Holds.vacant h t) x = Holds.vacant h t
  freed-Holds q a (Holds.taken b item h t c e n) x = Holds.taken b item h t (ground arith) e n

  pub take-Holds :
      (q : Fifo A) (p : Pointer) (rs : List (Done A)) {s : Option A}
      → Holds q s
      → Taken q p rs
      → (o : Option A) × (q' : Fifo A) × (take_item p q ≡ ok (o, q'))
        × Holds q' s
        × (rs ≡ (pops, popped o) ∷ [])
        × ((b : ℕ) (w : A) → address p ≢ some b → Private q b w → Spared q q' (some b))
  take-Holds q null rs h t = (none, q, refl, h, t, λ b w n r. (refl, r.apart, λ k. k))
  take-Holds q (at a) rs h (v, p, e) =
      let live = p.live in
      let val = p.value in
      (
        some v,
        record q { cell = release q.cell (at a) },
        ground arith,
        freed-Holds q a h p.apart,
        e,
        λ b w n r. (ground arith, r.apart, λ k. k),
      )
  take-Holds q junk rs h t = absurd t
