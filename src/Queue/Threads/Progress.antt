-- ===== src/Queue/Threads/Progress.antt =====
-- No thread of src/pdns-logger-queue.c is stuck: it can go on itself, or the one that has its mutex
-- can.
use mathlib.Core.Path.{subst}
use pdns_logger.Base.{
  ap, ℕ, true, List, Option, none, some, ◌≡◌, ◌⊎◌, inl, inr, refl, sym, ◌∙◌, arith, ok,
  Option-cases,
}
use pdns_logger.Queue.{Pointer, at, Fifo, link}
use pdns_logger.Queue.Refine.{Holds}
use pdns_logger.Queue.Threads.{
  Done, has_lock, Continues, interrupted, Phase, idle, made, linking, linked, announces, signalling,
  waits, dozing, asleep, woken, looks, unlinking, unlinked, takes, rotating, State, Step,
}
use pdns_logger.Queue.Threads.Local.{has_sync, is_owner, Local}
use pdns_logger.Queue.Threads.Shared
use pdns_logger.Queue.Threads.Invariant.{Inv}

-- Without its assertion, `fifo_push` gets through.
link-ok :
    {A : Type 0} (q : Fifo A) (p : Pointer) (v : A) {s : Option A}
    → Holds q s
    → (q' : Fifo A) × (link true p v q ≡ ok q')
link-ok q p v (Holds.vacant h t) = (record q { head = p; tail = p }, ground arith)
link-ok q p v (Holds.taken a item h t c e n) = (q, ground arith)

is_owner-eq : (o : Option ℕ) (k j : ℕ) → o ≡ some j → is_owner o k ≡ true → k ≡ j
is_owner-eq none k j x h = absurd (cc)
is_owner-eq (some m) k j x h = ground arith

-- A thread of a release build that has a step to make in its call or its handler.
pub record Goes {A : Type 0} (s : State A) (k : ℕ) : Type 0 where
  pub next : State A
  pub step : Step true k s next
  pub begun : Continues step

-- For thread `i`, another one may have to go on first.
pub record Served {A : Type 0} (s : State A) (i : ℕ) : Type 0 where
  pub first : ℕ
  pub goes : Goes s first
  pub itself_or_owner : (first ≡ i) ⊎ ((s.lock ≡ some first) ⊎ (s.sync ≡ some first))

module _ {A : Type 0} (s : State A) {slot : Option A} {rs : List (ℕ × Done A)}
    (inv : Inv true s slot rs) where
  by : {i : ℕ} {t : State A} (step : Step true i s t) → Continues step → Goes s i
  by {t = t} step on = record { next = t; step = step; begun = on }

  itself : {i : ℕ} → Goes s i → Served s i
  itself {i} g = record { first = i; goes = g; itself_or_owner = inl refl }

  -- A thread that has `lock` does not wait.
  lock_owner : (k : ℕ) (p : Phase A) → s.phase k ≡ p → has_lock p ≡ true → Goes s k
  lock_owner k idle e h = absurd (cc)
  lock_owner k (linked v) e h = by (Step.unlocks_push e) tt
  lock_owner k (announces v) e h = absurd (cc)
  lock_owner k (signalling v) e h = absurd (cc)
  lock_owner k waits e h = absurd (cc)
  lock_owner k dozing e h = absurd (cc)
  lock_owner k asleep e h = absurd (cc)
  lock_owner k woken e h = absurd (cc)
  lock_owner k looks e h = absurd (cc)
  lock_owner k unlinking e h =
      let u = Shared.unlink-Holds s.queue inv.holds in by (Step.unlinks e u.2) tt
  lock_owner k (made a v) e h = absurd (cc)
  lock_owner k (linking a v) e h =
      let l = link-ok s.queue (at a) v inv.holds in by (Step.links e l.1) tt
  lock_owner k (unlinked p) e h = by (Step.unlocks_pop e) tt
  lock_owner k (takes p) e h = absurd (cc)
  lock_owner k (interrupted p) e h = elim (Option-cases s.lock) [
    | inl none_has ↦ by (Step.locks e (inl none_has)) tt
    | inr (j, x) ↦
        let own : k ≡ j = is_owner-eq s.lock k j x (sym (inv.locked k) ∙ ap has_lock e ∙ h) in
        by (Step.locks e (inr (x ∙ ap some (sym own)))) tt
  ]
  lock_owner k (rotating p) e h = by (Step.unlocks e) tt

  awaits_lock : (i : ℕ) → (s.lock ≡ none → Goes s i) → Served s i
  awaits_lock i f = elim (Option-cases s.lock) [
    | inl x ↦ itself (f x)
    | inr (k, x) ↦
        let h : has_lock (s.phase k) ≡ true = ground (arith, inv.locked k) in
        record { first = k; goes = lock_owner k (s.phase k) refl h; itself_or_owner = inr (inl x) }
  ]

  -- A thread that has `sync_mutex` waits in a handler only.
  sync_owner : (k : ℕ) (p : Phase A) → s.phase k ≡ p → has_sync p ≡ true → Served s k
  sync_owner k idle e h = absurd (cc)
  sync_owner k (linked v) e h = absurd (cc)
  sync_owner k (announces v) e h = absurd (cc)
  sync_owner k (signalling v) e h = itself (by (Step.signals e) tt)
  sync_owner k waits e h = absurd (cc)
  sync_owner k dozing e h = itself (by (Step.sleeps e) tt)
  sync_owner k asleep e h = absurd (cc)
  sync_owner k woken e h = itself (by (Step.unlocks_wait e) tt)
  sync_owner k looks e h = absurd (cc)
  sync_owner k unlinking e h = absurd (cc)
  sync_owner k (made a v) e h = absurd (cc)
  sync_owner k (linking a v) e h = absurd (cc)
  sync_owner k (unlinked p) e h = absurd (cc)
  sync_owner k (takes p) e h = absurd (cc)
  sync_owner k (interrupted p) e h = awaits_lock k (λ x. by (Step.locks e (inl x)) tt)
  sync_owner k (rotating p) e h = itself (by (Step.unlocks e) tt)

  for_owner : (i k : ℕ) → s.sync ≡ some k → Served s k → Served s i
  for_owner i k x served = record {
    first = served.first;
    goes = served.goes;
    itself_or_owner = inr (elim served.itself_or_owner [
      | inl same ↦ inr (x ∙ ap some (sym same))
      | inr owner ↦ owner
    ]);
  }

  awaits_sync : (i : ℕ) → (s.sync ≡ none → Goes s i) → Served s i
  awaits_sync i f = elim (Option-cases s.sync) [
    | inl x ↦ itself (f x)
    | inr (k, x) ↦
        let h : has_sync (s.phase k) ≡ true = ground (arith, inv.synced k) in
        for_owner i k x (sync_owner k (s.phase k) refl h)
  ]

  takes_step : (i : ℕ) (p : Pointer) → s.phase i ≡ takes p → Goes s i
  takes_step i p e =
      let d = inv.locals i in
      let w =
        Shared.take-Holds s.queue p d.due inv.holds
          (subst (λ x. Local s.queue x d.due) e d.sound) in
      by (Step.takes_out e w.2) tt

  -- Every thread that is in a call or a handler.
  pub Inv-Served : (i : ℕ) (p : Phase A) → s.phase i ≡ p → (s.phase i ≡ idle) ⊎ Served s i
  Inv-Served i idle e = inl e
  Inv-Served i (linked v) e = inr (itself (lock_owner i (linked _) e refl))
  Inv-Served i (announces v) e = inr (awaits_sync i (λ x. by (Step.locks_signal e x) tt))
  Inv-Served i (signalling v) e = inr (sync_owner i (signalling _) e refl)
  Inv-Served i waits e = inr (awaits_sync i (λ x. by (Step.locks_wait e x) tt))
  Inv-Served i dozing e = inr (sync_owner i dozing e refl)
  Inv-Served i asleep e = inr (awaits_sync i (λ x. by (Step.wakes e x) tt))
  Inv-Served i woken e = inr (sync_owner i woken e refl)
  Inv-Served i looks e = inr (awaits_lock i (λ x. by (Step.locks_pop e x) tt))
  Inv-Served i unlinking e = inr (itself (lock_owner i unlinking e refl))
  Inv-Served i (made a v) e = inr (awaits_lock i (λ x. by (Step.locks_push e x) tt))
  Inv-Served i (linking a v) e = inr (itself (lock_owner i (linking a v) e refl))
  Inv-Served i (unlinked p) e = inr (itself (lock_owner i (unlinked p) e refl))
  Inv-Served i (takes p) e = inr (itself (takes_step i p e))
  Inv-Served i (interrupted p) e = inr (awaits_lock i (λ x. by (Step.locks e (inl x)) tt))
  Inv-Served i (rotating p) e = inr (itself (lock_owner i (rotating p) e refl))
