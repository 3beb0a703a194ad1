-- ===== src/Queue/Threads/Invariant.antt =====
-- The threads at the queue of src/pdns-logger-queue.c together: each mutex has the one owner that
-- the threads' positions tell, and no two threads have one item for their own.
use native.Mathlib.Decide.{ℕ_discrete}
use mathlib.Core.Path.{subst}
use pdns_logger.Base.{
  goto, goto_here, goto_other, of_thread, if◌then◌else◌, ℕ, Bool, true, false, List, ◌++◌, Option,
  none, some, ◌≡◌, ◌≢◌, ◌⊎◌, inl, inr, sym, ap, ◌∙◌, arith,
}
use pdns_logger.Queue.{Fifo}
use pdns_logger.Queue.Refine.{Holds}
use pdns_logger.Queue.Threads.{Done, has_lock, Phase, State}
use pdns_logger.Queue.Threads.Local.{has_sync, is_owner, own, Spared, Local, Local-Spared, Answers}

module _ {A : Type 0} where
  -- The threads at a position with `has` are the owner of the mutex.
  abbrev pub Owns : (Phase A → Bool) → Option ℕ → (ℕ → Phase A) → Type 0
  Owns has owner phase = (j : ℕ) → has (phase j) ≡ is_owner owner j

  module _ (has : Phase A → Bool) (phase : ℕ → Phase A) (i : ℕ) (p₀ p : Phase A) where
    pub Owns-keeps :
        (owner : Option ℕ)
        → phase i ≡ p₀
        → Owns has owner phase
        → has p ≡ has p₀
        → Owns has owner (goto i p phase)
    Owns-keeps owner x h e j = ground (arith, h j, h i)

    pub Owns-gets :
        {owner : Option ℕ}
        → owner ≡ none
        → Owns has owner phase
        → has p ≡ true
        → Owns has (some i) (goto i p phase)
    Owns-gets {owner} n h e j = ground (arith, h j)

    pub Owns-gives :
        (owner : Option ℕ)
        → phase i ≡ p₀
        → Owns has owner phase
        → has p₀ ≡ true
        → has p ≡ false
        → Owns has none (goto i p phase)
    Owns-gives none x h e f j = ground (arith, h j, h i)
    Owns-gives (some k) x h e f j = ground (arith, h j, h i)

  -- A recursive mutex: its owner may get it again, and keeps it if it had it before.
  pub Owns-again :
      (has : Phase A → Bool) (phase : ℕ → Phase A) (i : ℕ) (p : Phase A) {owner : Option ℕ}
      → (owner ≡ none) ⊎ (owner ≡ some i)
      → Owns has owner phase
      → has p ≡ true
      → Owns has (some i) (goto i p phase)
  Owns-again has phase i p (inl n) h e j = ground (arith, h j)
  Owns-again has phase i p (inr o) h e j = ground (arith, h j)

  pub Owns-back :
      (has : Phase A → Bool) (phase : ℕ → Phase A) (i : ℕ) (p₀ p : Phase A) (owner : Option ℕ)
      → phase i ≡ p₀
      → Owns has owner phase
      → has p₀ ≡ true
      → Owns has (if has p then some i else none) (goto i p phase)
  Owns-back has phase i p₀ p none x h e j = ground (arith, h i, h j)
  Owns-back has phase i p₀ p (some k) x h e j = ground (arith, h i, h j)

  -- Where thread `i` is between the answers `rs` and what it has returned.
  pub record Due (i : ℕ) (q : Fifo A) (p : Phase A) (rs returns : List (ℕ × Done A)) : Type 0 where
    pub due : List (Done A)
    pub sound : Local q p due
    pub told : of_thread i rs ≡ of_thread i returns ++ due

  pub record Inv (ndebug : Bool) (s : State A) (slot : Option A) (rs : List (ℕ × Done A))
      : Type 0 where
    pub answers : Answers ndebug slot rs
    pub holds : Holds s.queue slot
    pub locals : (j : ℕ) → Due j s.queue (s.phase j) rs s.returns
    pub apart : (j k a : ℕ) → own (s.phase j) ≡ some a → own (s.phase k) ≡ some a → j ≡ k
    pub locked : Owns has_lock s.lock s.phase
    pub synced : Owns has_sync s.sync s.phase

  Due-Spared :
      {j : ℕ} {q q' : Fifo A} {p : Phase A} {rs rs' returns returns' : List (ℕ × Done A)}
      → Spared q q' (own p)
      → of_thread j rs' ≡ of_thread j rs
      → of_thread j returns' ≡ of_thread j returns
      → Due j q p rs returns
      → Due j q' p rs' returns'
  Due-Spared {q} {q'} {p} h e f d = record {
    due = d.due;
    sound = Local-Spared q q' p d.due h d.sound;
    told = e ∙ d.told ∙ ap (λ l. l ++ d.due) (sym f);
  }

  pub Due-goto :
      {i : ℕ} {q q' : Fifo A} {phase : ℕ → Phase A} {p : Phase A}
      {rs rs' returns returns' : List (ℕ × Done A)}
      → Due i q' p rs' returns'
      → ((j : ℕ)
          → j ≢ i
          → Spared q q' (own (phase j))
            × (of_thread j rs' ≡ of_thread j rs)
            × (of_thread j returns' ≡ of_thread j returns))
      → ((j : ℕ) → Due j q (phase j) rs returns)
      → (j : ℕ) → Due j q' (goto i p phase j) rs' returns'
  Due-goto {i} {q} {q'} {phase} {p} {rs} {rs'} {returns} {returns'} d others h j =
      elim (ℕ_discrete j i) [
        | yes e ↦
            subst (λ k. Due k q' (goto i p phase k) rs' returns') (sym e)
              (rw (goto_here i p phase) d)
        | no n ↦ rw (goto_other i p phase j n) (let o = others j n in Due-Spared o.0 o.1 o.2 (h j))
      ]

  pub apart-goto :
      (phase : ℕ → Phase A) (i : ℕ) (p : Phase A)
      → ((j a : ℕ) → j ≢ i → own (phase j) ≡ some a → own p ≢ some a)
      → ((j k a : ℕ) → own (phase j) ≡ some a → own (phase k) ≡ some a → j ≡ k)
      → (j k a : ℕ) → own (goto i p phase j) ≡ some a
      → own (goto i p phase k) ≡ some a
      → j ≡ k
  apart-goto phase i p h e j k a x y = ground (arith, h j a, h k a, e j k a)
