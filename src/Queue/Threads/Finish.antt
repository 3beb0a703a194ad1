-- ===== src/Queue/Threads/Finish.antt =====
-- The calls of src/pdns-logger-queue.c come to their ends, in whatever order the threads go on.
use native.Mathlib.Decide.{ℕ_discrete, dec_lt}
use pdns_logger.Base.{
  ◌⊎◌, goto, ℕ, zero, suc, ◌+◌, ◌≤◌, ◌<◌, Bool, true, ◌≡◌, ◌≢◌, refl, sym, ap, ◌∙◌, arith,
}
use pdns_logger.Queue.Threads.{
  Continues, interrupted, Phase, idle, made, linking, linked, announces, signalling, waits, dozing,
  asleep, woken, looks, unlinking, unlinked, takes, rotating, State, Step, Run, later, initial,
}
use pdns_logger.Queue.Threads.Outcome.{Run-Inv}
use pdns_logger.Queue.Threads.Progress.{Served, Inv-Served}

module _ {A : Type 0} where
  -- How many steps a thread has before it.
  abbrev pub rank : Phase A → ℕ
  rank idle = 0
  rank (made a v) = 5
  rank (linking a v) = 4
  rank (linked v) = 3
  rank (announces v) = 2
  rank (signalling v) = 1
  rank waits = 8
  rank dozing = 7
  rank asleep = 6
  rank woken = 5
  rank looks = 4
  rank unlinking = 3
  rank (unlinked p) = 2
  rank (takes p) = 1
  rank (interrupted p) = suc (suc (rank p))
  rank (rotating p) = suc (rank p)

  -- Those of the threads below `n` together.
  abbrev pub work : ℕ → (ℕ → Phase A) → ℕ
  work zero phase = 0
  work (suc n) phase = rank (phase n) + work n phase

  -- `k` steps in which no call begins, and no handler.
  pub data Finish (ndebug : Bool) (s : State A) : ℕ → State A → Type 0 where
    done : Finish ndebug s 0 s
    onward :
        {k i : ℕ} {t u : State A}
        → Finish ndebug s k t
        → (step : Step ndebug i t u) → Continues step
        → Finish ndebug s (suc k) u

  work-beyond :
      (n i : ℕ) (p : Phase A) (phase : ℕ → Phase A) → n ≤ i → work n (goto i p phase) ≡ work n phase
  work-beyond zero i p phase h = refl
  work-beyond (suc n) i p phase h =
      let ih = work-beyond n i p phase (omega arith) in ground (arith, ih)

  work-goto :
      (n i : ℕ) (p : Phase A) (phase : ℕ → Phase A)
      → i < n
      → work n (goto i p phase) + rank (phase i) ≡ work n phase + rank p
  work-goto zero i p phase h = absurd (omega arith)
  work-goto (suc n) i p phase h = elim (ℕ_discrete i n) [
    | yes e ↦
        let b = work-beyond n i p phase (omega arith) in
        let here : goto i p phase n ≡ p = ground arith in
        omega (arith, ap rank here, ap (λ m. rank (phase m)) e, b)
    | no x ↦
        let ih = work-goto n i p phase (omega arith) in
        let other : goto i p phase n ≡ phase n = ground arith in omega (arith, ap rank other, ih)
  ]

  -- A step in a call leaves one less.
  Step-goto :
      {ndebug : Bool} {i : ℕ} (s : State A) {t : State A}
      → (step : Step ndebug i s t) → Continues step
      → (p : Phase A) × (t.phase ≡ goto i p s.phase) × (suc (rank p) ≡ rank (s.phase i))
  Step-goto s (Step.refuses o e) called = absurd called
  Step-goto s (Step.makes v e) called = absurd called
  Step-goto s (Step.locks_push {a} {v} e n) called = (linking a v, refl, sym (ap rank e))
  Step-goto s (Step.links {v} e l) called = (linked v, refl, sym (ap rank e))
  Step-goto s (Step.unlocks_push {v} e) called = (announces v, refl, sym (ap rank e))
  Step-goto s (Step.locks_signal {v} e n) called = (signalling v, refl, sym (ap rank e))
  Step-goto s (Step.signals e) called = (idle, refl, sym (ap rank e))
  Step-goto s (Step.calls_pop e) called = absurd called
  Step-goto s (Step.locks_wait e n) called = (dozing, refl, sym (ap rank e))
  Step-goto s (Step.sleeps e) called = (asleep, refl, sym (ap rank e))
  Step-goto s (Step.wakes e n) called = (woken, refl, sym (ap rank e))
  Step-goto s (Step.unlocks_wait e) called = (looks, refl, sym (ap rank e))
  Step-goto s (Step.locks_pop e n) called = (unlinking, refl, sym (ap rank e))
  Step-goto s (Step.unlinks {p} e u) called = (unlinked p, refl, sym (ap rank e))
  Step-goto s (Step.unlocks_pop {p} e) called = (takes p, refl, sym (ap rank e))
  Step-goto s (Step.takes_out e u) called = (idle, refl, sym (ap rank e))
  Step-goto s (Step.interrupts e n) called = absurd called
  Step-goto s (Step.locks {p} e n) called = (rotating p, refl, sym (ap rank e))
  Step-goto s (Step.unlocks {p} e) called = (p, refl, sym (ap rank e))

  idle-Continues :
      {ndebug : Bool} {i : ℕ} {s t : State A} (step : Step ndebug i s t)
      → Continues step
      → s.phase i ≢ idle
  idle-Continues {s = s} step called e =
      let g = Step-goto s step called in absurd (omega (arith, g.2, ap rank e))

  Finish-work :
      {ndebug : Bool} (n : ℕ) {s : State A} {k : ℕ} {t : State A}
      → Finish ndebug s k t
      → ((i : ℕ) → n ≤ i → s.phase i ≡ idle)
      → (k + work n t.phase ≡ work n s.phase) × ((i : ℕ) → n ≤ i → t.phase i ≡ idle)
  Finish-work n done h = (omega arith, h)
  Finish-work n (onward {k} {i} {t} {u} f step called) h =
      let ih = Finish-work n f h in
      let g = Step-goto t step called in
      let i_lt : i < n = elim (dec_lt i n) [
        | yes x ↦ x
        | no x ↦ absurd (idle-Continues step called (ih.1 i (omega arith)))
      ] in
      let w = work-goto n i g.0 t.phase i_lt in
      (
        omega (arith, ih.0, w, ap (work n) g.1, g.2),
        λ j x. ap (λ phase. phase j) g.1 ∙ ground (arith, ih.1 j x),
      )

  Finish-Run :
      {ndebug : Bool} {r s : State A} {k : ℕ} {t : State A}
      → Run ndebug r s
      → Finish ndebug s k t
      → Run ndebug r t
  Finish-Run r done = r
  Finish-Run r (onward f step called) = later (Finish-Run r f) step

module _ {A : Type 0} (s : State A) (behind : Run true initial s) where
  -- In a release build, with the threads from `n` on in no call and no handler: whatever order the
  -- others go on in while no call begins and no SIGHUP arrives, each step leaves one less of the
  -- steps that the calls and handlers have before them. Until they have all returned, some thread
  -- can go on: for each thread in a call or a handler itself, or one that has a mutex. So no order
  -- of steps gets stuck or goes on for ever, whether anything is signalled or not, and wherever
  -- SIGHUP has come.
  pub threads_end :
      (n : ℕ)
      → ((i : ℕ) → n ≤ i → s.phase i ≡ idle)
      → (k : ℕ) (t : State A) → Finish true s k t
      → (k + work n t.phase ≡ work n s.phase) × ((i : ℕ) → (t.phase i ≡ idle) ⊎ Served t i)
  threads_end n h k t f =
      let (slot, rs, inv) = Run-Inv (Finish-Run behind f) in
      ((Finish-work n f h).0, λ i. Inv-Served t inv i (t.phase i) refl)
