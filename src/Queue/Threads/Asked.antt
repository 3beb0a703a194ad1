-- ===== src/Queue/Threads/Asked.antt =====
-- The calls that a thread of src/pdns-logger-queue.c has made, against those that have returned: but
-- for the running one they are the same, in their order, each with the value that it was passed.
use native.Mathlib.Decide.{ℕ_discrete}
use mathlib.Core.Path.{subst}
use pdns_logger.Base.{
  goto, goto_here, goto_other, of_thread, of_thread-own, of_thread-other, ℕ, Bool, List, [], ◌∷◌,
  Option, ◌++◌, some, ◌≡◌, ◌≢◌, ◌⊎◌, inl, inr, refl, sym, ap, ◌∙◌, append-nil,
}
use pdns_logger.Queue.{Pointer, null, junk, at, Fifo}
use pdns_logger.Queue.Refine.{answered}
use pdns_logger.Queue.Threads.{
  Call, Done, pushes, pops, Phase, idle, made, linking, linked, announces, signalling, waits,
  dozing, asleep, woken, looks, unlinking, unlinked, takes, interrupted, rotating, State, Step, Run,
  still, later, initial,
}
use pdns_logger.Queue.Threads.Local.{Taken, Local}
use pdns_logger.Status.{pdns_no}

module _ {A : Type 0} where
  -- Of calls with their answers, the calls.
  abbrev pub called : List (Done A) → List (Call A)
  called [] = []
  called ((c, r) ∷ ds) = c ∷ called ds

  -- The call that a thread is in.
  abbrev pub running : Phase A → List (Call A)
  running idle = []
  running (made a v) = pushes (some v) ∷ []
  running (linking a v) = pushes (some v) ∷ []
  running (linked v) = pushes (some v) ∷ []
  running (announces v) = pushes (some v) ∷ []
  running (signalling v) = pushes (some v) ∷ []
  running (interrupted p) = running p
  running (rotating p) = running p
  running _ = pops ∷ []

  called-append : (ds es : List (Done A)) → called (ds ++ es) ≡ called ds ++ called es
  called-append [] es = refl
  called-append ((c, r) ∷ ds) es = ap (λ l. c ∷ l) (called-append ds es)

  -- Each call of thread `i` has returned, or is the running one.
  abbrev pub Asked : State A → Type 0
  Asked s = (i : ℕ) → of_thread i s.calls ≡ called (of_thread i s.returns) ++ running (s.phase i)

  module _ (s : State A) (i : ℕ) (p₀ p : Phase A) (e : s.phase i ≡ p₀) (asked : Asked s) where
    Asked-others :
        (calls : List (ℕ × Call A)) (returns : List (ℕ × Done A))
        → of_thread i calls ≡ called (of_thread i returns) ++ running p
        → ((j : ℕ)
            → j ≢ i
            → (of_thread j calls ≡ of_thread j s.calls)
              × (of_thread j returns ≡ of_thread j s.returns))
        → (j : ℕ) → of_thread j calls ≡ called (of_thread j returns) ++ running (goto i p s.phase j)
    Asked-others calls returns h others j = elim (ℕ_discrete j i) [
      | yes x ↦
          subst
            (λ k. of_thread k calls ≡ called (of_thread k returns) ++ running (goto i p s.phase k))
            (sym x) (rw (goto_here i p s.phase) h)
      | no n ↦ rw (goto_other i p s.phase j n) (
          let o = others j n in o.0 ∙ asked j ∙ ap (λ l. called l ++ running (s.phase j)) (sym o.1))
    ]

    -- It stays in its call.
    Asked-stays :
        running p ≡ running p₀
        → (j : ℕ)
        → of_thread j s.calls ≡ called (of_thread j s.returns) ++ running (goto i p s.phase j)
    Asked-stays x =
        Asked-others s.calls s.returns
          (asked i ∙ ap (λ l. called (of_thread i s.returns) ++ l) (ap running e ∙ sym x))
          (λ j n. (refl, refl))

    -- A call begins.
    Asked-begins :
        (c : Call A)
        → running p₀ ≡ []
        → running p ≡ c ∷ []
        → (j : ℕ)
        → of_thread j (s.calls ++ (i, c) ∷ [])
          ≡ called (of_thread j s.returns) ++ running (goto i p s.phase j)
    Asked-begins c x y =
        Asked-others _ s.returns
          (of_thread-own i s.calls c
            ∙ ap (λ l. l ++ c ∷ [])
                (asked i
                  ∙ ap (λ l. called (of_thread i s.returns) ++ l) (ap running e ∙ x)
                  ∙ append-nil _)
            ∙ ap (λ l. called (of_thread i s.returns) ++ l) (sym y))
          (λ j n. (of_thread-other i j s.calls c n, refl))

    -- The call returns.
    Asked-returns :
        (d : Done A)
        → running p₀ ≡ called (d ∷ [])
        → running p ≡ []
        → (j : ℕ)
        → of_thread j s.calls
          ≡ called (of_thread j (s.returns ++ (i, d) ∷ [])) ++ running (goto i p s.phase j)
    Asked-returns d x y =
        Asked-others s.calls _
          (asked i
            ∙ ap (λ l. called (of_thread i s.returns) ++ l) (ap running e ∙ x)
            ∙ sym (called-append (of_thread i s.returns) (d ∷ []))
            ∙ ap called (sym (of_thread-own i s.returns d))
            ∙ sym (append-nil _)
            ∙ ap (λ l. called (of_thread i (s.returns ++ (i, d) ∷ [])) ++ l) (sym y))
          (λ j n. (refl, of_thread-other i j s.returns d n))

  -- The call returns as soon as it has begun.
  Asked-at_once :
      (s : State A) (i : ℕ) (o : Option A)
      → s.phase i ≡ idle
      → Asked s
      → of_thread i (s.calls ++ (i, pushes o) ∷ [])
        ≡ called (of_thread i (s.returns ++ (i, (pushes o, answered pdns_no)) ∷ [])) ++ []
  Asked-at_once s i o e h =
      of_thread-own i s.calls (pushes o)
      ∙ ap (λ l. l ++ pushes o ∷ [])
          (h i ∙ ap (λ l. called (of_thread i s.returns) ++ l) (ap running e) ∙ append-nil _)
      ∙ sym (called-append (of_thread i s.returns) ((pushes o, answered pdns_no) ∷ []))
      ∙ ap called (sym (of_thread-own i s.returns _))
      ∙ sym (append-nil _)

  Step-Asked :
      {ndebug : Bool} {i : ℕ} (s : State A) {t : State A} → Step ndebug i s t → Asked s → Asked t
  Step-Asked {i} s (Step.refuses o e) h =
      Asked-others s i idle idle e h _ _ (Asked-at_once s i o e h)
        (λ j n. (of_thread-other i j s.calls _ n, of_thread-other i j s.returns _ n))
  Step-Asked {i} s (Step.makes v e) h =
      Asked-begins s i idle (made s.queue.fresh v) e h (pushes (some v)) refl refl
  Step-Asked {i} s (Step.locks_push {a} {v} e n) h =
      Asked-stays s i (made a v) (linking a v) e h refl
  Step-Asked {i} s (Step.links {a} {v} e l) h = Asked-stays s i (linking a v) (linked v) e h refl
  Step-Asked {i} s (Step.unlocks_push {v} e) h = Asked-stays s i (linked v) (announces v) e h refl
  Step-Asked {i} s (Step.locks_signal {v} e n) h =
      Asked-stays s i (announces v) (signalling v) e h refl
  Step-Asked {i} s (Step.signals {v} e) h = Asked-returns s i (signalling v) idle e h _ refl refl
  Step-Asked {i} s (Step.calls_pop e) h = Asked-begins s i idle waits e h pops refl refl
  Step-Asked {i} s (Step.locks_wait e n) h = Asked-stays s i waits dozing e h refl
  Step-Asked {i} s (Step.sleeps e) h = Asked-stays s i dozing asleep e h refl
  Step-Asked {i} s (Step.wakes e n) h = Asked-stays s i asleep woken e h refl
  Step-Asked {i} s (Step.unlocks_wait e) h = Asked-stays s i woken looks e h refl
  Step-Asked {i} s (Step.locks_pop e n) h = Asked-stays s i looks unlinking e h refl
  Step-Asked {i} s (Step.unlinks {p} e u) h = Asked-stays s i unlinking (unlinked p) e h refl
  Step-Asked {i} s (Step.unlocks_pop {p} e) h = Asked-stays s i (unlinked p) (takes p) e h refl
  Step-Asked {i} s (Step.takes_out {p} e u) h = Asked-returns s i (takes p) idle e h _ refl refl
  Step-Asked {i} s (Step.interrupts {p} e n) h = Asked-stays s i p (interrupted p) e h refl
  Step-Asked {i} s (Step.locks {p} e n) h = Asked-stays s i (interrupted p) (rotating p) e h refl
  Step-Asked {i} s (Step.unlocks {p} e) h = Asked-stays s i (rotating p) p e h refl

  pub Run-Asked : {ndebug : Bool} {s : State A} → Run ndebug initial s → Asked s
  Run-Asked still i = refl
  Run-Asked (later {t} r step) i = Step-Asked t step (Run-Asked r) i

  Taken-running :
      (q : Fifo A) (p : Pointer) (rs : List (Done A)) → Taken {A = A} q p rs → called rs ≡ pops ∷ []
  Taken-running q null rs e = ap called e
  Taken-running q (at a) rs (v, p, e) = ap called e
  Taken-running q junk rs t = absurd t

  -- What a thread is to be told is the answer of the call that it is in.
  pub Local-running :
      (q : Fifo A) (p : Phase A) (rs : List (Done A))
      → Local q p rs
      → (rs ≡ []) ⊎ (called rs ≡ running p)
  Local-running q (made a v) rs (p, e) = inl e
  Local-running q (linking a v) rs (p, e) = inl e
  Local-running q (unlinked p) rs t = inr (Taken-running q p rs t)
  Local-running q (takes p) rs t = inr (Taken-running q p rs t)
  Local-running q idle rs e = inl e
  Local-running q (linked v) rs e = inr (ap called e)
  Local-running q (announces v) rs e = inr (ap called e)
  Local-running q (signalling v) rs e = inr (ap called e)
  Local-running q waits rs e = inl e
  Local-running q dozing rs e = inl e
  Local-running q asleep rs e = inl e
  Local-running q woken rs e = inl e
  Local-running q looks rs e = inl e
  Local-running q unlinking rs e = inl e
  Local-running q (interrupted p) rs t = Local-running q p rs t
  Local-running q (rotating p) rs t = Local-running q p rs t
