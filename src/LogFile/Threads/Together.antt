-- ===== src/LogFile/Threads/Together.antt =====
-- What several threads in logfile_log of src/pdns-logger-file.c come to, one alone, and one that a
-- SIGHUP takes the stream from.
use mathlib.Core.Path.{subst}
use native.Mathlib.Decide.{ℕ_discrete}
use pdns_logger.Base.{
  goto, goto_other, of_thread, ◌⊎◌, inl, inr, Bool, true, false, ℕ, List, [], ◌∷◌, ◌++◌, some, none,
  ◌≡◌, ◌≢◌, refl, sym, ap, ◌∙◌, arith, if◌then◌else◌, append-nil,
}
use pdns_logger.Line.Overflow.{message_lines}
use pdns_logger.Line.{Libc}
use pdns_logger.LogFile.Threads.{
  Phase, outside, before, tested, printed, State, quiet, moves, go_on, turn, hung_up, Step, logs,
  turns, hangs_up, Run, still, later,
}
use pdns_logger.LogFile.Threads.Lines.{
  texts, untagged, left, Inv, enters-Inv, go_on-Inv, hung_up-Inv,
}
use pdns_logger.LogFile.{wrote, flushed, Engine, emit, rotate}
use pdns_logger.Text.{Text}

module _ (c : Libc) (ndebug : Bool) where
  Step-Inv : {e : Engine} {s t : State} → Inv e s → Step c ndebug false s t → Inv e t
  Step-Inv {e} v (logs i msg r fits x) = enters-Inv e i (message_lines c msg r) v x
  Step-Inv {e} {s} {t} v (turns i h) = elim (go_on-Inv e i (s.phase i) v refl) [
    | inl x ↦ let gone : none ≡ some t = sym (ap (λ p. go_on i p s) x) ∙ h in absurd (cc)
    | inr (u, at, w) ↦ let same : u ≡ t = cc in subst (Inv e) same w
  ]
  Step-Inv {e} {s} v (hangs_up opens (inl x)) =
      subst (λ b. Inv e (hung_up b s)) (sym x) (hung_up-Inv e v)
  Step-Inv v (hangs_up opens (inr x)) = absurd (cc)

  Run-Inv : {e : Engine} {s t : State} → Inv e s → Run c ndebug false s t → Inv e t
  Run-Inv v still = v
  Run-Inv v (later r step) = Step-Inv (Run-Inv v r) step

  -- Into an open file, while every freopen succeeds, for any number of threads with messages that
  -- are to be logged and whose text fits a line, with SIGHUPs in between and in any order of all
  -- these steps: behind the lines that were in the file stand lines of the threads in an order in
  -- which those of each thread are the lines of its messages so far, in order and each once, but
  -- for the rest of its running message. Each thread that is in its call can itself take its next
  -- step: it does not come to an fprintf on NULL.
  pub together_lem :
      {e : Engine} {s : State}
      → e.fp ≡ true
      → Run c ndebug false (quiet e) s
      → ((put : List (ℕ × Text)) × (texts s.engine.events ≡ texts e.events ++ untagged put)
          × ((i : ℕ) → of_thread i s.asked ≡ of_thread i put ++ left (s.phase i)))
        × ((i : ℕ) → (s.phase i ≡ outside) ⊎ ((t : State) × (turn i s ≡ some t)))
  together_lem {e} {s} h r =
      let v =
        Run-Inv {e = e}
          (record {
            ready = h;
            put = [];
            file = sym (append-nil (texts e.events));
            told = λ j. refl;
          })
          r in
      (
        (v.put, v.file, v.told),
        λ i. elim (go_on-Inv e i (s.phase i) v refl) [
          | inl x ↦ inl x
          | inr (t, at, w) ↦ inr (t, at)
        ],
      )

-- A thread between its test of `fp` and its fprintf, when `fp` is NULL.
record Lost (i : ℕ) (t : Text) (ts : List Text) (s : State) : Type 0 where
  null : s.engine.fp ≡ false
  at_print : s.phase i ≡ tested t ts

module _ {i : ℕ} {t : Text} {ts : List Text} where
  moved-Lost :
      (j : ℕ) (p : Phase) (s : State) (e : Engine) (l : List (ℕ × Text))
      → j ≢ i
      → e.fp ≡ false
      → Lost i t ts s
      → Lost i t ts (record { engine = e; phase = goto j p s.phase; asked = l })
  moved-Lost j p s e l n h v = record {
    null = h;
    at_print = goto_other j p s.phase i (λ x. n (sym x)) ∙ v.at_print;
  }

  go_on-Lost :
      (j : ℕ) (p : Phase) (s : State) {u : State}
      → j ≢ i
      → Lost i t ts s
      → go_on j p s ≡ some u
      → Lost i t ts u
  go_on-Lost j outside s n v h = absurd (cc)
  go_on-Lost j (before []) s {u} n v h =
      let same : moves j outside s ≡ u = cc in
      subst (Lost i t ts) same (moved-Lost j _ s s.engine s.asked n v.null v)
  go_on-Lost j (before (x ∷ xs)) s {u} n v h =
      let same : moves j (if s.engine.fp then tested x xs else before xs) s ≡ u = cc in
      subst (Lost i t ts) same (moved-Lost j _ s s.engine s.asked n v.null v)
  go_on-Lost j (tested x xs) s n v h = let null = v.null in absurd (ground (arith, null, h))
  go_on-Lost j (printed xs) s {u} n v h =
      let null = v.null in
      let e : Engine = if s.engine.force_flush then emit flushed s.engine else s.engine in
      let same : moves j (before xs) (record s { engine = e }) ≡ u = cc in
      let shut : e.fp ≡ false = ground (arith, null) in
      subst (Lost i t ts) same (moved-Lost j _ s e s.asked n shut v)

  Lost-turn : (s : State) → Lost i t ts s → turn i s ≡ none
  Lost-turn s v =
      ap (λ p. go_on i p s) v.at_print
      ∙ ap
          (λ b.
            if b
            then some (moves i (printed ts) (record s { engine = emit (wrote t) s.engine }))
            else none)
          v.null

  module _ (c : Libc) (ndebug : Bool) where
    Step-Lost : {s u : State} → Lost i t ts s → Step c ndebug true s u → Lost i t ts u
    unfolding rotate
    Step-Lost {s} v (logs j msg r fits x) =
        moved-Lost j _ s s.engine _
          (λ same.
            let at = v.at_print in
            let there : outside ≡ tested t ts = sym x ∙ ap s.phase same ∙ at in cc)
          v.null v
    Step-Lost {s} {u} v (turns j h) = elim (ℕ_discrete j i) [
      | yes same ↦
          let gone : none ≡ some u = sym (Lost-turn s v) ∙ ap (λ k. turn k s) (sym same) ∙ h in
          absurd (cc)
      | no apart ↦ go_on-Lost j (s.phase j) s apart v h
    ]
    Step-Lost {s} v (hangs_up opens x) =
        let null = v.null in record { null = ground (arith, null); at_print = v.at_print }

    Run-Lost : {s u : State} → Lost i t ts s → Run c ndebug true s u → Lost i t ts u
    Run-Lost v still = v
    Run-Lost v (later r step) = Step-Lost (Run-Lost v r) step

failed-Lost :
    (i : ℕ) (t : Text) (ts : List Text) (s : State)
    → s.phase i ≡ tested t ts
    → Lost i t ts (hung_up false s)
unfolding rotate
failed-Lost i t ts s x = record { null = ground arith; at_print = x }

-- If a SIGHUP comes while a thread is between its test of fp and its fprintf, and freopen fails,
-- then the thread stands before an fprintf on NULL from then on, whatever messages, other threads
-- and SIGHUPs come.
pub hangup_between :
    (c : Libc) (ndebug : Bool) (i : ℕ) (t : Text) (ts : List Text) (s u : State)
    → s.phase i ≡ tested t ts
    → Run c ndebug true (hung_up false s) u
    → (u.phase i ≡ tested t ts) × (turn i u ≡ none)
hangup_between c ndebug i t ts s u x r =
    let v = Run-Lost c ndebug (failed-Lost i t ts s x) r in (v.at_print, Lost-turn u v)
