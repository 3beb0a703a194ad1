-- ===== src/LogFile/Threads/Alone.antt =====
-- One thread in logfile_log of src/pdns-logger-file.c, while no other one goes on.
use pdns_logger.Base.{
  goto_here, inl, inr, ◌+◌, ◌*◌, ◌≤◌, Bool, true, false, ℕ, zero, suc, List, [], ◌∷◌, Option, some,
  none, ◌≡◌, refl, sym, ap, ◌∙◌, arith, if◌then◌else◌, length, Result, Bool-cases,
}
use pdns_logger.Line.Overflow.{message_lines, log_message-fits}
use pdns_logger.Line.Records.{write_all}
use pdns_logger.Line.{Libc, log_message}
use pdns_logger.LogFile
use pdns_logger.LogFile.Threads.{
  Phase, outside, before, tested, printed, State, moves, go_on, turn, enters, Fits, at_end, alone,
}
use pdns_logger.LogFile.{wrote, flushed, Engine, emit, write_log}
use pdns_logger.Message.{Message, Response}
use pdns_logger.Status.{Status}
use pdns_logger.Text.{Text}

module _ (i : ℕ) where
  -- One turn, at a position in the call.
  alone-turn :
      (n : ℕ) (s t : State) (p : Phase)
      → s.phase i ≡ p
      → ((r : Option State) → at_end p s r ≡ r)
      → go_on i p s ≡ some t
      → alone i (suc n) s ≡ alone i n t
  unfolding alone
  alone-turn n s t p x inside goes =
      ap (λ q. at_end q s (elim (go_on i q s) [ none ↦ none | some u ↦ alone i n u ])) x
      ∙ inside _
      ∙ ap
          (λ (o : Option State). elim o as (λ z. Option State) [
            | none ↦ none
            | some u ↦ alone i n u
          ])
          goes

  -- A thread that comes to its end by fuel `n`, with these lines written.
  pub record Ends (n : ℕ) (ts : List Text) (s : State) : Type 0 where
    pub final : State
    pub result : alone i n s ≡ some final
    pub writes : final.engine ≡ write_all write_log ts s.engine
    pub left_it : final.phase i ≡ outside

  line_written :
      (t : Text) (e : Engine)
      → e.fp ≡ true
      → (if e.force_flush then emit flushed (emit (wrote t) e) else emit (wrote t) e)
        ≡ write_log t e
  unfolding write_log
  line_written t e h = ground (arith, h)

  line_dropped : (t : Text) (e : Engine) → e.fp ≡ false → e ≡ write_log t e
  unfolding write_log
  line_dropped t e h = ground (arith, h)

  after_turns :
      {m n : ℕ} {ts us : List Text} {s t : State}
      → alone i m s ≡ alone i n t
      → write_all write_log us t.engine ≡ write_all write_log ts s.engine
      → Ends n us t
      → Ends m ts s
  after_turns e w x = record {
    final = x.final;
    result = e ∙ x.result;
    writes = x.writes ∙ w;
    left_it = x.left_it;
  }

  at_outside : (n : ℕ) (s : State) → s.phase i ≡ outside → Ends (suc n) [] s
  unfolding alone
  at_outside n s x = record {
    final = s;
    result = ap (λ q. at_end q s (elim (turn i s) [ none ↦ none | some u ↦ alone i n u ])) x;
    writes = refl;
    left_it = x;
  }

  -- The first of the lines, if the file is open: three turns.
  line_open :
      (t : Text) (ts : List Text) (n : ℕ) (s : State)
      → s.engine.fp ≡ true
      → s.phase i ≡ before (t ∷ ts)
      → ((u : State) → u.phase i ≡ before ts → Ends n ts u)
      → Ends (suc (suc (suc n))) (t ∷ ts) s
  line_open t ts n s h x rest =
      let s₁ = moves i (if s.engine.fp then tested t ts else before ts) s in
      let x₁ : s₁.phase i ≡ tested t ts =
        goto_here i _ s.phase ∙ ap (λ b. if b then tested t ts else before ts) h in
      let s₂ = moves i (printed ts) (record s₁ { engine = emit (wrote t) s.engine }) in
      let s₃ = moves i (before ts) (record s₂ {
        engine = if s.engine.force_flush then emit flushed s₂.engine else s₂.engine;
      }) in
      after_turns
        (alone-turn (suc (suc n)) s s₁ (before (t ∷ ts)) x (λ r. refl) refl
          ∙ alone-turn (suc n) s₁ s₂ (tested t ts) x₁ (λ r. refl)
              (ap (λ b. if b then some s₂ else none) h)
          ∙ alone-turn n s₂ s₃ (printed ts) (goto_here i _ s₁.phase) (λ r. refl) refl)
        (ap (write_all write_log ts) (line_written t s.engine h)) (rest s₃ (goto_here i _ s₂.phase))

  -- If it is not: one turn.
  line_shut :
      (t : Text) (ts : List Text) (n : ℕ) (s : State)
      → s.engine.fp ≡ false
      → s.phase i ≡ before (t ∷ ts)
      → ((u : State) → u.phase i ≡ before ts → Ends n ts u)
      → Ends (suc n) (t ∷ ts) s
  line_shut t ts n s h x rest =
      let s₁ = moves i (if s.engine.fp then tested t ts else before ts) s in
      after_turns (alone-turn n s s₁ (before (t ∷ ts)) x (λ r. refl) refl)
        (ap (write_all write_log ts) (line_dropped t s.engine h))
        (rest s₁ (goto_here i _ s.phase ∙ ap (λ b. if b then tested t ts else before ts) h))

  lines_alone :
      (ts : List Text) (n : ℕ) (s : State)
      → s.phase i ≡ before ts
      → 3 * length ts + 2 ≤ n
      → Ends n ts s
  lines_alone [] zero s x fuel = absurd (omega arith)
  lines_alone [] (suc zero) s x fuel = absurd (omega arith)
  lines_alone [] (suc (suc n)) s x fuel =
      after_turns (alone-turn (suc n) s (moves i outside s) (before []) x (λ r. refl) refl) refl
        (at_outside n (moves i outside s) (goto_here i _ s.phase))
  lines_alone (t ∷ ts) zero s x fuel = absurd (omega arith)
  lines_alone (t ∷ ts) (suc zero) s x fuel = absurd (omega arith)
  lines_alone (t ∷ ts) (suc (suc zero)) s x fuel = absurd (omega arith)
  lines_alone (t ∷ ts) (suc (suc (suc n))) s x fuel = elim (Bool-cases s.engine.fp) [
    | inl h ↦ line_open t ts n s h x (λ u y. lines_alone ts n u y (omega arith))
    | inr h ↦
        line_shut t ts (suc (suc n)) s h x (λ u y. lines_alone ts (suc (suc n)) u y (omega arith))
  ]

-- A thread that comes into its call with a message that is to be logged and fits a line: if it goes
-- on alone, it leaves its call after no more than three turns for each line and two, and its turns
-- together have done to the engine what logfile_log does, whether the file is open or not.
pub message_alone :
    (c : Libc) (ndebug : Bool) (i : ℕ) (s : State) (msg : Message) (r : Response)
    → Fits c ndebug s.engine msg r
    → (t : State) × (alone i
          (3 * length (message_lines c msg r) + 2)
          (enters i (message_lines c msg r) s)
        ≡ some t)
      × (t.engine ≡ (LogFile.log c ndebug (some msg) s.engine).1)
      × (t.phase i ≡ outside)
unfolding LogFile.log
message_alone c ndebug i s msg r fits =
    let ls = message_lines c msg r in
    let x =
      lines_alone i ls (3 * length ls + 2) (enters i ls s) (goto_here i _ s.phase) (omega arith) in
    (
      x.final,
      x.result,
      x.writes
          ∙ ap (λ (m : Result Status × Engine). m.1)
              (sym (
                ap
                  (λ d. log_message c write_log ndebug d s.engine.rewrites_only (some msg) s.engine)
                  fits.on
                ∙ log_message-fits c write_log ndebug s.engine.rewrites_only msg r fits.answered
                    fits.wanted fits.unchecked s.engine fits.small)),
      x.left_it,
    )
