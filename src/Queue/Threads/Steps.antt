-- ===== src/Queue/Threads/Steps.antt =====
-- Each step of a thread at the queue of src/pdns-logger-queue.c keeps the threads' invariant.
use mathlib.Core.Path.{subst}
use pdns_logger.Base.{
  goto, of_thread-own, of_thread, ℕ, Bool, true, false, List, [], ◌∷◌, ◌++◌, Option, none, some,
  ◌≡◌, ◌≢◌, refl, sym, ap, ◌∙◌, append-nil,
}
use pdns_logger.Queue.{Fifo}
use pdns_logger.Queue.Refine.{Holds}
use pdns_logger.Queue.Threads.{Call, Done, has_lock, Phase, idle, State, moves}
use pdns_logger.Queue.Threads.Local.{has_sync, own, Spared, Private, Local, Answers}
use pdns_logger.Queue.Threads.Shared
use pdns_logger.Queue.Threads.Invariant.{
  Owns, Owns-keeps, Owns-gets, Owns-gives, Due, Inv, Due-goto, apart-goto,
}

module _ {A : Type 0} {ndebug : Bool} (s : State A) {slot : Option A} {rs : List (ℕ × Done A)}
    (i : ℕ) where
  pub Inv-moves :
      {slot' : Option A} {rs' returns' : List (ℕ × Done A)} {calls' : List (ℕ × Call A)}
      (p : Phase A) {q' : Fifo A} {lock' sync' : Option ℕ}
      → Inv ndebug s slot rs
      → Answers ndebug slot' rs'
      → Holds q' slot'
      → Due i q' p rs' returns'
      → ((j : ℕ)
          → j ≢ i
          → (of_thread j rs' ≡ of_thread j rs) × (of_thread j returns' ≡ of_thread j s.returns))
      → ((j a : ℕ) (v : A)
          → j ≢ i
          → own (s.phase j) ≡ some a
          → Private s.queue a v
          → Spared s.queue q' (some a) × (own p ≢ some a))
      → Owns has_lock lock' (goto i p s.phase)
      → Owns has_sync sync' (goto i p s.phase)
      → Inv ndebug
          (record {
            queue = q';
            lock = lock';
            sync = sync';
            phase = goto i p s.phase;
            calls = calls';
            returns = returns';
          })
          slot'
          rs'
  Inv-moves p {q'} inv a h d others spared l y = record {
    answers = a;
    holds = h;
    locals =
        Due-goto d
          (λ j n.
            let o = others j n in
            let due = inv.locals j in
            (
              Shared.Spared-own s.queue q' (s.phase j) due.due due.sound
                  (λ b v e r. (spared j b v n e r).0),
              o.0,
              o.1,
            ))
          inv.locals;
    apart =
        apart-goto s.phase i p
          (λ j b n e.
            let due = inv.locals j in
            let w = Shared.Local-Private s.queue (s.phase j) due.due due.sound e in
            (spared j b w.0 n e w.1).1)
          inv.apart;
    locked = l;
    synced = y;
  }

  -- A step that neither touches the queue nor decides on an answer.
  pub Inv-quiet :
      (p₀ p : Phase A) {lock' sync' : Option ℕ} {calls' : List (ℕ × Call A)}
      → Inv ndebug s slot rs
      → s.phase i ≡ p₀
      → ((ts : List (Done A)) → Local s.queue p₀ ts → Local s.queue p ts)
      → own p ≡ own p₀
      → Owns has_lock lock' (goto i p s.phase)
      → Owns has_sync sync' (goto i p s.phase)
      → Inv ndebug
          (record {
            queue = s.queue;
            lock = lock';
            sync = sync';
            phase = goto i p s.phase;
            calls = calls';
            returns = s.returns;
          })
          slot
          rs
  Inv-quiet p₀ p inv e l o =
      let d = inv.locals i in
      Inv-moves p inv inv.answers inv.holds
        (record {
          due = d.due;
          sound = l d.due (subst (λ x. Local s.queue x d.due) e d.sound);
          told = d.told;
        })
        (λ j n. (refl, refl))
        (λ j a v n w r.
          ((refl, r.apart, λ k. k), λ z. n (inv.apart j i a w (ap own e ∙ sym o ∙ z))))

  module _ (inv : Inv ndebug s slot rs) where
    -- Thread `i` gets a mutex, gives it back, or only goes on.
    pub gets_lock :
        (p₀ p : Phase A)
        → s.phase i ≡ p₀
        → s.lock ≡ none
        → ((ts : List (Done A)) → Local s.queue p₀ ts → Local s.queue p ts)
        → own p ≡ own p₀
        → has_lock p ≡ true
        → has_sync p ≡ has_sync p₀
        → Inv ndebug (moves i p (record s { lock = some i })) slot rs
    gets_lock p₀ p e n l o x y =
        Inv-quiet p₀ p inv e l o (Owns-gets has_lock s.phase i p₀ p n inv.locked x)
          (Owns-keeps has_sync s.phase i p₀ p s.sync e inv.synced y)

    pub gives_lock :
        (p₀ p : Phase A)
        → s.phase i ≡ p₀
        → ((ts : List (Done A)) → Local s.queue p₀ ts → Local s.queue p ts)
        → own p ≡ own p₀
        → has_lock p₀ ≡ true
        → has_lock p ≡ false
        → has_sync p ≡ has_sync p₀
        → Inv ndebug (moves i p (record s { lock = none })) slot rs
    gives_lock p₀ p e l o x z y =
        Inv-quiet p₀ p inv e l o (Owns-gives has_lock s.phase i p₀ p s.lock e inv.locked x z)
          (Owns-keeps has_sync s.phase i p₀ p s.sync e inv.synced y)

    pub gets_sync :
        (p₀ p : Phase A)
        → s.phase i ≡ p₀
        → s.sync ≡ none
        → ((ts : List (Done A)) → Local s.queue p₀ ts → Local s.queue p ts)
        → own p ≡ own p₀
        → has_sync p ≡ true
        → has_lock p ≡ has_lock p₀
        → Inv ndebug (moves i p (record s { sync = some i })) slot rs
    gets_sync p₀ p e n l o x y =
        Inv-quiet p₀ p inv e l o (Owns-keeps has_lock s.phase i p₀ p s.lock e inv.locked y)
          (Owns-gets has_sync s.phase i p₀ p n inv.synced x)

    pub gives_sync :
        (p₀ p : Phase A)
        → s.phase i ≡ p₀
        → ((ts : List (Done A)) → Local s.queue p₀ ts → Local s.queue p ts)
        → own p ≡ own p₀
        → has_sync p₀ ≡ true
        → has_sync p ≡ false
        → has_lock p ≡ has_lock p₀
        → Inv ndebug (moves i p (record s { sync = none })) slot rs
    gives_sync p₀ p e l o x z y =
        Inv-quiet p₀ p inv e l o (Owns-keeps has_lock s.phase i p₀ p s.lock e inv.locked y)
          (Owns-gives has_sync s.phase i p₀ p s.sync e inv.synced x z)

    -- What thread `i` owes, by its position.
    pub due_at :
        (p₀ : Phase A) {ts : List (Done A)}
        → s.phase i ≡ p₀
        → ((us : List (Done A)) → Local s.queue p₀ us → us ≡ ts)
        → (inv.locals i).due ≡ ts
    due_at p₀ e l = let d = inv.locals i in l d.due (subst (λ x. Local s.queue x d.due) e d.sound)

    -- A thread that owes nothing goes on so, comes to owe `r`, or returns `r` at once.
    pub owes_nothing :
        (p : Phase A) {q' : Fifo A}
        → (inv.locals i).due ≡ []
        → Local q' p []
        → Due i q' p rs s.returns
    owes_nothing p e x = record {
      due = [];
      sound = x;
      told = (inv.locals i).told ∙ ap (λ l. of_thread i s.returns ++ l) e;
    }

    told_more :
        (r : Done A)
        → (inv.locals i).due ≡ []
        → of_thread i (rs ++ (i, r) ∷ []) ≡ of_thread i s.returns ++ r ∷ []
    told_more r e =
        of_thread-own i rs r
        ∙ ap (λ l. l ++ r ∷ [])
            ((inv.locals i).told ∙ ap (λ l. of_thread i s.returns ++ l) e ∙ append-nil _)

    pub owes :
        (p : Phase A) (r : Done A) {q' : Fifo A}
        → (inv.locals i).due ≡ []
        → Local q' p (r ∷ [])
        → Due i q' p (rs ++ (i, r) ∷ []) s.returns
    owes p r e x = record { due = r ∷ []; sound = x; told = told_more r e }

    pub pays_at_once :
        (r : Done A) {q' : Fifo A}
        → (inv.locals i).due ≡ []
        → Due i q' idle (rs ++ (i, r) ∷ []) (s.returns ++ (i, r) ∷ [])
    pays_at_once r e = record {
      due = [];
      sound = refl;
      told = told_more r e ∙ sym (of_thread-own i s.returns r) ∙ sym (append-nil _);
    }

    -- A thread that owes `r` returns it.
    pub pays :
        (r : Done A) {q' : Fifo A}
        → (inv.locals i).due ≡ r ∷ []
        → Due i q' idle rs (s.returns ++ (i, r) ∷ [])
    pays r e = record {
      due = [];
      sound = refl;
      told =
          (inv.locals i).told
          ∙ ap (λ l. of_thread i s.returns ++ l) e
          ∙ sym (of_thread-own i s.returns r)
          ∙ sym (append-nil _);
    }
