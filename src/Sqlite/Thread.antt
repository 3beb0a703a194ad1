-- ===== src/Sqlite/Thread.antt =====
-- The engine's thread of src/pdns-logger-sqlite.c step by step: bg_thread_exec with its test of
-- `bgrunning` and its wait apart, and what other threads push in between.
use pdns_logger.Base.{
  Bool, true, false, List, [], ◌∷◌, Option, some, ◌≡◌, ◌≢◌, refl, ap, ◌∙◌, if◌then◌else◌, Result,
  ok, ◌>>=◌,
}
use pdns_logger.Database.{Sqlite3}
use pdns_logger.Queue.{Fifo, push_item, pop_item}
use pdns_logger.Queue.Refine.{Holds}
use pdns_logger.Sqlite.{Engine, taken_out}
use pdns_logger.Sqlite.Lifecycle.{background_starts}
use pdns_logger.Sqlite.Offered.{push_item-offered, take-round}
use pdns_logger.Sqlite.Round.{exec_all}
use pdns_logger.Sqlite.Slotted.{listed, offered}
use pdns_logger.Status.{Status}
use pdns_logger.Text.{Text}

-- Where the thread is: not begun, at the test of the loop, in `fifo_pop_item`, or at its end.
pub data Phase : Type 0 where
  unborn testing waiting ended : Phase

-- What another thread pushes, with the answer of `malloc`.
abbrev pub Offer : Type 0
Offer = Bool × Option Text

-- Back to the test.
abbrev took : Result Engine → Result (Phase × Engine)
took m = m >>= λ s. ok (testing, s)

module _ (lib : Sqlite3) where
  -- A turn of `bg_thread_exec`.
  abbrev pub turn : Phase → Engine → Result (Phase × Engine)
  turn unborn s = ok (testing, background_starts s)
  turn testing s = ok ((if s.bgrunning then waiting else ended), s)
  turn waiting s = took (pop_item s.fifo >>= λ r. taken_out lib r s)
  turn ended s = ok (ended, s)

  -- The turns of a release build, each behind a push of another thread.
  unfoldable pub work : List Offer → Phase → Engine → Result (Phase × Engine)
  work [] p s = ok (p, s)
  work ((memory, v) ∷ vs) p s = push_item true memory v s.fifo >>= λ r.
      turn p (record s { fifo = r.1 }) >>= λ x. work vs x.0 x.1

  work-push :
      (memory : Bool) (v : Option Text) (vs : List Offer) (p : Phase) (s : Engine) (q : Fifo Text)
      {w : Option Text}
      → s.fifo ≡ some q
      → Holds q w
      → (q' : Fifo Text) × (work ((memory, v) ∷ vs) p s
          ≡ (turn p (record s { fifo = some q' }) >>= λ x. work vs x.0 x.1))
        × Holds q' (offered memory v w)
  unfolding work
  work-push memory v vs p s q here h =
      let (q', e, h') = push_item-offered memory v q h in
      let go : Result (Status × Option (Fifo Text)) → Result (Phase × Engine) =
        λ m. m >>= λ r. turn p (record s { fifo = r.1 }) >>= λ x. work vs x.0 x.1 in
      (q', ap (λ o. go (push_item true memory v o)) here ∙ ap go e, h')

  -- At its end the thread stays there, and executes nothing.
  work-ended :
      (vs : List Offer) (s : Engine) (q : Fifo Text) {w : Option Text}
      → s.fifo ≡ some q
      → Holds q w
      → (q' : Fifo Text) × (work vs ended s ≡ ok (ended, record s { fifo = some q' }))
  unfolding work
  work-ended [] s q here h = (q, ap (λ o. ok (ended, record s { fifo = o })) here)
  work-ended ((memory, v) ∷ vs) s q here h =
      let (q₁, e₁, h₁) = work-push memory v vs ended s q here h in
      let (q₂, e₂) = work-ended vs (record s { fifo = some q₁ }) q₁ refl h₁ in (q₂, e₁ ∙ e₂)

  work-testing :
      (o : Offer) (vs : List Offer) (s : Engine) (q : Fifo Text) {w : Option Text}
      → s.bgrunning ≡ false
      → s.fifo ≡ some q
      → Holds q w
      → (q' : Fifo Text) × (work (o ∷ vs) testing s ≡ ok (ended, record s { fifo = some q' }))
  work-testing (memory, v) vs s q off here h =
      let (q₁, e₁, h₁) = work-push memory v vs testing s q here h in
      let (q₂, e₂) = work-ended vs (record s { fifo = some q₁ }) q₁ refl h₁ in
      (
        q₂,
        e₁
            ∙ ap (λ b. work vs (if b then waiting else ended) (record s { fifo = some q₁ })) off
            ∙ e₂,
      )

  -- From its wait the thread takes out one more statement, if there is one.
  work-waiting :
      (o o' : Offer) (vs : List Offer) (s : Engine) (q : Fifo Text) {w : Option Text}
      → s.bgrunning ≡ false
      → s.fifo ≡ some q
      → Holds q w
      → (q' : Fifo Text) × (work (o ∷ o' ∷ vs) waiting s
          ≡ ok (
            ended,
            record s {
              fifo = some q';
              database = exec_all lib s.autocommit (listed (offered o.0 o.1 w)) s.database;
            },
          ))
  work-waiting (memory, v) o' vs s q {w} off here h =
      let (q₁, e₁, h₁) = work-push memory v (o' ∷ vs) waiting s q here h in
      let (q₂, e₂, h₂) = take-round lib s q₁ h₁ in
      let s₂ : Engine = record s {
        fifo = some q₂;
        database = exec_all lib s.autocommit (listed (offered memory v w)) s.database;
      } in
      let (q₃, e₃) = work-testing o' vs s₂ q₂ off refl h₂ in
      (q₃, e₁ ∙ ap (λ m. took m >>= λ x. work (o' ∷ vs) x.0 x.1) e₂ ∙ e₃)

  -- A thread that has begun, with `bgrunning` set, does not end.
  abbrev pub Continues : Result (Phase × Engine) → Type 0
  Continues m = (p : Phase) × (s : Engine) × (m ≡ ok (p, s)) × (p ≢ ended)

  Continues-from : {m n : Result (Phase × Engine)} → m ≡ n → Continues n → Continues m
  Continues-from e (p, s, h, apart) = (p, s, e ∙ h, apart)

  work-on :
      (vs : List Offer) (p : Phase) (s : Engine) (q : Fifo Text) {w : Option Text}
      → p ≢ ended
      → s.bgrunning ≡ true
      → s.fifo ≡ some q
      → Holds q w
      → Continues (work vs p s)
  unfolding work
  work-on [] p s q apart on here h = (p, s, refl, apart)
  work-on ((memory, v) ∷ vs) unborn s q apart on here h =
      let (q₁, e₁, h₁) = work-push memory v vs unborn s q here h in
      Continues-from e₁ (
        work-on vs testing (background_starts (record s { fifo = some q₁ })) q₁ (λ e. cc) refl refl
          h₁)
  work-on ((memory, v) ∷ vs) testing s q apart on here h =
      let (q₁, e₁, h₁) = work-push memory v vs testing s q here h in
      Continues-from
        (e₁ ∙ ap (λ b. work vs (if b then waiting else ended) (record s { fifo = some q₁ })) on)
        (work-on vs waiting (record s { fifo = some q₁ }) q₁ (λ e. cc) on refl h₁)
  work-on ((memory, v) ∷ vs) waiting s q {w = w} apart on here h =
      let (q₁, e₁, h₁) = work-push memory v vs waiting s q here h in
      let (q₂, e₂, h₂) = take-round lib s q₁ h₁ in
      let s₂ : Engine = record s {
        fifo = some q₂;
        database = exec_all lib s.autocommit (listed (offered memory v w)) s.database;
      } in
      Continues-from (e₁ ∙ ap (λ m. took m >>= λ x. work vs x.0 x.1) e₂)
        (work-on vs testing s₂ q₂ (λ e. cc) on refl h₂)
  work-on ((memory, v) ∷ vs) ended s q apart on here h = absurd (apart refl)

  work-unborn :
      (vs : List Offer) (s : Engine) (q : Fifo Text) {w : Option Text}
      → s.fifo ≡ some q
      → Holds q w
      → Continues (work vs unborn s)
  unfolding work
  work-unborn [] s q here h = (unborn, s, refl, λ e. cc)
  work-unborn ((memory, v) ∷ vs) s q here h =
      let (q₁, e₁, h₁) = work-push memory v vs unborn s q here h in
      Continues-from e₁ (
        work-on vs testing (background_starts (record s { fifo = some q₁ })) q₁ (λ e. cc) refl refl
          h₁)

  -- What becomes of a thread in this phase, with `bgrunning` reset and `w` in the queue at its next
  -- turn, in turns that come to `m`: it ends, with the statements that it still takes out executed, or
  -- not.
  abbrev pub Ends : List Text → Engine → Result (Phase × Engine) → Type 0
  Ends out s m =
      (q : Fifo Text) × (m
        ≡ ok (
          ended,
          record s { fifo = some q; database = exec_all lib s.autocommit out s.database },
        ))

  abbrev pub Outcome : Phase → Option Text → Engine → Result (Phase × Engine) → Type 0
  Outcome unborn w s m = Continues m
  Outcome testing w s m = Ends [] s m
  Outcome waiting w s m = Ends (listed w) s m
  Outcome ended w s m = Ends [] s m

  -- In a release build, behind `bgrunning = 0` of `bg_thread_stop`, with at least two more turns, and
  -- whatever other threads push before each of them: a thread that has begun ends, so that
  -- `pthread_join` returns. It executes the statement in the queue if it waits for one, and otherwise
  -- nothing. A thread that has not begun sets `bgrunning` again, and does not end, however many turns
  -- there are.
  pub bg_thread_stop_lem :
      (o o' : Offer) (vs : List Offer) (p : Phase) (s : Engine) (q : Fifo Text) {w : Option Text}
      → s.bgrunning ≡ false
      → s.fifo ≡ some q
      → Holds q w
      → Outcome p (offered o.0 o.1 w) s (work (o ∷ o' ∷ vs) p s)
  bg_thread_stop_lem o o' vs unborn s q off here h = work-unborn (o ∷ o' ∷ vs) s q here h
  bg_thread_stop_lem o o' vs testing s q off here h = work-testing o (o' ∷ vs) s q off here h
  bg_thread_stop_lem o o' vs waiting s q off here h = work-waiting o o' vs s q off here h
  bg_thread_stop_lem o o' vs ended s q off here h = work-ended (o ∷ o' ∷ vs) s q here h
