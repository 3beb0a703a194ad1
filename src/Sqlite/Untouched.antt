-- ===== src/Sqlite/Untouched.antt =====
-- What src/pdns-logger-sqlite.c leaves alone: logging changes only the queue, and the background
-- thread only the queue and the database.
use mathlib.Core.Path.{subst}
use pdns_logger.Base.{
  ℕ, ◌+◌, Bool, true, false, ◌&&◌, ◌||◌, List, [], ◌∷◌, Option, none, some, ◌≡◌, refl, sym, ap, ◌∙◌,
  if◌then◌else◌, Result, ok, fault, ◌>>=◌, Bool-cases, inl, inr,
}
use pdns_logger.Database.{Sqlite3, Db, db_exec}
use pdns_logger.Line.{Libc}
use pdns_logger.Message.{Record, Response, Message}
use pdns_logger.Queue.{Fifo, push_item, pop_item}
use pdns_logger.Sqlite.{
  Engine, background, taken_out, stored, log, log_rows, log_records, log_response, push_row,
}
use pdns_logger.Sqlite.Rows.{Row, Carried, carry, row}
use pdns_logger.Status.{Status, pdns_ok}
use pdns_logger.Text.{Text, zstr}

-- The engine `s` with another queue.
abbrev pub Queued : Engine → Engine → Type 0
Queued s s' = s' ≡ record s { fifo = s'.fifo }

Queued-trans : (s t u : Engine) → Queued s t → Queued t u → Queued s u
Queued-trans s t u h k = k ∙ ap (λ (t : Engine). record t { fifo = u.fifo }) h

-- The result of a step, if it has one, is the engine with another queue.
abbrev Keeps : Engine → Result Engine → Type 0
Keeps s (ok s') = Queued s s'
Keeps s (fault x) = Unit {0}

Keeps->>= :
    (s : Engine) (m : Result Engine) (f : Engine → Result Engine)
    → Keeps s m
    → ((t : Engine) → Queued s t → Keeps s (f t))
    → Keeps s (m >>= f)
Keeps->>= s (ok t) f h k = k t h
Keeps->>= s (fault x) f h k = tt

Keeps-Queued : (s t : Engine) (m : Result Engine) → Queued s t → Keeps t m → Keeps s m
Keeps-Queued s t (ok u) h k = Queued-trans s t u h k
Keeps-Queued s t (fault x) h k = tt

-- The engine behind `logsqlite_log`, if that does not fault.
abbrev pub KeepsLogged : Engine → Result (Status × Engine) → Type 0
KeepsLogged s (ok (status, s')) = Queued s s'
KeepsLogged s (fault x) = Unit {0}

module _ (c : Libc) (mprintf : Row → Option Text) (ndebug : Bool) (memory : ℕ → Bool) where
  push_row-Keeps :
      (t : ℕ) (x : Row) (s : Engine)
      → Keeps s (push_row c mprintf ndebug memory (λ _ s. ok s) t x s)
  push_row-Keeps t x s = by_result (push_item ndebug (memory t) (mprintf x) s.fifo)
    where
      by_result :
          (m : Result (Status × Option (Fifo Text)))
          → Keeps s (m >>= λ r. ok (record s { fifo = r.1 }))
      by_result (ok r) = refl
      by_result (fault e) = tt

  log_rows-Keeps :
      (msg : Message) (r : Response) (t : ℕ) (rrs : List Record) (v : Carried) (s : Engine)
      → Keeps s (log_rows c mprintf ndebug memory (λ _ s. ok s) msg r t rrs v s)
  unfolding log_rows
  log_rows-Keeps msg r t [] v s = refl
  log_rows-Keeps msg r t (rr ∷ rrs) v s =
      Keeps->>= s _ _ (push_row-Keeps t (row c msg r rr.name (carry c rr v)) s)
        (λ u h. Keeps-Queued s u _ h (log_rows-Keeps msg r (t + 1) rrs (carry c rr v) u))

  log_records-Keeps :
      (msg : Message) (r : Response) (rrs : List Record) (s : Engine)
      → Keeps s (log_records c mprintf ndebug memory (λ _ s. ok s) msg r rrs s)
  log_records-Keeps msg r [] s = push_row-Keeps 1 _ s
  log_records-Keeps msg r (rr ∷ rrs) s = log_rows-Keeps msg r 1 (rr ∷ rrs) _ s

  pub log-Keeps :
      (msg : Option Message) (s : Engine)
      → KeepsLogged s (log c mprintf ndebug memory (λ _ s. ok s) msg s)
  unfolding log log_response
  log-Keeps none s = refl
  log-Keeps (some msg) s = by_response msg.response
    where
      answered : (m : Result Engine) → Keeps s m → KeepsLogged s (m >>= λ s'. ok (pdns_ok, s'))
      answered (ok s') h = h
      answered (fault x) h = tt

      by_response :
          (o : Option Response)
          → KeepsLogged s (log_response c mprintf ndebug memory (λ _ s. ok s) msg o s)
      by_response none = refl
      by_response (some r) =
          elim (Bool-cases (s.disabled || (s.rewrites_only && zstr r.appliedpolicy))) [
            | inl ignored ↦
                subst
                  (λ b. KeepsLogged s (
                    if b
                    then ok (pdns_ok, s)
                    else (log_records c mprintf ndebug memory (λ _ s. ok s) msg r r.rrs s >>= λ s'.
                        ok (pdns_ok, s'))))
                  (sym ignored) refl
            | inr wanted ↦
                subst
                  (λ b. KeepsLogged s (
                    if b
                    then ok (pdns_ok, s)
                    else (log_records c mprintf ndebug memory (λ _ s. ok s) msg r r.rrs s >>= λ s'.
                        ok (pdns_ok, s'))))
                  (sym wanted) (answered _ (log_records-Keeps msg r r.rrs s))
          ]

-- What the background thread leaves alone: all but the queue and the database.
abbrev pub KeepsThread : Engine → Result Engine → Type 0
KeepsThread s (ok s') = s'.thread ≡ s.thread
KeepsThread s (fault x) = Unit {0}

pub stored-only :
    (o : Option (Status × Db)) (s : Engine)
    → stored o s ≡ record s { database = (stored o s).database }
stored-only none s = refl
stored-only (some r) s = refl

pub background-KeepsThread : (lib : Sqlite3) (s : Engine) → KeepsThread s (background lib s)
unfolding background
background-KeepsThread lib s = if_running s.bgrunning (pop_item s.fifo)
  where
    if_running :
        (b : Bool) (m : Result (Option Text × Option (Fifo Text)))
        → KeepsThread s (if b then (m >>= λ r. taken_out lib r s) else ok s)
    if_running true (ok (none, q)) = refl
    if_running true (ok (some sql, q)) =
        ap (λ (t : Engine). t.thread)
          (stored-only (db_exec lib s.autocommit 2 sql s.database) (record s { fifo = q }))
    if_running true (fault x) = tt
    if_running false m = refl
