-- ===== src/Sqlite/Logged.antt =====
-- Which statements logsqlite_log of src/pdns-logger-sqlite.c gets executed if the engine's thread
-- takes each of them out of the queue in time.
use pdns_logger.Base.{
  ℕ, ◌+◌, Bool, true, false, ◌&&◌, List, [], ◌∷◌, ◌++◌, Option, none, some, ◌≡◌, refl, sym, ap, ◌∙◌,
  Result, ok, ◌>>=◌,
}
use pdns_logger.Database.{Sqlite3}
use pdns_logger.Database.Executed.{exec_once}
use pdns_logger.Line.{Libc}
use pdns_logger.Message.{Record, Response, Message}
use pdns_logger.Queue.{Fifo, push_item}
use pdns_logger.Queue.Refine.{Holds}
use pdns_logger.Sqlite.{Engine, background, log, log_rows, log_records, push_row}
use pdns_logger.Sqlite.Known.{known, known-nil, rows_for, carry-known, rows_behind, message_rows}
use pdns_logger.Sqlite.Wanted.{log-wanted}
use pdns_logger.Sqlite.Rows.{Row, Carried, nothing_carried, row}
use pdns_logger.Status.{Status, pdns_ok}
use pdns_logger.Text.{Text, zstr}
use pdns_logger.Sqlite.Round.{exec_all, map_text, push_item-empty, background-some}

module _ (c : Libc) (lib : Sqlite3) (sql : Row → Text) (ndebug : Bool) where
  -- A push with the thread's round behind it.
  push_row-background :
      (t : ℕ) (x : Row) (s : Engine) (q : Fifo Text)
      → s.bgrunning ≡ true
      → s.fifo ≡ some q
      → Holds q none
      → (q' : Fifo Text) × (push_row c
            (λ y. some (sql y))
            ndebug
            (λ _. true)
            (λ _. background lib)
            t
            x
            s
          ≡ ok (record s {
            fifo = some q';
            database = (exec_once lib s.autocommit (sql x) s.database).1;
          }))
        × Holds q' none
  push_row-background t x s q on here h =
      let (q₁, e₁, h₁) = push_item-empty ndebug q (sql x) h in
      let (q₂, e₂, h₂) = background-some lib s q₁ on h₁ in
      let pushed : Result (Status × Option (Fifo Text)) → Result Engine =
        λ m. m >>= λ r. background lib (record s { fifo = r.1 }) in
      (q₂, ap (λ f. pushed (push_item ndebug true (some (sql x)) f)) here ∙ ap pushed e₁ ∙ e₂, h₂)

  rows_in_time : Message → Response → ℕ → List Record → Carried → Engine → Result Engine
  rows_in_time = log_rows c (λ y. some (sql y)) ndebug (λ _. true) (λ _. background lib)

  log_rows-background :
      (msg : Message) (r : Response) (before rest : List Record) (t : ℕ) (s : Engine)
      (q : Fifo Text)
      → s.bgrunning ≡ true
      → s.fifo ≡ some q
      → Holds q none
      → (q' : Fifo Text) × (rows_in_time msg r t rest (known c before) s
          ≡ ok (record s {
            fifo = some q';
            database =
                exec_all lib s.autocommit
                  (map_text sql (rows_behind c msg r before rest))
                  s.database;
          }))
        × Holds q' none
  unfolding rows_in_time log_rows rows_behind
  log_rows-background msg r before [] t s q on here h =
      (q, ap (λ f. ok (record s { fifo = f })) here, h)
  log_rows-background msg r before (rr ∷ rest) t s q on here h =
      let x = row c msg r rr.name (known c (before ++ rr ∷ [])) in
      let (q₁, e₁, h₁) = push_row-background t x s q on here h in
      let (q₂, e₂, h₂) =
        log_rows-background msg r (before ++ rr ∷ []) rest (t + 1)
          (record s {
            fifo = some q₁;
            database = (exec_once lib s.autocommit (sql x) s.database).1;
          })
          q₁ on refl h₁ in
      (
        q₂,
        ap
              (λ v.
                push_row c (λ y. some (sql y)) ndebug (λ _. true) (λ _. background lib) t
                  (row c msg r rr.name v) s
                >>= rows_in_time msg r (t + 1) rest v)
              (carry-known c before rr)
            ∙ ap (λ m. m >>= rows_in_time msg r (t + 1) rest (known c (before ++ rr ∷ []))) e₁
            ∙ e₂,
        h₂,
      )

  log_records-background :
      (msg : Message) (r : Response) (rrs : List Record) (s : Engine) (q : Fifo Text)
      → s.bgrunning ≡ true
      → s.fifo ≡ some q
      → Holds q none
      → (q' : Fifo Text) × (log_records c
            (λ y. some (sql y))
            ndebug
            (λ _. true)
            (λ _. background lib)
            msg
            r
            rrs
            s
          ≡ ok (record s {
            fifo = some q';
            database = exec_all lib s.autocommit (map_text sql (rows_for c msg r rrs)) s.database;
          }))
        × Holds q' none
  unfolding log_rows rows_in_time
  log_records-background msg r [] s q on here h =
      push_row-background 1 (row c msg r none nothing_carried) s q on here h
  log_records-background msg r (rr ∷ rrs) s q on here h =
      let (q', e, h') = log_rows-background msg r [] (rr ∷ rrs) 1 s q on here h in
      (q', ap (λ v. rows_in_time msg r 1 (rr ∷ rrs) v s) (sym (known-nil c)) ∙ e, h')

  -- If the engine's thread runs a round after each push, and there is memory, then for a message
  -- that is to be logged and an empty queue the statements of all its rows are executed, in order,
  -- and the queue is empty again. In a row, each field that a record may lack is that of the last
  -- record so far that has it.
  pub sqlite_log-in_time :
      (msg : Message) (r : Response) (s : Engine) (q : Fifo Text)
      → msg.response ≡ some r
      → s.disabled ≡ false
      → (s.rewrites_only && zstr r.appliedpolicy) ≡ false
      → s.bgrunning ≡ true
      → s.fifo ≡ some q
      → Holds q none
      → (q' : Fifo Text) × (log c
            (λ y. some (sql y))
            ndebug
            (λ _. true)
            (λ _. background lib)
            (some msg)
            s
          ≡ ok (
            pdns_ok,
            record s {
              fifo = some q';
              database = exec_all lib s.autocommit (map_text sql (message_rows c msg r)) s.database;
            },
          ))
        × Holds q' none
  sqlite_log-in_time msg r s q answered enabled wanted on here h =
      let (q', e, h') = log_records-background msg r r.rrs s q on here h in
      (
        q',
        log-wanted c (λ y. some (sql y)) ndebug (λ _. true) (λ _. background lib) msg r s answered
              enabled wanted
            ∙ ap (λ m. m >>= λ s'. ok (pdns_ok, s')) e,
        h',
      )
