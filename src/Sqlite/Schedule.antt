-- ===== src/Sqlite/Schedule.antt =====
-- What logsqlite_log of src/pdns-logger-sqlite.c gets executed in a release build, whenever the
-- engine's thread comes between its pushes.
use mathlib.Core.List.{Sublist}
use mathlib.Core.Path.{subst}
use pdns_logger.Base.{
  append-nil, ℕ, ◌+◌, Bool, true, false, ◌&&◌, List, [], ◌∷◌, ◌++◌, Option, none, some, ◌≡◌, refl,
  sym, ap, ◌∙◌, if◌then◌else◌, Result, ok, ◌>>=◌,
}
use pdns_logger.Database.{Sqlite3}
use pdns_logger.Line.{Libc}
use pdns_logger.Message.{Record, Response, Message}
use pdns_logger.Queue.{Fifo, push_item}
use pdns_logger.Queue.Refine.{Holds}
use pdns_logger.Sqlite.{Engine, background, log, log_rows, log_records, push_row}
use pdns_logger.Sqlite.Known.{known, known-nil, rows_for, carry-known, rows_behind, message_rows}
use pdns_logger.Sqlite.Round.{exec_all}
use pdns_logger.Sqlite.Rows.{Row, Carried, nothing_carried, row}
use pdns_logger.Sqlite.Slotted.{listed, offered, passed, statements, left, slotted-Sublist}
use pdns_logger.Sqlite.Wanted.{log-wanted}
use pdns_logger.Status.{Status, pdns_ok}
use pdns_logger.Text.{Text, zstr}
use pdns_logger.Sqlite.Offered.{exec_all-append, push_item-offered, background-round}

module _ (c : Libc) (lib : Sqlite3) (f : Row → Option Text) (memory comes : ℕ → Bool) where
  -- What the thread does behind the t-th push.
  abbrev pub round_if : ℕ → Engine → Result Engine
  round_if t s = if comes t then background lib s else ok s

  -- A round or none.
  after_round :
      (b : Bool) (s : Engine) (q : Fifo Text) {w : Option Text}
      → s.bgrunning ≡ true
      → Holds q w
      → (q' : Fifo Text) × ((if b
            then background lib (record s { fifo = some q })
            else ok (record s { fifo = some q }))
          ≡ ok (record s {
            fifo = some q';
            database = exec_all lib s.autocommit (if b then listed w else []) s.database;
          }))
        × Holds q' (if b then none else w)
  after_round true s q on h = background-round lib s q on h
  after_round false s q on h = (q, refl, h)

  rows_moved : Message → Response → ℕ → List Record → Carried → Engine → Result Engine
  rows_moved = log_rows c f true memory round_if

  -- The engine behind statements that were executed.
  abbrev moved : Fifo Text → List Text → Engine → Engine
  moved q sqls s = record s { fifo = some q; database = exec_all lib s.autocommit sqls s.database }

  push_row-moved :
      (t : ℕ) (x : Row) (s : Engine) (q : Fifo Text) {w : Option Text}
      → s.bgrunning ≡ true
      → s.fifo ≡ some q
      → Holds q w
      → (q' : Fifo Text) × (push_row c f true memory round_if t x s
          ≡ ok (moved q' (if comes t then listed (offered (memory t) (f x) w) else []) s))
        × Holds q' (if comes t then none else offered (memory t) (f x) w)
  push_row-moved t x s q on here h =
      let (q₁, e₁, h₁) = push_item-offered (memory t) (f x) q h in
      let (q₂, e₂, h₂) = after_round (comes t) s q₁ on h₁ in
      let go : Result (Status × Option (Fifo Text)) → Result Engine =
        λ m. m >>= λ r. round_if t (record s { fifo = r.1 }) in
      (q₂, ap (λ o. go (push_item true (memory t) (f x) o)) here ∙ ap go e₁ ∙ e₂, h₂)

  slotted-round :
      (t : ℕ) (x : Row) (xs : List Row) (w : Option Text)
      → let w' = offered (memory t) (f x) w in
        ((if comes t then listed w' else [])
            ++ passed f memory comes (t + 1) xs (if comes t then none else w')
          ≡ passed f memory comes t (x ∷ xs) w)
        × (left f memory comes (t + 1) xs (if comes t then none else w')
            ≡ left f memory comes t (x ∷ xs) w)
  slotted-round t x xs w = by_round (comes t) (offered (memory t) (f x) w)
    where
      by_round :
          (b : Bool) (w' : Option Text)
          → ((if b then listed w' else [])
                ++ passed f memory comes (t + 1) xs (if b then none else w')
              ≡ (if b
                  then listed w' ++ passed f memory comes (t + 1) xs none
                  else passed f memory comes (t + 1) xs w'))
            × (left f memory comes (t + 1) xs (if b then none else w') ≡ (
                if b
                then left f memory comes (t + 1) xs none
                else left f memory comes (t + 1) xs w'))
      by_round true w' = (refl, refl)
      by_round false w' = (refl, refl)

  log_rows-moved :
      (msg : Message) (r : Response) (before rest : List Record) (t : ℕ) (s : Engine)
      (q : Fifo Text) {w : Option Text}
      → s.bgrunning ≡ true
      → s.fifo ≡ some q
      → Holds q w
      → let xs = rows_behind c msg r before rest in
        (q' : Fifo Text) × (rows_moved msg r t rest (known c before) s
          ≡ ok (moved q' (passed f memory comes t xs w) s))
        × Holds q' (left f memory comes t xs w)
  unfolding rows_moved log_rows rows_behind
  log_rows-moved msg r before [] t s q on here h = (q, ap (λ o. ok (record s { fifo = o })) here, h)
  log_rows-moved msg r before (rr ∷ rest) t s q {w = w} on here h =
      let x = row c msg r rr.name (known c (before ++ rr ∷ [])) in
      let w' = offered (memory t) (f x) w in
      let xs = rows_behind c msg r (before ++ rr ∷ []) rest in
      let out = if comes t then listed w' else [] in
      let (q₁, e₁, h₁) = push_row-moved t x s q on here h in
      let (q₂, e₂, h₂) =
        log_rows-moved msg r (before ++ rr ∷ []) rest (t + 1) (moved q₁ out s) q₁ on refl h₁ in
      let (same_out, same_left) = slotted-round t x xs w in
      let more = passed f memory comes (t + 1) xs (if comes t then none else w') in
      (
        q₂,
        ap
              (λ v.
                push_row c f true memory round_if t (row c msg r rr.name v) s
                >>= rows_moved msg r (t + 1) rest v)
              (carry-known c before rr)
            ∙ ap (λ m. m >>= rows_moved msg r (t + 1) rest (known c (before ++ rr ∷ []))) e₁
            ∙ e₂
            ∙ ap (λ d. ok (record s { fifo = some q₂; database = d }))
                (sym (exec_all-append lib s.autocommit out more s.database))
            ∙ ap (λ l. ok (moved q₂ l s)) same_out,
        subst (Holds q₂) same_left h₂,
      )

  log_records-moved :
      (msg : Message) (r : Response) (rrs : List Record) (s : Engine) (q : Fifo Text)
      {w : Option Text}
      → s.bgrunning ≡ true
      → s.fifo ≡ some q
      → Holds q w
      → (q' : Fifo Text) × (log_records c f true memory round_if msg r rrs s
          ≡ ok (moved q' (passed f memory comes 1 (rows_for c msg r rrs) w) s))
        × Holds q' (left f memory comes 1 (rows_for c msg r rrs) w)
  unfolding log_rows rows_moved
  log_records-moved msg r [] s q {w = w} on here h =
      let (q₁, e₁, h₁) = push_row-moved 1 (row c msg r none nothing_carried) s q on here h in
      let (same_out, same_left) = slotted-round 1 (row c msg r none nothing_carried) [] w in
      (
        q₁,
        e₁ ∙ ap (λ l. ok (moved q₁ l s)) (sym (append-nil _) ∙ same_out),
        subst (Holds q₁) same_left h₁,
      )
  log_records-moved msg r (rr ∷ rrs) s q on here h =
      let (q', e, h') = log_rows-moved msg r [] (rr ∷ rrs) 1 s q on here h in
      (q', ap (λ v. rows_moved msg r 1 (rr ∷ rrs) v s) (sym (known-nil c)) ∙ e, h')

  -- In a release build, whatever `malloc` and sqlite3_mprintf answer, and behind whichever pushes
  -- the engine's thread runs a round: for a message that is to be logged the answer is PDNS_OK, the
  -- statements that are executed are those that pass a single slot at these rounds, and the queue
  -- holds what is left in the slot. They and it are some of what the queue held and of the
  -- message's statements, in their order.
  pub sqlite_log-schedule :
      (msg : Message) (r : Response) (s : Engine) (q : Fifo Text) {w : Option Text}
      → msg.response ≡ some r
      → s.disabled ≡ false
      → (s.rewrites_only && zstr r.appliedpolicy) ≡ false
      → s.bgrunning ≡ true
      → s.fifo ≡ some q
      → Holds q w
      → let xs = message_rows c msg r in
        let out = passed f memory comes 1 xs w in
        let waiting = left f memory comes 1 xs w in
        (q' : Fifo Text) × (log c f true memory round_if (some msg) s
          ≡ ok (
            pdns_ok,
            record s { fifo = some q'; database = exec_all lib s.autocommit out s.database },
          ))
        × Holds q' waiting
        × Sublist (out ++ listed waiting) (listed w ++ statements f xs)
  sqlite_log-schedule msg r s q {w = w} answered enabled wanted on here h =
      let (q', e, h') = log_records-moved msg r r.rrs s q on here h in
      (
        q',
        log-wanted c f true memory round_if msg r s answered enabled wanted
            ∙ ap (λ m. m >>= λ s'. ok (pdns_ok, s')) e,
        h',
        slotted-Sublist f memory comes 1 (message_rows c msg r) w,
      )
