-- ===== src/Database.antt =====
-- src/pdns-logger-sqlite.c, the part that talks to the database: db_exec and db_flush. The sqlite3
-- library is a parameter, whose answers may depend on all that was executed.
pub mod Executed
use mathlib.Core.Option
use pdns_logger.Base.{
  ℕ, zero, suc, ◌+◌, Bool, true, false, List, [], ◌∷◌, ◌++◌, Option, none, some, leb, if◌then◌else◌,
}
use pdns_logger.Status.{Status, pdns_no, pdns_ok}
use pdns_logger.Text.{Text, codes}

-- Whether `sqlite3_exec` returns 0 for a statement, given those executed before, and what
-- `sqlite3_get_autocommit` answers.
pub record Sqlite3 : Type 0 where
  pub succeeds : List Text → Text → Bool
  pub in_autocommit : List Text → Bool

-- The static variable `counter`, and the statements given to `sqlite3_exec`, in order.
pub record Db : Type 0 where
  pub counter : ℕ
  pub executed : List Text

abbrev pub commit : Text
commit = codes "COMMIT"

abbrev pub begin : Text
begin = codes "BEGIN"

-- `counter++` and the call of `sqlite3_exec`
abbrev pub attempt : Text → Db → Db
attempt sql d = record { counter = d.counter + 1; executed = d.executed ++ sql ∷ [] }

-- `db_flush`, given `db_exec` and the static variable `autocommit`
abbrev pub flush_by :
    (Text → Db → Option (Status × Db)) → Sqlite3 → Bool → Db → Option (Status × Db)
flush_by exec lib autocommit d =
    if autocommit
    then some (pdns_ok, d)
    else Option.bind (if lib.in_autocommit d.executed then some (pdns_ok, d) else exec commit d)
        (λ r. Option.map (λ (q : Status × Db). (pdns_ok, q.1)) (exec begin r.1))

-- `db_exec` and `db_flush` call each other; `none` means that the fuel, a bound on the depth of
-- the calls of `db_exec`, ran out.
unfoldable pub db_exec : Sqlite3 → Bool → ℕ → Text → Db → Option (Status × Db)
db_exec lib autocommit zero sql d = none
db_exec lib autocommit (suc fuel) sql d =
    let flushed =
      flush_by (db_exec lib autocommit fuel) lib autocommit
        (record (attempt sql d) { counter = 0 }) in
    if lib.succeeds d.executed sql
    then (if leb 50 (attempt sql d).counter
        then Option.map (λ (q : Status × Db). (pdns_ok, q.1)) flushed
        else some (pdns_ok, attempt sql d))
    else some (pdns_no, attempt sql d)
