-- ===== src/Database/Executed.antt =====
-- What db_exec of src/pdns-logger-sqlite.c executes, without its recursion.
use mathlib.Core.Option
use pdns_logger.Base.{
  ℕ, suc, ◌+◌, ◌<◌, Bool, true, false, ◌||◌, not, List, [], ◌∷◌, ◌++◌, some, ◌≡◌, refl, arith, leb,
  if◌then◌else◌, append_assoc, append-nil, Bool-cases, inl, inr,
}
use pdns_logger.Database.{Sqlite3, Db, commit, begin, attempt, flush_by, db_exec}
use pdns_logger.Status.{Status, pdns_no, pdns_ok}
use pdns_logger.Text.{Text}

-- Every fiftieth statement, if it succeeds, ends the transaction and begins another one.
abbrev pub tail : Sqlite3 → Bool → Text → Db → List Text
tail lib autocommit sql d =
    if not (lib.succeeds d.executed sql) || (not (leb 50 (d.counter + 1)) || autocommit)
    then []
    else if lib.in_autocommit (d.executed ++ sql ∷ [])
    then begin ∷ []
    else commit ∷ begin ∷ []

abbrev pub next_counter : Sqlite3 → Bool → Text → Db → ℕ
next_counter lib autocommit sql d =
    if not (lib.succeeds d.executed sql) || not (leb 50 (d.counter + 1))
    then d.counter + 1
    else if autocommit
    then 0
    else if lib.in_autocommit (d.executed ++ sql ∷ [])
    then 1
    else 2

abbrev pub exec_once : Sqlite3 → Bool → Text → Db → Status × Db
exec_once lib autocommit sql d = (
  (if lib.succeeds d.executed sql then pdns_ok else pdns_no),
  record {
    counter = next_counter lib autocommit sql d;
    executed = (d.executed ++ sql ∷ []) ++ tail lib autocommit sql d;
  },
)

-- Soon after a flush a statement is only executed and counted.
db_exec-low :
    (lib : Sqlite3) (autocommit : Bool) (fuel : ℕ) (sql : Text) (d : Db)
    → d.counter < 49
    → db_exec lib autocommit (suc fuel) sql d
      ≡ some ((if lib.succeeds d.executed sql then pdns_ok else pdns_no), attempt sql d)
unfolding db_exec
db_exec-low lib autocommit fuel sql d low = ground arith

-- `db_flush` after the counter was reset
flushed : Sqlite3 → Bool → List Text → Db
flushed lib autocommit es =
    if autocommit
    then record { counter = 0; executed = es }
    else if lib.in_autocommit es
    then record { counter = 1; executed = es ++ begin ∷ [] }
    else record { counter = 2; executed = es ++ commit ∷ begin ∷ [] }

flush_lem :
    (lib : Sqlite3) (autocommit : Bool) (fuel : ℕ) (es : List Text)
    → flush_by
        (db_exec lib autocommit (suc fuel))
        lib
        autocommit
        (record { counter = 0; executed = es })
      ≡ some (pdns_ok, flushed lib autocommit es)
unfolding flushed Option.bind
flush_lem lib true fuel es = refl
flush_lem lib false fuel es = elim (Bool-cases (lib.in_autocommit es)) [
  | inl outside ↦ rw outside (
      rw (db_exec-low lib false fuel begin (record { counter = 0; executed = es }) (omega arith))
        refl)
  | inr inside ↦ rw inside (
      rw (db_exec-low lib false fuel commit (record { counter = 0; executed = es }) (omega arith)) (
        rw
          (db_exec-low lib false fuel begin (record { counter = 1; executed = es ++ commit ∷ [] })
            (omega arith))
          (rw (append_assoc es (commit ∷ []) (begin ∷ [])) refl)))
]

-- `db_exec` never calls itself through `db_flush` more than one level deep. It gives the
-- statement to the library, and then, if this is a success and at least the fiftieth statement since
-- the last flush, and autocommit is off, a COMMIT, unless no transaction is open, and a BEGIN.
pub db_exec_lem :
    (lib : Sqlite3) (autocommit : Bool) (fuel : ℕ) (sql : Text) (d : Db)
    → db_exec lib autocommit (suc (suc fuel)) sql d ≡ some (exec_once lib autocommit sql d)
unfolding db_exec flushed
db_exec_lem lib autocommit fuel sql d =
    let f = flush_lem lib autocommit fuel (d.executed ++ sql ∷ []) in
    ground (arith, f, append-nil (d.executed ++ sql ∷ []))
