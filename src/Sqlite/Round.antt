-- ===== src/Sqlite/Round.antt =====
-- One push of src/pdns-logger-sqlite.c's engine, and one round of its thread.
use pdns_logger.Base.{
  Bool, true, false, List, [], ◌∷◌, Option, none, some, ◌≡◌, ap, ◌∙◌, if◌then◌else◌, Result, ok,
  fault, assertion, ◌>>=◌,
}
use pdns_logger.Database.{Sqlite3, Db}
use pdns_logger.Database.Executed.{exec_once, db_exec_lem}
use pdns_logger.Queue.{Fifo, push, pop, push_item, pop_item}
use pdns_logger.Queue.Refine.{Holds, Agrees, push-Holds, pop-Holds, push_second}
use pdns_logger.Queue.Slot
use pdns_logger.Sqlite.{Engine, background, stored, taken_out}
use pdns_logger.Sqlite.Rows.{Row}
use pdns_logger.Status.{pdns_ok}
use pdns_logger.Text.{Text}

-- The database behind some statements, each given to `db_exec`.
abbrev pub exec_all : Sqlite3 → Bool → List Text → Db → Db
exec_all lib autocommit [] d = d
exec_all lib autocommit (sql ∷ sqls) d =
    exec_all lib autocommit sqls (exec_once lib autocommit sql d).1

abbrev pub map_text : (Row → Text) → List Row → List Text
map_text f [] = []
map_text f (x ∷ xs) = f x ∷ map_text f xs

pub Agrees-ok :
    {A B : Type 0} (m : Result (B × Fifo A)) {b : B} {s : Option A}
    → Agrees m (ok (b, s))
    → (q : Fifo A) × (m ≡ ok (b, q)) × Holds q s
Agrees-ok (ok (b, q)) h = (q, ap (λ x. ok (x, q)) h.0, h.1)
Agrees-ok (fault e) h = absurd h

module _ (lib : Sqlite3) where
  background-popped :
      (s : Engine) (q q' : Fifo Text) (sql : Text)
      → s.bgrunning ≡ true
      → pop q ≡ ok (some sql, q')
      → background lib (record s { fifo = some q })
        ≡ ok (record s { fifo = some q'; database = (exec_once lib s.autocommit sql s.database).1 })
  unfolding background pop_item
  background-popped s q q' sql on e =
      ap
        (λ b.
          if b
          then pop_item (some q) >>= (λ r. taken_out lib r (record s { fifo = some q }))
          else ok (record s { fifo = some q }))
        on
      ∙ ap
          (λ p.
            p >>= (λ r. ok (r.0, some r.1)) >>= (λ r. taken_out lib r (record s { fifo = some q })))
          e
      ∙ ap (λ o. ok (stored o (record s { fifo = some q' })))
          (db_exec_lem lib s.autocommit 0 sql s.database)

  pub background-some :
      (s : Engine) (q : Fifo Text) {sql : Text}
      → s.bgrunning ≡ true
      → Holds q (some sql)
      → (q' : Fifo Text) × (background lib (record s { fifo = some q })
          ≡ ok (record s {
            fifo = some q';
            database = (exec_once lib s.autocommit sql s.database).1;
          }))
        × Holds q' none
  unfolding Slot.pop
  background-some s q {sql} on h =
      let (q', e, h') = Agrees-ok (pop q) (pop-Holds q h) in
      (q', background-popped s q q' sql on e, h')

-- A push into an empty queue.
pub push_item-empty :
    (ndebug : Bool) (q : Fifo Text) (sql : Text)
    → Holds q none
    → (q' : Fifo Text) × (push_item ndebug true (some sql) (some q) ≡ ok (pdns_ok, some q'))
      × Holds q' (some sql)
unfolding push_item Slot.push
push_item-empty ndebug q sql h =
    let (q', e, h') =
      Agrees-ok (push ndebug true (some sql) q) {b = pdns_ok} {s = some sql}
        (push-Holds ndebug true (some sql) q h) in
    (q', ap (λ m. m >>= λ r. ok (r.0, some r.1)) e, h')

-- A push into a queue that holds something: an assertion, or nothing changes.
pub push_item-full :
    (q : Fifo Text) (sql : Text) {w : Text}
    → Holds q (some w)
    → (push_item false true (some sql) (some q) ≡ fault assertion)
      × ((q' : Fifo Text) × (push_item true true (some sql) (some q) ≡ ok (pdns_ok, some q'))
          × Holds q' (some w))
unfolding push_item
push_item-full q sql h =
    let (asserts, (q', e, h', _, _)) = push_second sql q h in
    (
      ap (λ m. m >>= λ r. ok (r.0, some r.1)) asserts,
      (q', ap (λ m. m >>= λ r. ok (r.0, some r.1)) e, h'),
    )
