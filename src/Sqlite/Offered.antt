-- ===== src/Sqlite/Offered.antt =====
-- One push of a release build of src/pdns-logger-sqlite.c, and one round of the engine's thread,
-- whatever the queue holds.
use pdns_logger.Base.{
  Result, Bool, true, false, List, [], ◌∷◌, ◌++◌, Option, none, some, ◌≡◌, refl, sym, ap, ◌∙◌,
  if◌then◌else◌, ok, ◌>>=◌,
}
use pdns_logger.Database.{Sqlite3, Db}
use pdns_logger.Database.Executed.{exec_once, db_exec_lem}
use pdns_logger.Queue.{Fifo, push, pop, push_item, pop_item}
use pdns_logger.Queue.Refine.{Holds, push-Holds, pop-Holds}
use pdns_logger.Queue.Slot
use pdns_logger.Sqlite.{Engine, background, stored, taken_out}
use pdns_logger.Sqlite.Round.{exec_all, Agrees-ok}
use pdns_logger.Sqlite.Slotted.{listed, offered}
use pdns_logger.Status.{Status, pdns_no, pdns_ok}
use pdns_logger.Text.{Text}

pub exec_all-append :
    (lib : Sqlite3) (a : Bool) (xs ys : List Text) (d : Db)
    → exec_all lib a (xs ++ ys) d ≡ exec_all lib a ys (exec_all lib a xs d)
exec_all-append lib a [] ys d = refl
exec_all-append lib a (x ∷ xs) ys d = exec_all-append lib a xs ys (exec_once lib a x d).1

abbrev pub offered_status : Bool → Option Text → Status
offered_status memory none = pdns_no
offered_status memory (some v) = if memory then pdns_ok else pdns_no

Slot-offered :
    (memory : Bool) (v w : Option Text)
    → Slot.push true memory v w ≡ ok (offered_status memory v, offered memory v w)
unfolding Slot.push
Slot-offered memory none none = refl
Slot-offered memory none (some w) = refl
Slot-offered true (some v) none = refl
Slot-offered true (some v) (some w) = refl
Slot-offered false (some v) none = refl
Slot-offered false (some v) (some w) = refl

-- A push in a release build.
pub push_item-offered :
    (memory : Bool) (v : Option Text) (q : Fifo Text) {w : Option Text}
    → Holds q w
    → (q' : Fifo Text) × (push_item true memory v (some q) ≡ ok (offered_status memory v, some q'))
      × Holds q' (offered memory v w)
unfolding push_item
push_item-offered memory v q {w} h =
    let (q', e, h') =
      Agrees-ok (push true memory v q) {b = offered_status memory v} {s = offered memory v w}
        (rw (sym (Slot-offered memory v w)) (push-Holds true memory v q h)) in
    (q', ap (λ m. m >>= λ r. ok (r.0, some r.1)) e, h')

-- What the thread does behind the wait, whatever the queue holds.
pub take-round :
    (lib : Sqlite3) (s : Engine) (q : Fifo Text) {w : Option Text}
    → Holds q w
    → (q' : Fifo Text) × ((pop_item (some q) >>= λ r. taken_out lib r (record s { fifo = some q }))
        ≡ ok (record s {
          fifo = some q';
          database = exec_all lib s.autocommit (listed w) s.database;
        }))
      × Holds q' none
unfolding pop_item Slot.pop
take-round lib s q {w} h =
    let (q', e, h') = Agrees-ok (pop q) {b = w} {s = none} (pop-Holds q h) in
    let go : Result (Option Text × Fifo Text) → Result Engine =
      λ p. p >>= (λ r. ok (r.0, some r.1)) >>= λ r. taken_out lib r (record s { fifo = some q }) in
    (q', ap go e ∙ by_value w q', h')
  where
    by_value :
        (w : Option Text) (q' : Fifo Text)
        → taken_out lib (w, some q') (record s { fifo = some q })
          ≡ ok (record s {
            fifo = some q';
            database = exec_all lib s.autocommit (listed w) s.database;
          })
    by_value none q' = refl
    by_value (some sql) q' =
        ap (λ o. ok (stored o (record s { fifo = some q' })))
          (db_exec_lem lib s.autocommit 0 sql s.database)

pub background-round :
    (lib : Sqlite3) (s : Engine) (q : Fifo Text) {w : Option Text}
    → s.bgrunning ≡ true
    → Holds q w
    → (q' : Fifo Text) × (background lib (record s { fifo = some q })
        ≡ ok (record s {
          fifo = some q';
          database = exec_all lib s.autocommit (listed w) s.database;
        }))
      × Holds q' none
unfolding background
background-round lib s q on h =
    let (q', e, h') = take-round lib s q h in
    (
      q',
      ap
            (λ b.
              if b
              then pop_item (some q) >>= (λ r. taken_out lib r (record s { fifo = some q }))
              else ok (record s { fifo = some q }))
            on
          ∙ e,
      h',
    )
