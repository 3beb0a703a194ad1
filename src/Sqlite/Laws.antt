-- ===== src/Sqlite/Laws.antt =====
-- The options of src/pdns-logger-sqlite.c, and the thread from the start to the stop.
use pdns_logger.Base.{
  ap₂, ◌>>=◌, Bool, false, not, ◌&&◌, List, [], ◌∷◌, Option, none, some, ◌≡◌, refl, ap, ◌∙◌, arith,
  if◌then◌else◌, ok, Result, true, fault, bad_thread, stuck, Bool-cases, inl, inr,
}
use pdns_logger.Config.Options.{sets, setting, is-text_eq}
use pdns_logger.Config.{Entry, Ini, string, handle_all}
use pdns_logger.Database.{Sqlite3, db_exec, flush_by}
use pdns_logger.Sqlite.{Engine, initial, execute}
use pdns_logger.Sqlite.Lifecycle.{
  Opening, opt_handler, init, stop, start, db_open, flush, create_table, create_index,
  background_starts,
}
use pdns_logger.Sqlite.Untouched.{stored-only}
use pdns_logger.Status.{Status, pdns_ok}
use pdns_logger.Text.Compare.{text_eq_iff}
use pdns_logger.Text.{Text, codes, zstr, flag}

abbrev pub section : Text
section = codes "sqlite3"

opt_handler_lem :
    (s : Engine) (e : Entry)
    → opt_handler s e ≡ record s {
      dbfile = if sets section (codes "dbfile") e then some (string e.value) else s.dbfile;
      rewrites_only =
          if sets section (codes "only-rewrites") e then flag (string e.value) else s.rewrites_only;
      disabled = if sets section (codes "disabled") e then flag (string e.value) else s.disabled;
      autocommit =
          if sets section (codes "autocommit") e then flag (string e.value) else s.autocommit;
    }
unfolding opt_handler
opt_handler_lem s e = ground (
  arith,
  is-text_eq e.section section,
  is-text_eq e.name (codes "dbfile"),
  is-text_eq e.name (codes "only-rewrites"),
  is-text_eq e.name (codes "disabled"),
  is-text_eq e.name (codes "autocommit"),
  text_eq_iff (string e.name) (codes "dbfile"),
  text_eq_iff (string e.name) (codes "only-rewrites"),
  text_eq_iff (string e.name) (codes "disabled"),
  text_eq_iff (string e.name) (codes "autocommit"),
)

-- Each option of section [sqlite3] ends at what the last entry for it says; nothing else changes.
pub sqlite_settings :
    (es : List Entry) (s : Engine)
    → handle_all opt_handler s es ≡ record s {
      dbfile = setting section (codes "dbfile") some es s.dbfile;
      rewrites_only = setting section (codes "only-rewrites") flag es s.rewrites_only;
      disabled = setting section (codes "disabled") flag es s.disabled;
      autocommit = setting section (codes "autocommit") flag es s.autocommit;
    }
unfolding setting
sqlite_settings [] s = refl
sqlite_settings (e ∷ es) s = rw opt_handler_lem (sqlite_settings es _)

-- Of the engine `db_open` changes the handle and the database.
db_open-only :
    (lib : Sqlite3) (answer : Opening) (s : Engine)
    → (db_open lib answer s).1
      ≡ record s { db = answer.handle; database = (db_open lib answer s).1.database }
unfolding db_open
db_open-only lib answer s = elim (Bool-cases answer.opened) [
  | inl e ↦ rw e opens
  | inr e ↦ rw e refl
]
  where
    first : Engine
    first = record s { db = answer.handle }

    opens : flush lib (execute lib create_index (execute lib create_table first)) ≡ record first {
      database = (flush lib (execute lib create_index (execute lib create_table first))).database;
    }
    opens =
        let a = execute lib create_table first in
        let b = execute lib create_index a in
        let c = flush lib b in
        stored-only (flush_by (db_exec lib b.autocommit 2) lib b.autocommit b.database) b
        ∙ ap (λ (t : Engine). record t { database = c.database })
            (stored-only (db_exec lib a.autocommit 2 create_index a.database) a
              ∙ ap (λ (t : Engine). record t { database = b.database })
                  (stored-only (db_exec lib first.autocommit 2 create_table first.database) first))

pub db_open-thread :
    (lib : Sqlite3) (answer : Opening) (s : Engine) → (db_open lib answer s).1.thread ≡ s.thread
db_open-thread lib answer s = ap (λ (t : Engine). t.thread) (db_open-only lib answer s)

db_open-bgrunning :
    (lib : Sqlite3) (answer : Opening) (s : Engine)
    → (db_open lib answer s).1.bgrunning ≡ s.bgrunning
db_open-bgrunning lib answer s = ap (λ (t : Engine). t.bgrunning) (db_open-only lib answer s)

-- The configuration could be read, does not disable the engine, and names a database.
abbrev pub ready : Ini → Option Text → Bool
ready ini inifile =
    let es = (ini (string inifile)).1 in
    (not (zstr inifile) && (ini (string inifile)).0)
    && (not (setting section (codes "disabled") flag es false)
        && not (zstr (setting section (codes "dbfile") some es none)))

start-thread :
    (lib : Sqlite3) (memory created : Bool) (answer : Opening) (s : Engine)
    → s.thread ≡ false
    → (start lib memory created answer s).1.thread
      ≡ ((not s.disabled && not (zstr s.dbfile)) && created)
start-thread lib memory created answer s h = elim (Bool-cases s.disabled) [
  | inl off ↦ rw off h
  | inr on ↦ elim (Bool-cases (zstr s.dbfile)) [
    | inl none_set ↦ rw on (rw none_set h)
    | inr set ↦ rw on (rw set (db_open-thread lib answer _))
  ]
]

init-thread :
    (lib : Sqlite3) (ini : Ini) (memory created : Bool) (answer : Opening) (inifile : Option Text)
    → (init lib ini memory created answer inifile initial).1.thread ≡ (ready ini inifile && created)
unfolding init
init-thread lib ini memory created answer inifile =
    let es = (ini (string inifile)).1 in
    let e = sqlite_settings es initial in
    let begun =
      start-thread lib memory created answer (handle_all opt_handler initial es)
        (ap (λ (t : Engine). t.thread) e)
      ∙ ap (λ (t : Engine). (not t.disabled && not (zstr t.dbfile)) && created) e in
    elim (Bool-cases (zstr inifile)) [
      | inl z ↦ rw z refl
      | inr z ↦ elim (Bool-cases (ini (string inifile)).0) [
        | inl read ↦ rw z (rw read begun)
        | inr unread ↦ rw z (rw unread (ap (λ (t : Engine). t.thread) e))
      ]
    ]

start-bgrunning :
    (lib : Sqlite3) (memory created : Bool) (answer : Opening) (s : Engine)
    → (start lib memory created answer s).1.bgrunning ≡ s.bgrunning
start-bgrunning lib memory created answer s = elim (Bool-cases s.disabled) [
  | inl off ↦ rw off refl
  | inr on ↦ elim (Bool-cases (zstr s.dbfile)) [
    | inl none_set ↦ rw on (rw none_set refl)
    | inr set ↦ rw on (rw set (db_open-bgrunning lib answer _))
  ]
]

init-bgrunning :
    (lib : Sqlite3) (ini : Ini) (memory created : Bool) (answer : Opening) (inifile : Option Text)
    → (init lib ini memory created answer inifile initial).1.bgrunning ≡ false
unfolding init
init-bgrunning lib ini memory created answer inifile =
    let es = (ini (string inifile)).1 in
    let e = ap (λ (t : Engine). t.bgrunning) (sqlite_settings es initial) in
    elim (Bool-cases (zstr inifile)) [
      | inl z ↦ rw z refl
      | inr z ↦ elim (Bool-cases (ini (string inifile)).0) [
        | inl read ↦ rw z (
            rw read
              (start-bgrunning lib memory created answer (handle_all opt_handler initial es) ∙ e))
        | inr unread ↦ rw z (rw unread e)
      ]
    ]

abbrev answered : Result Engine → Result (Status × Engine)
answered m = m >>= λ s. ok (pdns_ok, s)

pub stop_cases :
    (s : Engine) (thread begun : Bool)
    → s.thread ≡ thread
    → s.bgrunning ≡ begun
    → stop s ≡ (
        if thread
        then (if begun then ok (pdns_ok, record s { bgrunning = false }) else fault stuck)
        else fault bad_thread)
unfolding stop
stop_cases s thread begun e h = ap₂ (λ t b. answered (stops t b)) e h ∙ by_case thread begun
  where
    stops : Bool → Bool → Result Engine
    stops t b =
        if t
        then (if b then ok (record s { bgrunning = false }) else fault stuck)
        else fault bad_thread

    by_case :
        (t b : Bool)
        → answered (stops t b) ≡ (
            if t
            then (if b then ok (pdns_ok, record s { bgrunning = false }) else fault stuck)
            else fault bad_thread)
    by_case true true = refl
    by_case true false = refl
    by_case false b = refl

-- `logsqlite_init` has created its thread exactly if the configuration could be read, does not
-- disable the engine and names a database, whether or not the database can be opened, and
-- pthread_create succeeded. If it has not, a later `logsqlite_stop` joins a thread that was never
-- created. If it has, `logsqlite_stop` stops the thread if that has begun, and otherwise does not
-- come back.
pub stop_after_init :
    (lib : Sqlite3) (ini : Ini) (memory created : Bool) (answer : Opening) (inifile : Option Text)
    → let t = (init lib ini memory created answer inifile initial).1 in
      (t.thread ≡ (ready ini inifile && created))
      × (stop t ≡ fault (if ready ini inifile && created then stuck else bad_thread))
      × (stop (background_starts t) ≡ (
          if ready ini inifile && created
          then ok (pdns_ok, record t { bgrunning = false })
          else fault bad_thread))
stop_after_init lib ini memory created answer inifile =
    let t = (init lib ini memory created answer inifile initial).1 in
    let e = init-thread lib ini memory created answer inifile in
    (
      e,
      stop_cases t (ready ini inifile && created) false e
            (init-bgrunning lib ini memory created answer inifile)
          ∙ by_ready (ready ini inifile && created),
      stop_cases (background_starts t) (ready ini inifile && created) true e refl,
    )
  where
    by_ready :
        (b : Bool)
        → ◌≡◌ {A = Result (Status × Engine)}
            (if b then fault stuck else fault bad_thread)
            (fault (if b then stuck else bad_thread))
    by_ready true = refl
    by_ready false = refl
