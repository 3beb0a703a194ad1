-- ===== src/Main/Happenings.antt =====
-- What the events of a running server in src/pdns-logger.c do to the sqlite3 engine.
use mathlib.Core.Path.{subst}
use pdns_logger.Base.{
  ℕ, Bool, true, false, List, [], ◌∷◌, Option, ◌≡◌, refl, sym, ap, ◌∙◌, if◌then◌else◌, Result, ok,
  fault, ◌>>=◌, not, ◌&&◌, arith,
}
use pdns_logger.Database.{Sqlite3}
use pdns_logger.Dispatch.{Engines, after_file, after_sys, after_sql, loggers_log, loggers_rotate}
use pdns_logger.LogFile
use pdns_logger.Main.{
  World, Event, logs, hangs_up, database_starts, database_round, engines_of, by_thread, happen,
  happen_all,
}
use pdns_logger.Message.{Message}
use pdns_logger.Sqlite
use pdns_logger.Sqlite.{background}
use pdns_logger.Sqlite.Laws.{db_open-thread}
use pdns_logger.Sqlite.Lifecycle.{Opening, rotate, db_open, background_starts}
use pdns_logger.Sqlite.Untouched.{
  Queued, KeepsLogged, log-Keeps, KeepsThread, background-KeepsThread,
}
use pdns_logger.Status.{Status, pdns_ok}
use pdns_logger.Syslog

-- A step, if it does not fault, takes the sqlite3 engine to one that stands in a relation to it.
abbrev pub Takes : (Sqlite.Engine → Sqlite.Engine → Type 0) → Engines → Result Engines → Type 0
Takes R e (ok e') = R e.sql e'.sql
Takes R e (fault x) = Unit {0}

-- `pdns_loggers_log` changes nothing of it but the queue.
loggers_log-Takes :
    (w : World) (msg : Option Message) (memory : ℕ → Bool) (e : Engines)
    → Takes Queued e (happen w (logs msg memory) e)
unfolding happen loggers_log
loggers_log-Takes w msg memory e = after_files (LogFile.log w.libc w.ndebug msg e.file)
  where
    after_sqls :
        (m : Result (Status × Sqlite.Engine)) (f : LogFile.Engine) (s : Syslog.Engine)
        → KeepsLogged e.sql m
        → Takes Queued e (engines_of (after_sql m (record { file = f; sys = s; sql = e.sql })))
    after_sqls (ok (status, q)) f s h = h
    after_sqls (fault x) f s h = tt

    after_syss :
        (m : Result Status × Syslog.Engine) (f : LogFile.Engine)
        → Takes Queued e (
            engines_of (
              after_sys m
                (record e { file = f })
                (λ e.
                  after_sql
                    (Sqlite.log w.libc w.mprintf w.ndebug memory (λ _ s. ok s) msg e.sql)
                    e)))
    after_syss (ok status, s) f =
        after_sqls (Sqlite.log w.libc w.mprintf w.ndebug memory (λ _ s. ok s) msg e.sql) f s
          (log-Keeps w.libc w.mprintf w.ndebug memory msg e.sql)
    after_syss (fault x, s) f = tt

    after_files :
        (m : Result Status × LogFile.Engine)
        → Takes Queued e (
            engines_of (
              after_file m e (λ e. after_sys (Syslog.log w.libc w.ndebug msg e.sys) e (λ e.
                after_sql
                  (Sqlite.log w.libc w.mprintf w.ndebug memory (λ _ s. ok s) msg e.sql)
                  e))))
    after_files (ok status, f) = after_syss (Syslog.log w.libc w.ndebug msg e.sys) f
    after_files (fault x, f) = tt

Takes-map :
    (R P : Sqlite.Engine → Sqlite.Engine → Type 0)
    → ((s t : Sqlite.Engine) → R s t → P s t)
    → (e : Engines) (m : Result Engines) → Takes R e m
    → Takes P e m
Takes-map R P f e (ok e') h = f e.sql e'.sql h
Takes-map R P f e (fault x) h = tt

abbrev pub SameThread : Sqlite.Engine → Sqlite.Engine → Type 0
SameThread s t = t.thread ≡ s.thread

abbrev pub SameDatabase : Sqlite.Engine → Sqlite.Engine → Type 0
SameDatabase s t = (t.database ≡ s.database) × (t.thread ≡ s.thread)

rotate-thread :
    (lib : Sqlite3) (answer : Opening) (s : Sqlite.Engine)
    → (rotate lib answer s).1.thread ≡ s.thread
unfolding rotate
rotate-thread lib answer s = by_db s.db
  where
    by_db :
        (b : Bool)
        → (if◌then◌else◌ {A = Status × Sqlite.Engine} b
            (pdns_ok, (db_open lib answer s).1)
            (pdns_ok, s)).1.thread
          ≡ s.thread
    by_db true = db_open-thread lib answer s
    by_db false = refl

by_thread-SameThread :
    (f : Sqlite.Engine → Result Sqlite.Engine) (e : Engines)
    → KeepsThread e.sql (f e.sql)
    → Takes SameThread e (by_thread f e)
by_thread-SameThread f e h = by_case e.sql.thread (f e.sql) h
  where
    by_case :
        (b : Bool) (m : Result Sqlite.Engine)
        → KeepsThread e.sql m
        → Takes SameThread e (if b then (m >>= λ s. ok (record e { sql = s })) else ok e)
    by_case true (ok s) h = h
    by_case true (fault x) h = tt
    by_case false m h = refl

-- No event makes the database thread or ends it.
pub happen-SameThread : (w : World) (x : Event) (e : Engines) → Takes SameThread e (happen w x e)
unfolding happen
happen-SameThread w (logs msg memory) e =
    Takes-map Queued SameThread (λ s t h. ap (λ (u : Sqlite.Engine). u.thread) h) e
      (happen w (logs msg memory) e) (loggers_log-Takes w msg memory e)
happen-SameThread w (hangs_up reopens answer) e =
    unfold loggers_rotate in rotate-thread w.sqlite3 answer e.sql
happen-SameThread w database_starts e = by_thread-SameThread (λ s. ok (background_starts s)) e refl
happen-SameThread w database_round e =
    by_thread-SameThread (background w.sqlite3) e (background-KeepsThread w.sqlite3 e.sql)

abbrev pub is_hangup : Event → Bool
is_hangup (hangs_up reopens answer) = true
is_hangup _ = false

by_thread-idle :
    (f : Sqlite.Engine → Result Sqlite.Engine) (e : Engines)
    → e.sql.thread ≡ false
    → Takes SameDatabase e (by_thread f e)
by_thread-idle f e off =
    subst
      (λ b. Takes SameDatabase e (if b then (f e.sql >>= λ s. ok (record e { sql = s })) else ok e))
      (sym off) (refl, refl)

-- Without the thread, nothing but a rotation touches the database.
happen-SameDatabase :
    (w : World) (x : Event) (e : Engines)
    → is_hangup x ≡ false
    → e.sql.thread ≡ false
    → Takes SameDatabase e (happen w x e)
unfolding happen
happen-SameDatabase w (logs msg memory) e no_hangup off =
    Takes-map Queued SameDatabase
      (λ s t h. (ap (λ (u : Sqlite.Engine). u.database) h, ap (λ (u : Sqlite.Engine). u.thread) h))
      e (happen w (logs msg memory) e) (loggers_log-Takes w msg memory e)
happen-SameDatabase w (hangs_up reopens answer) e no_hangup off = absurd (cc)
happen-SameDatabase w database_starts e no_hangup off =
    by_thread-idle (λ s. ok (background_starts s)) e off
happen-SameDatabase w database_round e no_hangup off = by_thread-idle (background w.sqlite3) e off

abbrev pub no_hangups : List Event → Bool
no_hangups [] = true
no_hangups (x ∷ xs) = not (is_hangup x) && no_hangups xs

-- A step after another.
Takes->>= :
    (R : Sqlite.Engine → Sqlite.Engine → Type 0)
    → ((s t u : Sqlite.Engine) → R s t → R t u → R s u)
    → (e : Engines) (m : Result Engines) (f : Engines → Result Engines) → Takes R e m
    → ((e' : Engines) → R e.sql e'.sql → Takes R e' (f e'))
    → Takes R e (m >>= f)
Takes->>= R trans e (ok e') f h k = then_on (f e') (k e' h)
  where
    then_on : (m : Result Engines) → Takes R e' m → Takes R e m
    then_on (ok e'') k = trans e.sql e'.sql e''.sql h k
    then_on (fault x) k = tt
Takes->>= R trans e (fault x) f h k = tt

pub happen_all-SameThread :
    (w : World) (xs : List Event) (e : Engines) → Takes SameThread e (happen_all w xs e)
unfolding happen_all
happen_all-SameThread w [] e = refl
happen_all-SameThread w (x ∷ xs) e =
    Takes->>= SameThread (λ s t u h k. k ∙ h) e (happen w x e) (happen_all w xs)
      (happen-SameThread w x e) (λ e' h. happen_all-SameThread w xs e')

pub happen_all-SameDatabase :
    (w : World) (xs : List Event) (e : Engines)
    → no_hangups xs ≡ true
    → e.sql.thread ≡ false
    → Takes SameDatabase e (happen_all w xs e)
unfolding happen_all
happen_all-SameDatabase w [] e none_hangs off = (refl, refl)
happen_all-SameDatabase w (x ∷ xs) e none_hangs off =
    Takes->>= SameDatabase (λ s t u h k. (k.0 ∙ h.0, k.1 ∙ h.1)) e (happen w x e) (happen_all w xs)
      (happen-SameDatabase w x e (ground arith) off)
      (λ e' h. happen_all-SameDatabase w xs e' (ground arith) (h.1 ∙ off))
