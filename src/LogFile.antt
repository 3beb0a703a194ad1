-- ===== src/LogFile.antt =====
-- src/pdns-logger-file.c: the engine that logs to a file. The answers of `fopen` and `freopen` are
-- arguments, and what is done to the file is a list of events.
pub mod Laws
pub mod Rotation
pub mod Discipline
pub mod Threads
use pdns_logger.Base.{
  ℕ, Bool, true, false, List, [], ◌∷◌, ◌++◌, Option, none, some, if◌then◌else◌, Result, ok,
}
use pdns_logger.Config.{Entry, Ini, unusable, string, is, handle_all}
use pdns_logger.Line.{Libc, log_message}
use pdns_logger.Message.{Message}
use pdns_logger.Status.{Status, pdns_no, pdns_ok}
use pdns_logger.Text.{Text, codes, zstr, flag}

pub data Event : Type 0 where
  opened : Text → Event
  wrote : Text → Event
  flushed closed : Event

-- The static variables; `fp` says that the pointer is not NULL. `events` is what has been done to
-- the file so far.
pub record Engine : Type 0 where
  pub fp : Bool
  pub file : Option Text
  pub force_flush : Bool
  pub rewrites_only : Bool
  pub disabled : Bool
  pub events : List Event

abbrev pub initial : Engine
initial = record {
  fp = false;
  file = none;
  force_flush = false;
  rewrites_only = true;
  disabled = false;
  events = [];
}

abbrev pub emit : Event → Engine → Engine
emit x s = record s { events = s.events ++ x ∷ [] }

abbrev set_option : Entry → Engine → Engine
set_option e s =
    if is e.name (codes "logfile")
    then record s { file = some (string e.value) }
    else if is e.name (codes "force-flush")
    then record s { force_flush = flag (string e.value) }
    else if is e.name (codes "only-rewrites")
    then record s { rewrites_only = flag (string e.value) }
    else if is e.name (codes "disabled")
    then record s { disabled = flag (string e.value) }
    else s

-- `opt_handler`
unfoldable pub opt_handler : Engine → Entry → Engine
opt_handler s e =
    if unusable e then s else if is e.section (codes "logfile") then set_option e s else s

-- `fp = fopen(file, "a")`, and the status that follows from it
abbrev pub open_file : Bool → Engine → Status × Engine
open_file opens s =
    if opens
    then (pdns_ok, emit (opened (string s.file)) (record s { fp = true }))
    else (pdns_no, record s { fp = false })

-- behind a configuration that was read
abbrev pub start : Bool → Engine → Status × Engine
start opens s =
    if s.disabled then (pdns_ok, s) else if zstr s.file then (pdns_no, s) else open_file opens s

-- `logfile_init`
unfoldable pub init : Ini → Bool → Option Text → Engine → Status × Engine
init ini opens inifile s =
    if zstr inifile
    then (pdns_no, s)
    else (let (read, entries) = ini (string inifile) in
        let s' = handle_all opt_handler s entries in if read then start opens s' else (pdns_no, s'))

-- `logfile_rotate`. A `freopen` that fails has closed the old stream.
unfoldable pub rotate : Bool → Engine → Status × Engine
rotate opens s =
    if s.fp
    then (if opens
        then (pdns_ok, emit (opened (string s.file)) s)
        else (pdns_no, emit closed (record s { fp = false })))
    else (pdns_ok, s)

-- `logfile_stop`. `fp` keeps its value.
unfoldable pub stop : Engine → Status × Engine
stop s = let s' = record s { file = none } in (pdns_ok, (if s.fp then emit closed s' else s'))

-- the macro `write_log`
unfoldable pub write_log : Text → Engine → Engine
write_log str s =
    if s.fp
    then (if s.force_flush then emit flushed (emit (wrote str) s) else emit (wrote str) s)
    else s

-- `logfile_log`
unfoldable pub log : Libc → Bool → Option Message → Engine → Result Status × Engine
log c ndebug rawpb s = log_message c write_log ndebug s.disabled s.rewrites_only rawpb s
