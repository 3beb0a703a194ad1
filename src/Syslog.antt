-- ===== src/Syslog.antt =====
-- src/pdns-logger-syslog.c: the engine that logs to syslog. The calls of the syslog library are a
-- list of events.
pub mod Laws
use Prim.Native.String.{String}
use pdns_logger.Base.{
  ℕ, suc, Bool, true, false, List, [], ◌∷◌, ◌++◌, Option, none, some, length, if◌then◌else◌, Result,
  ok,
}
use pdns_logger.Config.{Entry, Ini, unusable, string, is, handle_all}
use pdns_logger.Line.{Libc, log_message}
use pdns_logger.Message.{Message}
use pdns_logger.Status.{Status, pdns_no, pdns_ok}
use pdns_logger.Text.{Text, codes, zstr, flag, strn_eq}

-- The constants LOG_AUTH to LOG_UUCP, whose values are those of the system's header.
pub data Facility : Type 0 where
  log_auth log_authpriv log_cron log_daemon log_ftp log_kern : Facility
  log_local0 log_local1 log_local2 log_local3 : Facility
  log_local4 log_local5 log_local6 log_local7 : Facility
  log_lpr log_mail log_news log_syslog log_user log_uucp : Facility

abbrev pub facility_names : List (Facility × Text)
facility_names =
    (log_auth, codes "auth")
    ∷ (log_authpriv, codes "authpriv")
    ∷ (log_cron, codes "cron")
    ∷ (log_daemon, codes "daemon")
    ∷ (log_ftp, codes "ftp")
    ∷ (log_kern, codes "kern")
    ∷ (log_local0, codes "local0")
    ∷ (log_local1, codes "local1")
    ∷ (log_local2, codes "local2")
    ∷ (log_local3, codes "local3")
    ∷ (log_local4, codes "local4")
    ∷ (log_local5, codes "local5")
    ∷ (log_local6, codes "local6")
    ∷ (log_local7, codes "local7")
    ∷ (log_lpr, codes "lpr")
    ∷ (log_mail, codes "mail")
    ∷ (log_news, codes "news")
    ∷ (log_syslog, codes "syslog")
    ∷ (log_user, codes "user")
    ∷ (log_uucp, codes "uucp")
    ∷ []

-- The loop of `logfacility_lookup`; the flag is its return value.
pub lookup_from : List (Facility × Text) → Text → Bool × Facility
lookup_from [] nfacility = (false, log_daemon)
lookup_from ((f, name) ∷ rest) nfacility =
    if strn_eq name nfacility (suc (length name)) then (true, f) else lookup_from rest nfacility

-- `logfacility_lookup`, with a place for its result
unfoldable pub logfacility_lookup : Text → Bool × Facility
unfolding lookup_from
logfacility_lookup nfacility = lookup_from facility_names nfacility

pub data Event : Type 0 where
  opened : Text → Facility → Event
  wrote : Text → Event
  closed : Event

-- The static variables. `ident` and `facility` are set nowhere.
pub record Engine : Type 0 where
  pub ident : Option Text
  pub facility : Text
  pub rewrites_only : Bool
  pub disabled : Bool
  pub events : List Event

abbrev pub initial : Engine
initial = record {
  ident = some (codes "pdns-logger");
  facility = codes "daemon";
  rewrites_only = true;
  disabled = false;
  events = [];
}

abbrev pub emit : Event → Engine → Engine
emit x s = record s { events = s.events ++ x ∷ [] }

abbrev set_option : Entry → Engine → Engine
set_option e s =
    if is e.name (codes "ident")
    then s
    else if is e.name (codes "facility")
    then s
    else if is e.name (codes "level")
    then s
    else if is e.name (codes "only-rewrites")
    then record s { rewrites_only = flag (string e.value) }
    else if is e.name (codes "disabled")
    then record s { disabled = flag (string e.value) }
    else s

-- `opt_handler`
unfoldable pub opt_handler : Engine → Entry → Engine
opt_handler s e =
    if unusable e then s else if is e.section (codes "syslog") then set_option e s else s

-- `openlog` with the identity and the facility
abbrev start : Engine → Status × Engine
start s = if s.disabled then (pdns_ok, s) else (
  pdns_ok,
  emit
      (opened (if zstr s.ident then codes "pdns-logger" else string s.ident)
        (logfacility_lookup s.facility).1)
      s,
)

-- `syslog_init`
unfoldable pub init : Ini → Option Text → Engine → Status × Engine
init ini inifile s =
    if zstr inifile
    then (pdns_no, s)
    else (let (read, entries) = ini (string inifile) in
        let s' = handle_all opt_handler s entries in if read then start s' else (pdns_no, s'))

-- `syslog_rotate`
unfoldable pub rotate : Engine → Status × Engine
rotate s = (pdns_ok, s)

-- `syslog_stop`
unfoldable pub stop : Engine → Status × Engine
stop s = (pdns_ok, emit closed s)

-- the macro `write_log`
unfoldable pub write_log : Text → Engine → Engine
write_log str s = emit (wrote str) s

-- `syslog_log`
unfoldable pub log : Libc → Bool → Option Message → Engine → Result Status × Engine
log c ndebug rawpb s = log_message c write_log ndebug s.disabled s.rewrites_only rawpb s
