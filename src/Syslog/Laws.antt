-- ===== src/Syslog/Laws.antt =====
-- The facility names and the options of src/pdns-logger-syslog.c.
use pdns_logger.Base.{
  true, false, not, ◌&&◌, List, [], ◌∷◌, Option, ◌≡◌, ◌↔◌, ◌⊎◌, inl, inr, Bool-cases, refl, ◌∙◌, ap,
  arith, if◌then◌else◌,
}
use pdns_logger.Config.Options.{sets, setting, is-text_eq}
use pdns_logger.Config.{Entry, Ini, string, handle_all}
use pdns_logger.Status.{pdns_ok, pdns_no}
use pdns_logger.Syslog.{
  Facility, log_auth, log_authpriv, log_cron, log_daemon, log_ftp, log_kern, log_local0, log_local1,
  log_local2, log_local3, log_local4, log_local5, log_local6, log_local7, log_lpr, log_mail,
  log_news, log_syslog, log_user, log_uucp, facility_names, lookup_from, logfacility_lookup, opened,
  Engine, initial, opt_handler, init,
}
use pdns_logger.Text.Compare.{text_eq_iff, strn_eq_lem}
use pdns_logger.Text.{Text, codes, zstr, flag, strn_eq}

-- The name of a facility.
pub facility_name : Facility → Text
facility_name log_auth = codes "auth"
facility_name log_authpriv = codes "authpriv"
facility_name log_cron = codes "cron"
facility_name log_daemon = codes "daemon"
facility_name log_ftp = codes "ftp"
facility_name log_kern = codes "kern"
facility_name log_local0 = codes "local0"
facility_name log_local1 = codes "local1"
facility_name log_local2 = codes "local2"
facility_name log_local3 = codes "local3"
facility_name log_local4 = codes "local4"
facility_name log_local5 = codes "local5"
facility_name log_local6 = codes "local6"
facility_name log_local7 = codes "local7"
facility_name log_lpr = codes "lpr"
facility_name log_mail = codes "mail"
facility_name log_news = codes "news"
facility_name log_syslog = codes "syslog"
facility_name log_user = codes "user"
facility_name log_uucp = codes "uucp"

lookup-facility_name : (f : Facility) → logfacility_lookup (facility_name f) ≡ (true, f)
unfolding logfacility_lookup facility_name strn_eq
lookup-facility_name log_auth = refl
lookup-facility_name _ = refl

-- Every entry of the table has the name of its facility.
abbrev Named : List (Facility × Text) → Type 0
Named [] = Unit {0}
Named ((f, name) ∷ rest) = (name ≡ facility_name f) × Named rest

lookup_from_sound :
    (table : List (Facility × Text)) (n : Text) (f : Facility)
    → Named table
    → lookup_from table n ≡ (true, f)
    → n ≡ facility_name f
unfolding lookup_from
lookup_from_sound [] n f h e = cc
lookup_from_sound ((g, name) ∷ rest) n f h e =
    ground (arith, strn_eq_lem name n, lookup_from_sound rest n f h.1)

lookup_from_default :
    (table : List (Facility × Text)) (n : Text)
    → (lookup_from table n).0 ≡ false
    → lookup_from table n ≡ (false, log_daemon)
unfolding lookup_from
lookup_from_default [] n e = refl
lookup_from_default ((g, name) ∷ rest) n e = ground (arith, lookup_from_default rest n)

facility_names-Named : Named facility_names
unfolding facility_name
facility_names-Named = ground arith

-- `logfacility_lookup` finds a facility exactly under its name, the whole name, and for a text that
-- it does not find it answers LOG_DAEMON.
pub logfacility_lookup_lem :
    (n : Text) (f : Facility)
    → ((logfacility_lookup n ≡ (true, f)) ↔ (n ≡ facility_name f))
      × (((logfacility_lookup n).0 ≡ true) ⊎ (logfacility_lookup n ≡ (false, log_daemon)))
unfolding logfacility_lookup
logfacility_lookup_lem n f = (
  (
    lookup_from_sound facility_names n f facility_names-Named,
    λ e. ap logfacility_lookup e ∙ lookup-facility_name f,
  ),
  elim (Bool-cases (lookup_from facility_names n).0) [
    | inl found ↦ inl found
    | inr not_found ↦ inr (lookup_from_default facility_names n not_found)
  ],
)

abbrev pub section : Text
section = codes "syslog"

opt_handler_lem :
    (s : Engine) (e : Entry)
    → opt_handler s e ≡ record s {
      rewrites_only =
          if sets section (codes "only-rewrites") e then flag (string e.value) else s.rewrites_only;
      disabled = if sets section (codes "disabled") e then flag (string e.value) else s.disabled;
    }
unfolding opt_handler
opt_handler_lem s e = ground (
  arith,
  is-text_eq e.section section,
  is-text_eq e.name (codes "ident"),
  is-text_eq e.name (codes "facility"),
  is-text_eq e.name (codes "level"),
  is-text_eq e.name (codes "only-rewrites"),
  is-text_eq e.name (codes "disabled"),
  text_eq_iff (string e.name) (codes "ident"),
  text_eq_iff (string e.name) (codes "facility"),
  text_eq_iff (string e.name) (codes "level"),
  text_eq_iff (string e.name) (codes "only-rewrites"),
  text_eq_iff (string e.name) (codes "disabled"),
)

-- The options `only-rewrites` and `disabled` of section [syslog] end at what the last entry for them
-- says. No other entry changes anything, `ident` and `facility` included.
pub syslog_settings :
    (es : List Entry) (s : Engine)
    → handle_all opt_handler s es ≡ record s {
      rewrites_only = setting section (codes "only-rewrites") flag es s.rewrites_only;
      disabled = setting section (codes "disabled") flag es s.disabled;
    }
unfolding setting
syslog_settings [] s = refl
syslog_settings (e ∷ es) s = rw opt_handler_lem (syslog_settings es _)

-- Whatever the configuration says, `syslog_init` opens the log under the identity "pdns-logger" and
-- the facility LOG_DAEMON; it does so exactly if the file could be read and does not disable the
-- engine.
pub syslog_init_lem :
    (ini : Ini) (inifile : Option Text)
    → let es = (ini (string inifile)).1 in
      let read = not (zstr inifile) && (ini (string inifile)).0 in
      let disabled = setting section (codes "disabled") flag es false in
      ((init ini inifile initial).1.events
        ≡ (if read && not disabled then opened (codes "pdns-logger") log_daemon ∷ [] else []))
      × ((init ini inifile initial).0 ≡ (if read then pdns_ok else pdns_no))
unfolding init facility_name
syslog_init_lem ini inifile =
    rw (syslog_settings (ini (string inifile)).1 initial)
      (ground (arith, lookup-facility_name log_daemon))
