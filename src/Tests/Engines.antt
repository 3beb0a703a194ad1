-- ===== src/Tests/Engines.antt =====
-- Configurations, and the two text engines.
use pdns_logger.Base.{
  ◌++◌, arith, true, false, not, ◌&&◌, ◌||◌, List, [], ◌∷◌, Option, none, some, ◌≡◌, ◌↔◌, ◌⊎◌, inl,
  refl, ok, if◌then◌else◌,
}
use pdns_logger.Dispatch.Settings.{settings_lem}
use pdns_logger.Sqlite
use pdns_logger.Sqlite.Lifecycle
use pdns_logger.Config.Port.{port_entry, port_round_trip}
use pdns_logger.Config.Options.{setting}
use pdns_logger.Config
use pdns_logger.Config.{Entry, Ini, Globals, handle_all}
use pdns_logger.LogFile
use pdns_logger.LogFile.Laws.{logfile_init_lem, logfile_log_lem, configured, line_events}
use pdns_logger.LogFile.Rotation.{Call, message, hangup, run, rotate-silent}
use pdns_logger.Line.Overflow.{message_lines}
use pdns_logger.Status.{pdns_ok, pdns_no}
use pdns_logger.Syslog
use pdns_logger.Syslog.Laws.{facility_name, logfacility_lookup_lem, syslog_init_lem}
use pdns_logger.Tests.Lines.{libc, answer, message_of, answer-small}
use pdns_logger.Text.{Text, codes, atoi, flag, strn_eq, zstr}

abbrev entry : Text → Text → Text → Entry
entry s n v = record { section = some s; name = some n; value = some v }

abbrev options : List Entry
options =
    entry (codes "globals") (codes "bind-port") (codes "4242")
    ∷ entry (codes "logfile") (codes "logfile") (codes "/log")
    ∷ entry (codes "logfile") (codes "force-flush") (codes "1")
    ∷ entry (codes "globals") (codes "bind-port") (codes "53")
    ∷ entry (codes "syslog") (codes "facility") (codes "mail")
    ∷ []

abbrev options_behind : List Entry
options_behind = entry (codes "logfile") (codes "bind-port") (codes "1") ∷ []

abbrev pub ini : Ini
ini _ = (true, options)

abbrev pub path : Option Text
path = some (codes "x.ini")

abbrev pub globals : Globals
globals = record {
  user = none;
  group = none;
  config_file = path;
  bind_ip = none;
  bind_port = 0;
  allow_root = false;
  foreground = true;
  running = false;
  verbose = false;
  socket = 0;
}

parse-options :
    Config.parse_config_file ini path globals ≡ (pdns_ok, record globals { bind_port = 53 })
unfolding Config.parse_config_file Config.opt_handler Config.is atoi strn_eq
parse-options = refl

settings_lem_example :
    (handle_all Config.opt_handler globals options ≡ record globals {
      bind_ip = setting (codes "globals") (codes "bind-ip") some options none;
      bind_port = setting (codes "globals") (codes "bind-port") atoi options 0;
      allow_root = setting (codes "globals") (codes "allow-root") flag options false;
      foreground = setting (codes "globals") (codes "foreground") flag options true;
    })
    × (handle_all LogFile.opt_handler LogFile.initial options ≡ record LogFile.initial {
      file = setting (codes "logfile") (codes "logfile") some options none;
      force_flush = setting (codes "logfile") (codes "force-flush") flag options false;
      rewrites_only = setting (codes "logfile") (codes "only-rewrites") flag options true;
      disabled = setting (codes "logfile") (codes "disabled") flag options false;
    })
    × (handle_all Syslog.opt_handler Syslog.initial options ≡ record Syslog.initial {
      rewrites_only = setting (codes "syslog") (codes "only-rewrites") flag options true;
      disabled = setting (codes "syslog") (codes "disabled") flag options false;
    })
    × (handle_all Sqlite.Lifecycle.opt_handler Sqlite.initial options ≡ record Sqlite.initial {
      dbfile = setting (codes "sqlite3") (codes "dbfile") some options none;
      rewrites_only = setting (codes "sqlite3") (codes "only-rewrites") flag options true;
      disabled = setting (codes "sqlite3") (codes "disabled") flag options false;
      autocommit = setting (codes "sqlite3") (codes "autocommit") flag options true;
    })
settings_lem_example = settings_lem options globals LogFile.initial Syslog.initial Sqlite.initial

port_round_trip_example :
    (handle_all Config.opt_handler globals (options ++ port_entry 853 ∷ options_behind)).bind_port
    ≡ 853
port_round_trip_example =
    port_round_trip options options_behind globals 853 (omega arith) (refl, tt)

abbrev read_file : LogFile.Engine
read_file = configured ini path LogFile.initial

logfile_init_lem_example :
    let read = not (zstr path) && (ini (codes "x.ini")).0 in
    let ready = read && (not read_file.disabled && (not (zstr read_file.file) && true)) in
    let (status, t) = LogFile.init ini true path LogFile.initial in
    (t.fp ≡ ready)
    × (t.events ≡ (if ready then LogFile.opened (Config.string read_file.file) ∷ [] else []))
    × (status ≡ (if ready || (read && read_file.disabled) then pdns_ok else pdns_no))
logfile_init_lem_example = logfile_init_lem ini true path LogFile.initial refl

abbrev open_file : LogFile.Engine
open_file = record LogFile.initial { fp = true; file = some (codes "/log"); force_flush = true }

logfile_log_lem_example :
    LogFile.log libc true (some (message_of (codes "a.") answer)) open_file ≡ (
      ok pdns_ok,
      record open_file {
        events = line_events true (message_lines libc (message_of (codes "a.") answer) answer);
      },
    )
logfile_log_lem_example =
    logfile_log_lem libc true (message_of (codes "a.") answer) answer open_file refl refl refl refl
      (inl refl) answer-small

abbrev later_calls : List Call
later_calls = message (some (message_of (codes "a.") answer)) ∷ hangup true ∷ message none ∷ []

rotate-silent_example :
    (run libc true later_calls (LogFile.rotate false open_file).1).events ≡ LogFile.closed ∷ []
rotate-silent_example = rotate-silent libc true open_file later_calls refl

logfacility_lookup_lem_example :
    ((Syslog.logfacility_lookup (codes "mail") ≡ (true, Syslog.log_mail))
      ↔ (codes "mail" ≡ facility_name Syslog.log_mail))
    × (((Syslog.logfacility_lookup (codes "mail")).0 ≡ true)
        ⊎ (Syslog.logfacility_lookup (codes "mail") ≡ (false, Syslog.log_daemon)))
logfacility_lookup_lem_example = logfacility_lookup_lem (codes "mail") Syslog.log_mail

syslog_init_lem_example :
    let disabled = setting (codes "syslog") (codes "disabled") flag options false in
    ((Syslog.init ini path Syslog.initial).1.events
      ≡ (if not disabled then Syslog.opened (codes "pdns-logger") Syslog.log_daemon ∷ [] else []))
    × ((Syslog.init ini path Syslog.initial).0 ≡ pdns_ok)
syslog_init_lem_example = syslog_init_lem ini path
