-- ===== src/Tests/Daemons.antt =====
-- A daemon that logs a message, in the background and in the foreground.
use pdns_logger.Base.{true, List, [], ◌∷◌, ◌++◌, some, ◌≡◌, ◌≢◌, refl, arith, Result, ok, fault}
use mathlib.Core.Option
use pdns_logger.Config
use pdns_logger.Config.{Entry, Ini, Globals}
use pdns_logger.Daemon.{foreground, no_globals, configure, parse_cli}
use pdns_logger.Database.{Sqlite3, db_exec}
use pdns_logger.Dispatch.{Engines, loggers_log, loggers_initialize, loggers_rotate, loggers_halt}
use pdns_logger.Dns.{type2p, class2p, rcode2p}
use pdns_logger.Line.{log_message}
use pdns_logger.LogFile
use pdns_logger.Main.{
  World, logs, database_starts, database_round, child, End, success, failure, running, initialized,
  happen, happen_all, serve, main,
}
use pdns_logger.Main.Detached.{main_detached}
use pdns_logger.Main.Foreground.{halted, all_calls, main_foreground}
use pdns_logger.Queue
use pdns_logger.Queue.{push_item, pop_item}
use pdns_logger.Server.{rounds, scan, socket_start, socket_loop, pdns_socket_run}
use pdns_logger.Sqlite
use pdns_logger.Sqlite.{background, log_rows}
use pdns_logger.Sqlite.Lifecycle.{db_open}
use pdns_logger.Sqlite.Rows.{Row, carry}
use pdns_logger.Syslog
use pdns_logger.Syslog.{logfacility_lookup}
use pdns_logger.Tests.Lines.{libc, answer, message_of}
use pdns_logger.Tests.Servers.{good, takes, ends, reports_five, only_five}
use pdns_logger.Text.{Text, codes, strn_eq, atoi, decimal, decimal_int}

abbrev lib : Sqlite3
lib = record { succeeds = λ es sql. true; in_autocommit = λ es. true }

abbrev sql : Row → Text
sql x = x.rname

abbrev entries : List Entry
entries =
    record {
      section = some (codes "sqlite3");
      name = some (codes "dbfile");
      value = some (codes "/db");
    }
    ∷ []

abbrev ini : Ini
ini _ = (true, entries)

abbrev in_background : World
in_background = record {
  libc = libc;
  sqlite3 = lib;
  mprintf = λ x. some (sql x);
  ndebug = true;
  opts = [];
  default_config_file = codes "x.ini";
  ini = ini;
  opens = true;
  memory = true;
  creates = true;
  opening = record { handle = true; opened = true };
  forked = child;
  session = true;
  o_nonblock = 2048;
  answers = good;
  rounds = takes (some 6) ∷ [];
  events =
      database_starts
      ∷ logs (some (message_of (codes "a.") answer)) (λ _. true)
      ∷ database_round
      ∷ [];
}

abbrev in_foreground : World
in_foreground = record in_background { opts = foreground ∷ []; rounds = takes (some 6) ∷ ends ∷ [] }

abbrev idle : Engines
idle = record { file = LogFile.initial; sys = Syslog.initial; sql = Sqlite.initial }

abbrev end_of : Result End → End
end_of (ok end) = end
end_of (fault x) = record { code = failure; engines = idle; calls = [] }

abbrev engines_or : Result Engines → Engines
engines_or (ok e) = e
engines_or (fault x) = idle

abbrev detached_globals : Globals
detached_globals = record no_globals { config_file = some (codes "x.ini") }

configured :
    configure in_background.ini in_background.default_config_file in_background.opts
    ≡ some detached_globals
unfolding configure parse_cli Config.parse_config_file Config.opt_handler Config.is strn_eq
configured = refl

abbrev detached_end : End
detached_end = end_of (main in_background idle)

detached_runs : main in_background idle ≡ ok detached_end
unfolding main Config.opt_handler Config.is strn_eq loggers_log LogFile.log log_message
    loggers_initialize LogFile.init LogFile.opt_handler decimal_int type2p class2p rcode2p
    Syslog.log Syslog.init Syslog.opt_handler Sqlite.log Option.bind Config.parse_config_file
    configure parse_cli db_exec loggers_halt loggers_rotate LogFile.rotate LogFile.stop
    LogFile.write_log happen happen_all serve Queue.init Queue.pop Queue.push pdns_socket_run rounds
    scan socket_loop socket_start db_open Sqlite.Lifecycle.init Sqlite.Lifecycle.opt_handler
    Sqlite.Lifecycle.rotate Sqlite.Lifecycle.stop push_item pop_item carry background
    Sqlite.log_response log_rows logfacility_lookup Syslog.rotate Syslog.stop Syslog.write_log atoi
    decimal
detached_runs = refl

main_detached_example : detached_end.code ≢ success
main_detached_example =
    main_detached in_background idle detached_globals configured refl refl refl detached_runs

-- The message waits in the queue, and the file has only what the start executed.
detached_waits :
    (detached_end.code ≡ running)
    × (detached_end.engines.sql.database.executed
        ≡ (initialized in_background detached_globals idle).sql.database.executed)
unfolding main Config.opt_handler Config.is strn_eq loggers_log LogFile.log log_message
    loggers_initialize LogFile.init LogFile.opt_handler decimal_int type2p class2p rcode2p
    Syslog.log Syslog.init Syslog.opt_handler Sqlite.log Option.bind Config.parse_config_file
    configure parse_cli db_exec loggers_halt loggers_rotate LogFile.rotate LogFile.stop
    LogFile.write_log happen happen_all serve Queue.init Queue.pop Queue.push pdns_socket_run rounds
    scan socket_loop socket_start db_open Sqlite.Lifecycle.init Sqlite.Lifecycle.opt_handler
    Sqlite.Lifecycle.rotate Sqlite.Lifecycle.stop push_item pop_item carry background
    Sqlite.log_response log_rows logfacility_lookup Syslog.rotate Syslog.stop Syslog.write_log atoi
    decimal
detached_waits = (refl, refl)

abbrev foreground_globals : Globals
foreground_globals = record no_globals { config_file = some (codes "x.ini"); foreground = true }

configured_foreground :
    configure in_foreground.ini in_foreground.default_config_file in_foreground.opts
    ≡ some foreground_globals
unfolding configure parse_cli Config.parse_config_file Config.opt_handler Config.is strn_eq
configured_foreground = refl

abbrev foreground_engines : Engines
foreground_engines = engines_or (
    happen_all in_foreground in_foreground.events
      (initialized in_foreground foreground_globals idle))

foreground_runs :
    ((initialized in_foreground foreground_globals idle).sql.thread ≡ true)
    × (happen_all in_foreground in_foreground.events
          (initialized in_foreground foreground_globals idle)
        ≡ ok foreground_engines)
    × (foreground_engines.sql.bgrunning ≡ true)
    × (foreground_engines.sql.database.executed
        ≡ (initialized in_foreground foreground_globals idle).sql.database.executed
          ++ codes "a." ∷ [])
unfolding main Config.opt_handler Config.is strn_eq loggers_log LogFile.log log_message
    loggers_initialize LogFile.init LogFile.opt_handler decimal_int type2p class2p rcode2p
    Syslog.log Syslog.init Syslog.opt_handler Sqlite.log Option.bind Config.parse_config_file
    configure parse_cli db_exec loggers_halt loggers_rotate LogFile.rotate LogFile.stop
    LogFile.write_log happen happen_all serve Queue.init Queue.pop Queue.push pdns_socket_run rounds
    scan socket_loop socket_start db_open Sqlite.Lifecycle.init Sqlite.Lifecycle.opt_handler
    Sqlite.Lifecycle.rotate Sqlite.Lifecycle.stop push_item pop_item carry background
    Sqlite.log_response log_rows logfacility_lookup Syslog.rotate Syslog.stop Syslog.write_log atoi
    decimal
foreground_runs = (refl, refl, refl, refl)

main_foreground_example :
    main in_foreground idle
    ≡ ok (record {
      code = success;
      engines = halted foreground_engines;
      calls = all_calls 2048 good foreground_globals;
    })
main_foreground_example =
    main_foreground in_foreground idle foreground_globals foreground_engines configured_foreground
      refl refl (omega arith)
      (
        (refl, λ ready e. reports_five (some only_five) ready refl e),
        ((refl, λ ready e. absurd (cc)), tt),
      )
      refl foreground_runs.0 foreground_runs.1 foreground_runs.2
