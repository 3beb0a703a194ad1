-- ===== src/Daemon.antt =====
-- src/pdns-logger.c: the command line, and main up to the start of the engines. `getopt` is a
-- parameter: the list of what its calls return before -1.
pub mod Settings
use pdns_logger.Base.{ℕ, Bool, true, false, List, [], ◌∷◌, Option, none, some, if◌then◌else◌}
use pdns_logger.Config.{Ini, Globals, parse_config_file}
use pdns_logger.Status.{Status, pdns_no, pdns_ok, pdns_fork, pdns_retry}
use pdns_logger.Text.{Text, zstr}

-- A return value of `getopt` with `optarg`; `unknown` is '?', whatever `optopt` is.
pub data Opt : Type 0 where
  help foreground verbose unknown other : Opt
  config : Text → Opt

-- `parse_cli`
unfoldable pub parse_cli : List Opt → Globals → Status × Globals
parse_cli [] g = (pdns_ok, g)
parse_cli (help ∷ opts) g = (pdns_ok, g)
parse_cli (config file ∷ opts) g = parse_cli opts (record g { config_file = some file })
parse_cli (foreground ∷ opts) g = parse_cli opts (record g { foreground = true })
parse_cli (verbose ∷ opts) g = parse_cli opts (record g { verbose = true })
parse_cli (unknown ∷ opts) g = (pdns_no, g)
parse_cli (other ∷ opts) g = (pdns_no, g)

-- `memset(&globals, 0, sizeof(globals_t))`
abbrev pub no_globals : Globals
no_globals = record {
  user = none;
  group = none;
  config_file = none;
  bind_ip = none;
  bind_port = 0;
  allow_root = false;
  foreground = false;
  running = false;
  verbose = false;
  socket = 0;
}

-- Whether a status is PDNS_OK.
abbrev pub succeeded : Status → Bool
succeeded pdns_ok = true
succeeded pdns_no = false
succeeded pdns_fork = false
succeeded pdns_retry = false

-- DEFAULT_CONFIG_FILE, for a configuration file that is not set
abbrev pub with_default : Text → Globals → Globals
with_default file g = if zstr g.config_file then record g { config_file = some file } else g

-- The globals, if the status with them is PDNS_OK; `exit(EXIT_FAILURE)` otherwise.
abbrev pub or_exit : Status × Globals → Option Globals
or_exit (status, g) = if succeeded status then some g else none

abbrev pub read_config : Ini → Text → Option Globals → Option Globals
read_config ini file none = none
read_config ini file (some g) =
    let g' = with_default file g in or_exit (parse_config_file ini g'.config_file g')

-- `main`, up to `loggers_initialize`; `none` is an exit with EXIT_FAILURE.
unfoldable pub configure : Ini → Text → List Opt → Option Globals
unfolding parse_cli parse_config_file
configure ini file opts = read_config ini file (or_exit (parse_cli opts no_globals))
