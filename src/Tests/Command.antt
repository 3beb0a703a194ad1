-- ===== src/Tests/Command.antt =====
-- The command line and the configuration file.
use pdns_logger.Base.{true, false, ◌&&◌, List, [], ◌∷◌, some, none, ◌≡◌, refl, if◌then◌else◌}
use pdns_logger.Config.{Entry, Ini, Globals}
use pdns_logger.Config.Options.{setting}
use pdns_logger.Daemon.{Opt, help, foreground, config, unknown, no_globals, configure}
use pdns_logger.Daemon.Settings.{
  heeded, accepted, config_path, given, is_foreground, is_verbose, configure_lem,
}
use pdns_logger.Text.{codes, flag, atoi, strn_eq}
use pdns_logger.Config

abbrev opts : List Opt
opts = foreground ∷ config (codes "x.ini") ∷ help ∷ unknown ∷ []

abbrev entries : List Entry
entries =
    record {
      section = some (codes "globals");
      name = some (codes "foreground");
      value = some (codes "0");
    }
    ∷ []

abbrev ini : Ini
ini _ = (true, entries)

-- The file has its way against -f, and -h does not end the program.
config_against_option :
    configure ini (codes "/etc/pdns-logger.ini") opts
    ≡ some (record no_globals { config_file = some (codes "x.ini"); foreground = false })
unfolding configure Config.opt_handler Config.is atoi strn_eq
config_against_option = refl

configure_lem_example : configure ini (codes "/etc/pdns-logger.ini") opts ≡ (
    if accepted opts && true
    then some (record no_globals {
      config_file = some (config_path (codes "/etc/pdns-logger.ini") opts);
      verbose = given is_verbose (heeded opts) false;
      foreground =
          setting
            (codes "globals")
            (codes "foreground")
            flag
            entries
            (given is_foreground (heeded opts) false);
      allow_root = setting (codes "globals") (codes "allow-root") flag entries false;
      bind_ip = setting (codes "globals") (codes "bind-ip") some entries none;
      bind_port = setting (codes "globals") (codes "bind-port") atoi entries 0;
    })
    else none)
configure_lem_example = configure_lem ini (codes "/etc/pdns-logger.ini") opts refl
