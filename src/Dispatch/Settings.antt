-- ===== src/Dispatch/Settings.antt =====
-- The option handlers of the daemon and of its engines, each on the whole configuration file.
use pdns_logger.Base.{List, some, ◌≡◌}
use pdns_logger.Config
use pdns_logger.Config.{Entry, Globals, handle_all}
use pdns_logger.Config.Laws.{global_settings}
use pdns_logger.Config.Options.{setting}
use pdns_logger.LogFile
use pdns_logger.LogFile.Laws.{logfile_settings}
use pdns_logger.Sqlite
use pdns_logger.Sqlite.Laws.{sqlite_settings}
use pdns_logger.Sqlite.Lifecycle
use pdns_logger.Syslog
use pdns_logger.Syslog.Laws.{syslog_settings}
use pdns_logger.Text.{codes, atoi, flag}

-- Whatever the entries of a configuration file, each handler leaves in each member what the last
-- entry for its option in its section says, and changes nothing else: those of the daemon and of
-- the file and the sqlite3 engine for all their options, that of the syslog engine for only-rewrites
-- and disabled. The options ident, facility and level of [syslog] change nothing.
pub settings_lem :
    (es : List Entry) (g : Globals) (f : LogFile.Engine) (y : Syslog.Engine) (s : Sqlite.Engine)
    → (handle_all Config.opt_handler g es ≡ record g {
      bind_ip = setting (codes "globals") (codes "bind-ip") some es g.bind_ip;
      bind_port = setting (codes "globals") (codes "bind-port") atoi es g.bind_port;
      allow_root = setting (codes "globals") (codes "allow-root") flag es g.allow_root;
      foreground = setting (codes "globals") (codes "foreground") flag es g.foreground;
    })
      × (handle_all LogFile.opt_handler f es ≡ record f {
        file = setting (codes "logfile") (codes "logfile") some es f.file;
        force_flush = setting (codes "logfile") (codes "force-flush") flag es f.force_flush;
        rewrites_only = setting (codes "logfile") (codes "only-rewrites") flag es f.rewrites_only;
        disabled = setting (codes "logfile") (codes "disabled") flag es f.disabled;
      })
      × (handle_all Syslog.opt_handler y es ≡ record y {
        rewrites_only = setting (codes "syslog") (codes "only-rewrites") flag es y.rewrites_only;
        disabled = setting (codes "syslog") (codes "disabled") flag es y.disabled;
      })
      × (handle_all Sqlite.Lifecycle.opt_handler s es ≡ record s {
        dbfile = setting (codes "sqlite3") (codes "dbfile") some es s.dbfile;
        rewrites_only = setting (codes "sqlite3") (codes "only-rewrites") flag es s.rewrites_only;
        disabled = setting (codes "sqlite3") (codes "disabled") flag es s.disabled;
        autocommit = setting (codes "sqlite3") (codes "autocommit") flag es s.autocommit;
      })
settings_lem es g f y s =
    (global_settings es g, logfile_settings es f, syslog_settings es y, sqlite_settings es s)
