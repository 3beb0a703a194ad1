-- ===== src/Daemon/Settings.antt =====
-- Where each setting of the daemon comes from.
use pdns_logger.Base.{
  Bool, true, false, ◌&&◌, ◌||◌, List, [], ◌∷◌, Option, none, some, ◌≡◌, refl, ap, ◌∙◌,
  if◌then◌else◌, Bool-cases, inl, inr,
}
use pdns_logger.Config.{Ini, Globals, parse_config_file, opt_handler, handle_all, string}
use pdns_logger.Config.Laws.{global_settings}
use pdns_logger.Config.Options.{setting}
use pdns_logger.Daemon.{
  Opt, help, foreground, verbose, unknown, other, config, parse_cli, no_globals, configure, or_exit,
  read_config, with_default,
}
use pdns_logger.Status.{pdns_no, pdns_ok}
use pdns_logger.Text.{Text, codes, zstr, flag, atoi}

-- The options before the first -h and before the first that is not known.
abbrev pub heeded : List Opt → List Opt
heeded [] = []
heeded (help ∷ opts) = []
heeded (unknown ∷ opts) = []
heeded (other ∷ opts) = []
heeded (config file ∷ opts) = config file ∷ heeded opts
heeded (foreground ∷ opts) = foreground ∷ heeded opts
heeded (verbose ∷ opts) = verbose ∷ heeded opts

-- No option that is not known stands before the first -h.
abbrev pub accepted : List Opt → Bool
accepted [] = true
accepted (help ∷ opts) = true
accepted (unknown ∷ opts) = false
accepted (other ∷ opts) = false
accepted (config file ∷ opts) = accepted opts
accepted (foreground ∷ opts) = accepted opts
accepted (verbose ∷ opts) = accepted opts

abbrev pub last_config : List Opt → Option Text → Option Text
last_config [] file = file
last_config (config f ∷ opts) file = last_config opts (some f)
last_config (_ ∷ opts) file = last_config opts file

abbrev pub is_foreground : Opt → Bool
is_foreground foreground = true
is_foreground _ = false

abbrev pub is_verbose : Opt → Bool
is_verbose verbose = true
is_verbose _ = false

abbrev pub given : (Opt → Bool) → List Opt → Bool → Bool
given p [] before = before
given p (opt ∷ opts) before = given p opts (p opt || before)

abbrev pub cli_globals : List Opt → Globals → Globals
cli_globals opts g = record g {
  config_file = last_config (heeded opts) g.config_file;
  foreground = given is_foreground (heeded opts) g.foreground;
  verbose = given is_verbose (heeded opts) g.verbose;
}

parse_cli_lem :
    (opts : List Opt) (g : Globals)
    → parse_cli opts g ≡ ((if accepted opts then pdns_ok else pdns_no), cli_globals opts g)
unfolding parse_cli
parse_cli_lem [] g = refl
parse_cli_lem (help ∷ opts) g = refl
parse_cli_lem (unknown ∷ opts) g = refl
parse_cli_lem (other ∷ opts) g = refl
parse_cli_lem (config file ∷ opts) g = parse_cli_lem opts _
parse_cli_lem (foreground ∷ opts) g = parse_cli_lem opts _
parse_cli_lem (verbose ∷ opts) g = parse_cli_lem opts _

-- The configuration file that is read.
abbrev pub config_path : Text → List Opt → Text
config_path file opts =
    let chosen = last_config (heeded opts) none in if zstr chosen then file else string chosen

abbrev chosen_path : Text → Option Text → Text
chosen_path file o = if zstr o then file else string o

with_default_lem :
    (file : Text) (g : Globals)
    → with_default file g ≡ record g { config_file = some (chosen_path file g.config_file) }
with_default_lem file g = by_path g.config_file
  where
    by_path :
        (o : Option Text)
        → with_default file (record g { config_file = o })
          ≡ record g { config_file = some (chosen_path file o) }
    by_path none = refl
    by_path (some []) = refl
    by_path (some (x ∷ t)) = refl

chosen_path-named :
    (file : Text) (o : Option Text)
    → zstr (some file) ≡ false
    → zstr (some (chosen_path file o)) ≡ false
chosen_path-named file none h = h
chosen_path-named file (some []) h = h
chosen_path-named file (some (x ∷ t)) h = refl

parse_config_file_lem :
    (ini : Ini) (path : Text) (g : Globals)
    → zstr (some path) ≡ false
    → or_exit (parse_config_file ini (some path) g)
      ≡ (if (ini path).0 then some (handle_all opt_handler g (ini path).1) else none)
unfolding parse_config_file
parse_config_file_lem ini path g h = elim (Bool-cases (ini path).0) [
  | inl read ↦ rw h (rw read refl)
  | inr unread ↦ rw h (rw unread refl)
]

read_config_lem :
    (ini : Ini) (file : Text) (g : Globals)
    → zstr (some file) ≡ false
    → let path = chosen_path file g.config_file in
      read_config ini file (some g) ≡ (
        if (ini path).0
        then some (handle_all opt_handler (record g { config_file = some path }) (ini path).1)
        else none)
read_config_lem ini file g named =
    let path = chosen_path file g.config_file in
    ap (λ (g' : Globals). or_exit (parse_config_file ini g'.config_file g'))
      (with_default_lem file g)
    ∙ parse_config_file_lem ini path (record g { config_file = some path })
        (chosen_path-named file g.config_file named)

-- The daemon goes on to its engines exactly if the options before the first -h are known and the
-- configuration file can be read: that of the last -c, or the default one, whose name is not empty.
-- Then -f only sets what the configuration file may set otherwise, and the address and the port come
-- from the file alone.
pub configure_lem :
    (ini : Ini) (file : Text) (opts : List Opt)
    → zstr (some file) ≡ false
    → let (read, es) = ini (config_path file opts) in
      let section = codes "globals" in
      configure ini file opts ≡ (
        if accepted opts && read
        then some (record no_globals {
          config_file = some (config_path file opts);
          verbose = given is_verbose (heeded opts) false;
          foreground =
              setting section
                (codes "foreground")
                flag
                es
                (given is_foreground (heeded opts) false);
          allow_root = setting section (codes "allow-root") flag es false;
          bind_ip = setting section (codes "bind-ip") some es none;
          bind_port = setting section (codes "bind-port") atoi es 0;
        })
        else none)
unfolding configure
configure_lem ini file opts named =
    let g = cli_globals opts no_globals in
    let path = config_path file opts in
    let parsed = ap (λ r. read_config ini file (or_exit r)) (parse_cli_lem opts no_globals) in
    elim (Bool-cases (accepted opts)) [
      | inl known ↦ rw known (
          parsed
          ∙ ap (λ b. read_config ini file (or_exit ((if b then pdns_ok else pdns_no), g))) known
          ∙ read_config_lem ini file g named
          ∙ ap (λ h. if (ini path).0 then some h else none)
              (global_settings (ini path).1 (record g { config_file = some path })))
      | inr strange ↦ rw strange (
          parsed
          ∙ ap (λ b. read_config ini file (or_exit ((if b then pdns_ok else pdns_no), g))) strange)
    ]
