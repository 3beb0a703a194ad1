-- ===== src/Config/Laws.antt =====
-- The option handler of src/pdns-logger-ini.c against the description of its options.
use pdns_logger.Base.{List, [], ◌∷◌, some, ◌≡◌, refl, arith, if◌then◌else◌}
use pdns_logger.Config.Options.{sets, setting, is-text_eq}
use pdns_logger.Config.{Entry, Globals, string, opt_handler, handle_all}
use pdns_logger.Text.Compare.{text_eq_iff}
use pdns_logger.Text.{Text, codes, atoi, flag}

abbrev section : Text
section = codes "globals"

-- What one entry does to each member.
opt_handler_lem :
    (g : Globals) (e : Entry)
    → opt_handler g e ≡ record g {
      bind_ip = if sets section (codes "bind-ip") e then some (string e.value) else g.bind_ip;
      bind_port = if sets section (codes "bind-port") e then atoi (string e.value) else g.bind_port;
      allow_root =
          if sets section (codes "allow-root") e then flag (string e.value) else g.allow_root;
      foreground =
          if sets section (codes "foreground") e then flag (string e.value) else g.foreground;
    }
unfolding opt_handler
opt_handler_lem g e = ground (
  arith,
  is-text_eq e.section section,
  is-text_eq e.name (codes "bind-ip"),
  is-text_eq e.name (codes "bind-port"),
  is-text_eq e.name (codes "allow-root"),
  is-text_eq e.name (codes "foreground"),
  text_eq_iff (string e.name) (codes "bind-ip"),
  text_eq_iff (string e.name) (codes "bind-port"),
  text_eq_iff (string e.name) (codes "allow-root"),
  text_eq_iff (string e.name) (codes "foreground"),
)

-- Whatever the entries of a configuration file, the handler leaves in each member what the last
-- entry for its option says, and changes no member that has no option.
pub global_settings :
    (es : List Entry) (g : Globals)
    → handle_all opt_handler g es ≡ record g {
      bind_ip = setting section (codes "bind-ip") some es g.bind_ip;
      bind_port = setting section (codes "bind-port") atoi es g.bind_port;
      allow_root = setting section (codes "allow-root") flag es g.allow_root;
      foreground = setting section (codes "foreground") flag es g.foreground;
    }
unfolding setting
global_settings [] g = refl
global_settings (e ∷ es) g = rw opt_handler_lem (global_settings es _)
