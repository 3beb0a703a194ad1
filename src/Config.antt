-- ===== src/Config.antt =====
-- src/pdns-logger-ini.c: the [globals] section of the configuration, and what the option handlers of
-- the engines share with it. `ini_parse` of the bundled inih library is a parameter: it answers
-- whether it returned 0, and the calls that it made of the handler. All handlers return 1.
pub mod Options
pub mod Laws
pub mod Port
use Prim.Native.String.{String}
use pdns_logger.Base.{
  ℕ, suc, Bool, true, false, ◌||◌, List, [], ◌∷◌, Option, none, some, length, if◌then◌else◌,
}
use pdns_logger.Status.{Status, pdns_no, pdns_ok}
use pdns_logger.Text.{Text, codes, zstr, strn_eq, atoi, flag}

-- The arguments `section`, `name` and `value` of one call of a handler.
pub record Entry : Type 0 where
  pub section : Option Text
  pub name : Option Text
  pub value : Option Text

abbrev pub Ini : Type 0
Ini = Text → Bool × List Entry

abbrev pub unusable : Entry → Bool
unusable e = zstr e.section || zstr e.name || zstr e.value

-- The string behind a pointer that is not NULL.
abbrev pub string : Option Text → Text
string none = []
string (some t) = t

-- `!strncmp(s, "...", sizeof("..."))`
unfoldable pub is : Option Text → Text → Bool
is s literal = strn_eq (string s) literal (suc (length literal))

-- `globals_t`. The `int` members are bit patterns, the `char` members are flags.
pub record Globals : Type 0 where
  pub user : Option Text
  pub group : Option Text
  pub config_file : Option Text
  pub bind_ip : Option Text
  pub bind_port : ℕ
  pub allow_root : Bool
  pub foreground : Bool
  pub running : Bool
  pub verbose : Bool
  pub socket : ℕ

abbrev set_global : Entry → Globals → Globals
set_global e g =
    if is e.name (codes "bind-ip")
    then record g { bind_ip = some (string e.value) }
    else if is e.name (codes "bind-port")
    then record g { bind_port = atoi (string e.value) }
    else if is e.name (codes "allow-root")
    then record g { allow_root = flag (string e.value) }
    else if is e.name (codes "foreground")
    then record g { foreground = flag (string e.value) }
    else g

-- `opt_handler`
unfoldable pub opt_handler : Globals → Entry → Globals
opt_handler g e =
    if unusable e then g else if is e.section (codes "globals") then set_global e g else g

-- The calls that `ini_parse` makes, in order.
abbrev pub handle_all {ℓ} : {S : Type ℓ} → (S → Entry → S) → S → List Entry → S
handle_all handler s [] = s
handle_all handler s (e ∷ es) = handle_all handler (handler s e) es

-- `parse_config_file`
unfoldable pub parse_config_file : Ini → Option Text → Globals → Status × Globals
parse_config_file ini cf g =
    if zstr cf
    then (pdns_no, g)
    else (let (read, entries) = ini (string cf) in
        ((if read then pdns_ok else pdns_no), handle_all opt_handler g entries))
