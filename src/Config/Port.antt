-- ===== src/Config/Port.antt =====
-- The port number, from the text of a configuration file to `globals_t`.
use pdns_logger.Base.{ℕ, ◌^◌, ◌<◌, true, List, ◌∷◌, ◌++◌, some, ◌≡◌, refl, ◌∙◌, ap}
use pdns_logger.Config.{Entry, Globals, opt_handler, handle_all}
use pdns_logger.Config.Laws.{global_settings}
use pdns_logger.Config.Options.{sets, None, setting-last}
use pdns_logger.Text.{codes, decimal, atoi}
use pdns_logger.Text.Number.{atoi-decimal, decimal-Starts}

abbrev pub port_entry : ℕ → Entry
port_entry n = record {
  section = some (codes "globals");
  name = some (codes "bind-port");
  value = some (decimal n);
}

port_entry-sets : (n : ℕ) → sets (codes "globals") (codes "bind-port") (port_entry n) ≡ true
port_entry-sets n = rw (decimal-Starts n).splits refl

-- A port below 2 ^ 31 that stands in decimal in section [globals] is the port in the end, whatever
-- entries are around it, if none behind it sets the port again.
pub port_round_trip :
    (es rest : List Entry) (g : Globals) (n : ℕ)
    → n < 2 ^ 31
    → None (codes "globals") (codes "bind-port") atoi rest
    → (handle_all opt_handler g (es ++ port_entry n ∷ rest)).bind_port ≡ n
port_round_trip es rest g n small none_behind =
    ap (λ (h : Globals). h.bind_port) (global_settings (es ++ port_entry n ∷ rest) g)
    ∙ setting-last (codes "globals") (codes "bind-port") atoi es (port_entry n) rest g.bind_port
        (port_entry-sets n) none_behind
    ∙ atoi-decimal n small
