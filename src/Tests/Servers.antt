-- ===== src/Tests/Servers.antt =====
-- A server that opens its socket and takes clients.
use pdns_logger.Base.{
  take, ℕ, ◌+◌, ◌^◌, ◌-◌, Bool, true, false, List, [], ◌∷◌, Option, some, none, ◌≡◌, refl, ap, ◌∙◌,
  arith, ◌==◌, ok, fault, bad_pointer, if◌then◌else◌, ==_iff,
}
use pdns_logger.Config.{Globals}
use pdns_logger.Server.{
  Answers, reuses, binds, sets_flags, listens, Round, socket_start, socket_loop,
}
use pdns_logger.Server.Loop.{socket_loop_lem}
use pdns_logger.Server.Setup.{
  reached, opening_calls, value, given, all_good, closes_one, socket_start_lem,
}
use pdns_logger.Status.{pdns_no, pdns_ok}
use pdns_logger.Tests.Engines.{globals}
use pdns_logger.Text.{codes}

abbrev pub good : Answers
good = record {
  descriptor = some 5;
  reusable = true;
  bound = true;
  flags = some 2;
  flags_set = true;
  listening = true;
}

abbrev settings : Globals
settings = record globals { bind_port = 65536 + 4242; bind_ip = some (codes "127.0.0.1") }

opens : socket_start 2048 good settings ≡ (
  pdns_ok,
  record settings { socket = 5 },
  reuses 5 ∷ binds 5 0 4242 ∷ sets_flags 5 2050 ∷ listens 5 ∷ [],
)
unfolding socket_start
opens = refl

in_use :
    socket_start 2048 (record good { bound = false }) settings
    ≡ (pdns_no, record settings { socket = 5 }, reuses 5 ∷ binds 5 0 4242 ∷ [])
unfolding socket_start
in_use = refl

socket_start_lem_example :
    let (status, g', calls) = socket_start 2048 good settings in
    (status ≡ (if all_good good then pdns_ok else pdns_no))
    × (g' ≡ record settings {
      socket = if given good.descriptor then value good.descriptor else 2 ^ 32 - 1;
    })
    × (calls ≡ take (reached good) (opening_calls 2048 good settings))
    × (closes_one calls ≡ false)
    × ((socket_start 2048 good (record settings { bind_ip = none })).2 ≡ calls)
socket_start_lem_example = socket_start_lem 2048 good settings none

-- Rounds: a client, a failed `select`, a client that is gone again, another client, and the end.
abbrev pub only_five : ℕ → Bool
only_five i = i == 5

abbrev pub takes : Option ℕ → Round
takes accepted = record {
  running = true;
  selected = some only_five;
  accepted = accepted;
  prompt = true;
}

abbrev fails : Round
fails = record { running = true; selected = none; accepted = none; prompt = true }

abbrev pub ends : Round
ends = record { running = false; selected = none; accepted = none; prompt = true }

abbrev some_rounds : List Round
some_rounds = takes (some 6) ∷ fails ∷ takes none ∷ takes (some 7) ∷ ends ∷ takes (some 8) ∷ []

abbrev listening : Globals
listening = record settings { socket = 5 }

pub reports_five :
    (o : Option (ℕ → Bool)) (ready : ℕ → Bool)
    → o ≡ some only_five
    → o ≡ some ready
    → (i : ℕ) → ready i ≡ true
    → i ≡ 5
reports_five o ready h e i on =
    let same : some only_five ≡ some ready = cc in
    let equal : only_five ≡ ready = cc in (==_iff i 5).0 (ap (λ f. f i) equal ∙ on)

late_thread :
    socket_loop true listening (record (takes (some 6)) { prompt = false } ∷ []) ≡ fault bad_pointer
unfolding socket_loop
late_thread = refl

socket_loop_lem_example : socket_loop false listening some_rounds ≡ ok (6 ∷ 7 ∷ [], true)
socket_loop_lem_example = socket_loop_lem false listening some_rounds (omega arith) (
  (refl, λ ready e. reports_five (some only_five) ready refl e),
  (
    (refl, λ ready e. absurd (cc)),
    (
      (refl, λ ready e. reports_five (some only_five) ready refl e),
      (
        (refl, λ ready e. reports_five (some only_five) ready refl e),
        (
          (refl, λ ready e. absurd (cc)),
          ((refl, λ ready e. reports_five (some only_five) ready refl e), tt),
        ),
      ),
    ),
  ),
)
