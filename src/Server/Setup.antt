-- ===== src/Server/Setup.antt =====
-- How socket_start of src/pdns-logger-protobuf.c opens the listening socket.
use Prim.Native.Nat.{bit_or}
use pdns_logger.Base.{
  ℕ, ◌%◌, ◌^◌, ◌-◌, Bool, true, false, ◌&&◌, not, take, List, [], ◌∷◌, Option, none, some, ◌≡◌,
  arith, if◌then◌else◌,
}
use pdns_logger.Config.{Globals}
use pdns_logger.Server.{Answers, Call, reuses, binds, sets_flags, listens, closes, socket_start}
use pdns_logger.Status.{pdns_no, pdns_ok}
use pdns_logger.Text.{Text}

-- Whether the answer is there.
abbrev pub given : Option ℕ → Bool
given none = false
given (some _) = true

abbrev pub value : Option ℕ → ℕ
value none = 0
value (some n) = n

-- All answers that `socket_start` insists on.
abbrev pub all_good : Answers → Bool
all_good a = given a.descriptor && a.bound && given a.flags && a.flags_set && a.listening

abbrev pub closes_one : List Call → Bool
closes_one [] = false
closes_one (closes fd ∷ calls) = true
closes_one (_ ∷ calls) = closes_one calls

-- The calls of a socket that comes to listen.
abbrev pub opening_calls : ℕ → Answers → Globals → List Call
opening_calls o_nonblock a g =
    let fd = value a.descriptor in
    reuses fd
    ∷ binds fd 0 (g.bind_port % 2 ^ 16)
    ∷ sets_flags fd (bit_or (value a.flags) o_nonblock)
    ∷ listens fd
    ∷ []

-- How many of them are made.
abbrev pub reached : Answers → ℕ
reached a =
    if not (given a.descriptor)
    then 0
    else if not (a.bound && given a.flags)
    then 2
    else if not a.flags_set
    then 3
    else 4

-- `socket_start` answers PDNS_OK exactly if `socket`, `bind`, both calls of `fcntl` and `listen`
-- succeed. Its calls make the socket listen, without blocking, on the low 16 bits of the port and on
-- every address, and end behind the first that fails, but `setsockopt`; of the globals only the
-- socket is set. It is never closed, and the address of the configuration makes no difference to the
-- calls.
pub socket_start_lem :
    (o_nonblock : ℕ) (a : Answers) (g : Globals) (ip : Option Text)
    → let (status, g', calls) = socket_start o_nonblock a g in
      (status ≡ (if all_good a then pdns_ok else pdns_no))
      × (g' ≡ record g { socket = if given a.descriptor then value a.descriptor else 2 ^ 32 - 1 })
      × (calls ≡ take (reached a) (opening_calls o_nonblock a g))
      × (closes_one calls ≡ false)
      × ((socket_start o_nonblock a (record g { bind_ip = ip })).2 ≡ calls)
unfolding socket_start
socket_start_lem o_nonblock a g ip = ground arith
