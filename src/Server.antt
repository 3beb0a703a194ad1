-- ===== src/Server.antt =====
-- src/pdns-logger-protobuf.c, the part in front of the connections: the listening socket and the
-- loop that accepts clients. What the system calls answer are arguments.
pub mod Loop
pub mod Setup
use Prim.Native.Nat.{bit_or}
use pdns_logger.Base.{
  ℕ, zero, suc, ◌+◌, ◌-◌, ◌%◌, ◌^◌, Bool, true, false, not, List, [], ◌∷◌, ◌++◌, Option, none, some,
  ltb, ◌==◌, if◌then◌else◌, Result, ok, fault, assertion, smashed, bad_pointer, ◌>>=◌,
}
use pdns_logger.Config.{Globals}
use pdns_logger.Status.{Status, pdns_no, pdns_ok}

-- The answers that `socket_start` gets: of `socket` (`none` is -1), of `setsockopt` and `bind`, of
-- `fcntl` with F_GETFL (`none` is -1) and with F_SETFL, and of `listen`.
pub record Answers : Type 0 where
  pub descriptor : Option ℕ
  pub reusable : Bool
  pub bound : Bool
  pub flags : Option ℕ
  pub flags_set : Bool
  pub listening : Bool

-- The calls on the listening socket. An address is a number, INADDR_ANY is 0; the port is that which
-- `htons` gets.
pub data Call : Type 0 where
  reuses : ℕ → Call
  binds : ℕ → ℕ → ℕ → Call
  sets_flags : ℕ → ℕ → Call
  listens : ℕ → Call
  closes : ℕ → Call

abbrev pub Started : Type 0
Started = Status × Globals × List Call

-- The steps behind a `bind`, with the calls so far.
abbrev pub enlist : ℕ → Answers → ℕ → Globals → List Call → Started
enlist o_nonblock a fd g calls = elim a.flags [
  | none ↦ (pdns_no, g, calls)
  | some flags ↦
      let calls' = calls ++ sets_flags fd (bit_or flags o_nonblock) ∷ [] in
      if not a.flags_set
      then (pdns_no, g, calls')
      else ((if a.listening then pdns_ok else pdns_no), g, calls' ++ listens fd ∷ [])
]

-- `sa.sin_port = htons(conf->bind_port)` keeps the low 16 bits. A `setsockopt` that fails is only
-- reported.
abbrev pub open_at : ℕ → Answers → ℕ → Globals → Started
open_at o_nonblock a fd g =
    let calls = reuses fd ∷ binds fd 0 (g.bind_port % 2 ^ 16) ∷ [] in
    if a.bound then enlist o_nonblock a fd g calls else (pdns_no, g, calls)

-- `socket_start`; `conf->socket` is the bit pattern of an `int`.
unfoldable pub socket_start : ℕ → Answers → Globals → Started
socket_start o_nonblock a g = elim a.descriptor [
  | none ↦ (pdns_no, record g { socket = 2 ^ 32 - 1 }, [])
  | some fd ↦ open_at o_nonblock a fd (record g { socket = fd })
]

-- One round of the loop of `socket_loop`: `conf->running` when it is tested; what `select` answers,
-- the set of the descriptors that are ready, or an error; what `accept` answers; and whether the
-- new thread reads its argument before `socket_start_thread` returns.
pub record Round : Type 0 where
  pub running : Bool
  pub selected : Option (ℕ → Bool)
  pub accepted : Option ℕ
  pub prompt : Bool

abbrev pub fd_setsize : ℕ
fd_setsize = 1024

-- `socket_start_thread`: the thread gets a pointer to the function's parameter, which is gone when
-- the function has returned. The sockets that threads serve are listed. The code does not look at what
-- pthread_create answers; here it has made the thread.
abbrev pub socket_start_thread : Bool → ℕ → List ℕ → Result (List ℕ)
socket_start_thread prompt new served =
    if prompt then ok (served ++ new ∷ []) else fault bad_pointer

-- A connection request on the listening socket.
abbrev pub accept_client : Round → List ℕ → Result (List ℕ)
accept_client r served = elim r.accepted [
  | none ↦ ok served
  | some new ↦ socket_start_thread r.prompt new served
]

module _ (ndebug : Bool) (socket : ℕ) where
  -- One round of the inner loop, for descriptor `i`.
  abbrev pub visit : Round → (ℕ → Bool) → ℕ → List ℕ → Result (List ℕ)
  visit r ready i served =
      if ready i
      then (if i == socket
          then accept_client r served
          else (if ndebug then ok served else fault assertion))
      else ok served

  -- The inner loop, from descriptor `i` on, `n` of them.
  unfoldable pub scan : ℕ → Round → (ℕ → Bool) → ℕ → List ℕ → Result (List ℕ)
  scan zero r ready i served = ok served
  scan (suc n) r ready i served = visit r ready i served >>= scan n r ready (i + 1)

  -- The rest of a round behind `select`; a failed `select` goes back to the loop's test.
  abbrev pub serve_ready : Round → Option (ℕ → Bool) → List ℕ → Result (List ℕ)
  serve_ready r none served = ok served
  serve_ready r (some ready) served = scan fd_setsize r ready 0 served

  -- The loop, for the rounds that come. The flag says whether it has returned: if not, the last
  -- round is over and the loop goes on.
  unfoldable pub rounds : List Round → List ℕ → Result (List ℕ × Bool)
  unfolding scan
  rounds [] served = ok (served, false)
  rounds (r ∷ rs) served =
      let rest = serve_ready r r.selected served >>= rounds rs in
      if r.running then rest else ok (served, true)

-- `socket_loop`. FD_SET of a descriptor beyond the set writes behind it.
unfoldable pub socket_loop : Bool → Globals → List Round → Result (List ℕ × Bool)
unfolding rounds
socket_loop ndebug g rs =
    if ltb g.socket fd_setsize then rounds ndebug g.socket rs [] else fault smashed

-- `pdns_socket_run` as far as the rounds go: the status if it has returned, the globals, the calls
-- and the sockets of the threads.
pub record Served : Type 0 where
  pub status : Option Status
  pub globals : Globals
  pub calls : List Call
  pub threads : List ℕ

-- `socket_loop` and then `socket_close`, whose status is PDNS_OK
abbrev pub run_loop : Bool → Globals → List Call → List Round → Result Served
run_loop ndebug g calls rs = socket_loop ndebug g rs >>= λ r. ok (record {
  status = if r.1 then some pdns_ok else none;
  globals = g;
  calls = if r.1 then calls ++ closes g.socket ∷ [] else calls;
  threads = r.0;
})

abbrev pub run_started : Bool → List Round → Started → Result Served
run_started ndebug rs (pdns_ok, g, calls) = run_loop ndebug g calls rs
run_started ndebug rs (_, g, calls) =
    ok (record { status = some pdns_no; globals = g; calls = calls; threads = [] })

-- `pdns_socket_run`
unfoldable pub pdns_socket_run : Bool → ℕ → Answers → List Round → Globals → Result Served
unfolding socket_start socket_loop
pdns_socket_run ndebug o_nonblock a rs g = run_started ndebug rs (socket_start o_nonblock a g)
