-- ===== src/Stream.antt =====
-- src/pdns-logger-protobuf.c, the part behind a connection: the thread that reads a client's
-- stream, cuts it into frames and hands each of them to the decoder and the engines.
pub mod Frames
pub mod Buffers
pub mod Extract
pub mod Session
pub mod Disconnect
pub mod Unique
use Prim.Native.Nat.{bit_or}
use mathlib.Core.Option
use pdns_logger.Base.{
  ℕ, zero, suc, ◌+◌, ◌-◌, ◌*◌, Bool, true, false, List, [], ◌∷◌, ◌++◌, Option, none, some, ltb, leb,
  ◌==◌, if◌then◌else◌, length, get_elem?, take, drop, Result, ok, fault, assertion, ◌>>=◌,
}
use pdns_logger.Status.{Status, pdns_no, pdns_ok, pdns_fork, pdns_retry}

-- MAX_BUFFER_SIZE
abbrev pub max_buffer_size : ℕ
max_buffer_size = 8192

-- `buffer`, all of it, and `bsize`, the number of the bytes in use.
pub record Buffer : Type 0 where
  pub mem : List ℕ
  pub blen : ℕ

abbrev pub byte : List ℕ → ℕ → ℕ
byte mem i = elim (get_elem? mem i) [ none ↦ 0 | some b ↦ b ]

-- `ntohs` of the first two bytes, in use or not
abbrev pub frame_length : List ℕ → ℕ
frame_length mem = byte mem 0 * 256 + byte mem 1

-- `memmove(buf, buf + from, count)`
abbrev pub move_down : ℕ → ℕ → List ℕ → List ℕ
move_down from count mem = take count (drop from mem) ++ drop count mem

-- `memmove(buf, buf + plen + 2, *blen - plen - 2); *blen = *blen - plen - 2;`
abbrev pub advance : Buffer → Buffer
advance b =
    let plen = frame_length b.mem in
    record { mem = move_down (plen + 2) (b.blen - plen - 2) b.mem; blen = b.blen - plen - 2 }

-- The status of the engines is not looked at.
abbrev pub parsed : Result Status → Result Status
parsed (ok _) = ok pdns_ok
parsed (fault e) = fault e

-- What the decoder `pbdnsmessage__unpack` makes of a frame, and what `pdns_loggers_log` does with
-- a message. `S` is the state of the engines.
module _ {M S : Type 0} (ndebug : Bool) (unpack : List ℕ → Option M)
    (log : M → S → Result Status × S) where
  -- `protobuf_parse`
  abbrev pub log_decoded : Option M → S → Result Status × S
  log_decoded none s = ((if ndebug then ok pdns_no else fault assertion), s)
  log_decoded (some msg) s = let (r, s') = log msg s in (parsed r, s')

  unfoldable pub parse : List ℕ → S → Result Status × S
  parse frame s = log_decoded (unpack frame) s

  abbrev pub Extracted : Type 0
  Extracted = Result (Status × Buffer) × S

  -- Go on, unless the engines faulted; the status of `protobuf_parse` is not looked at.
  abbrev pub after : Result Status × S → (S → Option Extracted) → Option Extracted
  after (ok _, s) next = next s
  after (fault e, s) next = some (fault e, s)

  -- The loop of `protobuf_extract`, on fuel; `none` means that the fuel ran out.
  unfoldable pub extract_loop : ℕ → Buffer → S → Option Extracted
  extract_loop zero b s = none
  extract_loop (suc fuel) b s =
      let plen = frame_length b.mem in
      let b' = advance b in
      let outcome = parse (take plen (drop 2 b.mem)) s in
      let rest = after outcome (extract_loop fuel b') in
      let last = after outcome (λ s'. some (ok (pdns_ok, b'), s')) in
      if leb (plen + 2) b.blen
      then (if b'.blen == 0 then last else rest)
      else some (ok (pdns_retry, b), s)

  -- `protobuf_extract`
  unfoldable pub extract : Buffer → S → Option Extracted
  unfolding extract_loop parse
  extract b s = if ltb b.blen 2 then some (ok (pdns_retry, b), s) else extract_loop b.blen b s

-- What `read` returns: bytes, the end of the stream, or an error.
pub data Read : Type 0 where
  got : List ℕ → Read
  end_of_file failed : Read

-- Whether the thread goes on reading, or closes the connection.
pub data Link : Type 0 where
  connected disconnected : Link

-- `read(socket, buffer + bsize, ...)` and `bsize += nbytes`
abbrev pub fill : List ℕ → Buffer → Buffer
fill chunk b = record {
  mem = take b.blen b.mem ++ chunk ++ drop (b.blen + length chunk) b.mem;
  blen = b.blen + length chunk;
}

module _ {M S : Type 0} (ndebug : Bool) (unpack : List ℕ → Option M)
    (log : M → S → Result Status × S) where
  -- The branches on the status of `protobuf_extract`.
  abbrev pub react : Status → Result Link
  react pdns_no = ok disconnected
  react pdns_retry = ok connected
  react pdns_ok = ok connected
  react pdns_fork = if ndebug then ok connected else fault assertion

  abbrev pub reacted : Result (Status × Buffer) × S → Result (Link × Buffer) × S
  reacted (ok (status, b), s) = (react status >>= λ link. ok (link, b), s)
  reacted (fault e, s) = (fault e, s)

  -- One round of the loop of `socket_thread_exec`, for what `read` returns. It does not read with a
  -- full buffer.
  abbrev pub receive : Read → Buffer → S → Option (Result (Link × Buffer) × S)
  receive (got chunk) b s = Option.map reacted (extract ndebug unpack log (fill chunk b) s)
  receive end_of_file b s = some (ok (disconnected, b), s)
  receive failed b s = some (ok (disconnected, b), s)

  unfoldable pub on_read : Read → Buffer → S → Option (Result (Link × Buffer) × S)
  unfolding extract
  on_read r b s =
      if b.blen == max_buffer_size then some (ok (disconnected, b), s) else receive r b s

-- The buffer of a thread that starts; what the stack held there is not known.
abbrev pub fresh : List ℕ → Buffer
fresh stack = record { mem = stack; blen = 0 }

-- `fcntl(socket, F_SETFL, flags | !O_NONBLOCK)`: the flags that are set, given those of F_GETFL.
unfoldable pub client_flags : ℕ → ℕ → ℕ
client_flags o_nonblock flags = bit_or flags (if o_nonblock == 0 then 1 else 0)
