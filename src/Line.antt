-- ===== src/Line.antt =====
-- The text line that logfile_log of src/pdns-logger-file.c and syslog_log of
-- src/pdns-logger-syslog.c build in the same way: a buffer `str` of 1024 bytes, and the count `sz`
-- of the bytes that are left in it.
pub mod Pieces
pub mod Bounds
pub mod Records
pub mod Keeps
pub mod Overflow
pub mod Filter
use pdns_logger.Base.{
  ℕ, zero, suc, ◌+◌, ◌-◌, ◌^◌, Bool, true, false, not, ◌&&◌, ◌||◌, List, [], ◌∷◌, ◌++◌, Option,
  none, some, ◌==◌, ltb, if◌then◌else◌, length, take, Result, ok, fault, smashed, assertion, ◌>>=◌,
}
use pdns_logger.Base.Int.{ℤ, pos, negsuc, subtract}
use pdns_logger.Dns.{rcode2p, type2p, class2p}
use pdns_logger.Message.{Binary, as_string, Record, Question, Response, Message}
use pdns_logger.Status.{Status, pdns_ok}
use pdns_logger.Text.{Text, codes, zstr, decimal, decimal_int}

-- What the C library provides: `inet_ntop` for the two address families, and what `%s` prints for
-- a null pointer.
pub record Libc : Type 0 where
  pub ntop4 : List ℕ → Text
  pub ntop6 : List ℕ → Text
  pub null_text : Text

-- `str` up to its NUL, and `sz`
pub record Line : Type 0 where
  pub str : Text
  pub sz : ℤ

-- sizeof(str) and sizeof(tmp)
abbrev pub buffer_size : ℕ
buffer_size = 1024

abbrev pub empty_line : Line
empty_line = record { str = []; sz = pos (buffer_size - 1) }

-- An `int` as the `size_t` argument of `strncat`.
abbrev pub as_size : ℤ → ℕ
as_size (pos n) = n
as_size (negsuc n) = 2 ^ 64 - 1 - n

-- `strncat(str, tmp, sz)`, which writes a NUL behind the copied bytes
strncat : Text → Text → ℕ → Result Text
strncat str tmp n =
    let joined = str ++ take n tmp in
    if ltb (length joined) buffer_size then ok joined else fault smashed

-- `pc = snprintf(tmp, ...); strncat(str, tmp, sz); sz -= pc;` for the formatted text. `snprintf`
-- cuts `tmp` off, and returns the length of the whole text.
unfoldable pub append : Text → Line → Result Line
unfolding strncat
append text l = strncat l.str (take (buffer_size - 1) text) (as_size l.sz) >>= λ str.
    ok (record { str = str; sz = subtract l.sz (length text) })

-- `if (has_...) { ... }` around one piece
abbrev pub append_if : {A : Type 0} → Option A → (A → Text) → Line → Result Line
append_if none text l = ok l
append_if (some a) text l = append (text a) l

-- `has_type && type == k`
abbrev pub is_type : Option ℕ → ℕ → Bool
is_type none k = false
is_type (some t) k = t == k

abbrev pub name_types : Option ℕ → Bool
name_types t = is_type t 2 || is_type t 5 || is_type t 6 || is_type t 15

-- `"rdata-%d: %s "`
abbrev pub rdata_text : ℕ → Text → Text
rdata_text t s = codes "rdata-" ++ decimal_int t ++ codes ": " ++ s ++ codes " "

-- `"<label>-%d: "`, in front of a value
abbrev pub numbered : Text → ℕ → Text → Text
numbered label t value = label ++ decimal_int t ++ codes ": " ++ value ++ codes " "

-- `if (has_originalrequestorsubnet) assert(0)`
abbrev pub check_subnet : Bool → Option Binary → Line → Result Line
check_subnet ndebug none l = ok l
check_subnet ndebug (some b) l = if ndebug then ok l else fault assertion

module _ (c : Libc) where
  -- `%s` of a string that may be NULL
  abbrev pub shown : Option Text → Text
  shown none = c.null_text
  shown (some s) = s

  -- The two `if`s on the length of the address; an address of another length prints nothing.
  pub append_from : Option Binary → Line → Result Line
  append_from none l = ok l
  append_from (some b) l =
      if length b.bytes == 4
      then append (codes "from: " ++ c.ntop4 b.bytes ++ codes " ") l
      else if length b.bytes == 16
      then append (codes "from: " ++ c.ntop6 b.bytes ++ codes " ") l
      else ok l

  pub append_question : Option Question → Line → Result Line
  append_question none l = ok l
  append_question (some q) l = do
    l₁ ← append_if q.qtype (λ t. codes "qtype: " ++ shown (type2p t) ++ codes " ") l
    l₂ ← append_if q.qclass (λ t. codes "qclass: " ++ shown (class2p t) ++ codes " ") l₁
    append (codes "qname: " ++ shown q.qname ++ codes " ") l₂

  pub append_rdata : ℕ → Option ℕ → Option Binary → Line → Result Line
  append_rdata t type none l = ok l
  append_rdata t type (some d) l =
      if is_type type 1 && length d.bytes == 4
      then append (rdata_text t (c.ntop4 d.bytes)) l
      else if is_type type 28 && length d.bytes == 16
      then append (rdata_text t (c.ntop6 d.bytes)) l
      else if name_types type
      then append (rdata_text t (shown (as_string d))) l
      else append (codes "rdata (not supported) ") l

  -- One round of the loop over the records, before the line is written. `t` counts from 1.
  pub append_record : ℕ → Record → Line → Result Line
  append_record t rr l = do
    l₁ ← append (numbered (codes "rname-") t (shown rr.name)) l
    l₂ ← append_if rr.type (λ k. numbered (codes "rtype-") t (shown (type2p k))) l₁
    l₃ ← append_if rr.class_ (λ k. numbered (codes "rclass-") t (shown (class2p k))) l₂
    l₄ ← append_if rr.ttl (λ k. numbered (codes "rttl-") t (decimal_int k)) l₃
    append_rdata t rr.type rr.rdata l₄

  abbrev pub append_policy : Option Text → Line → Result Line
  append_policy policy l =
      if zstr policy then ok l else append (codes "policy: '" ++ shown policy ++ codes "' ") l

  -- All that stands in front of the records.
  pub append_head : Bool → Message → Response → Line → Result Line
  append_head ndebug msg r l = do
    l₁ ← append_if msg.id (λ i. codes "QID: " ++ decimal_int i ++ codes " ") l
    l₂ ← append_from msg.from l₁
    l₃ ← check_subnet ndebug msg.originalrequestorsubnet l₂
    l₄ ← append_question msg.question l₃
    l₅ ← append_if r.rcode (λ k. codes "rcode: " ++ shown (rcode2p k) ++ codes " ") l₄
    l₆ ← append (codes "rrcount: " ++ decimal (length r.rrs) ++ codes " ") l₅
    append_policy r.appliedpolicy l₆

  -- `write` is the engine's macro `write_log`, on its state. What was written before a fault stays
  -- written.
  module _ {S : Type 0} (write : Text → S → S) where
    abbrev pub written : Result Line → (Line → S → Result Status × S) → S → Result Status × S
    written (fault e) next s = (fault e, s)
    written (ok l) next s = next l (write l.str s)

    -- The loop over the records. The line is never reset: each round goes on behind the records
    -- before it.
    pub log_records : ℕ → List Record → Line → S → Result Status × S
    log_records t [] l s = (ok pdns_ok, s)
    log_records t (rr ∷ rrs) l s = written (append_record t rr l) (log_records (t + 1) rrs) s

    pub log_tail : List Record → Result Line → S → Result Status × S
    log_tail rrs (fault e) s = (fault e, s)
    log_tail [] (ok l) s = (ok pdns_ok, write l.str s)
    log_tail (rr ∷ rrs) (ok l) s = log_records 1 (rr ∷ rrs) l s

    -- A message that is there, and its response; `msg->response` may be NULL.
    pub log_response : Bool → Bool → Bool → Message → Option Response → S → Result Status × S
    log_response ndebug disabled rewrites_only msg none s = (ok pdns_ok, s)
    log_response ndebug disabled rewrites_only msg (some r) s =
        if disabled || (rewrites_only && zstr r.appliedpolicy)
        then (ok pdns_ok, s)
        else log_tail r.rrs (append_head ndebug msg r empty_line) s

    -- The whole of `logfile_log` and `syslog_log`, with their static variables `disabled` and
    -- `rewrites_only` and the pointer `rawpb`.
    unfoldable pub log_message : Bool → Bool → Bool → Option Message → S → Result Status × S
    unfolding log_response log_tail log_records append_head append_record append_from
        append_question append_rdata append
    log_message ndebug disabled rewrites_only none s = (ok pdns_ok, s)
    log_message ndebug disabled rewrites_only (some msg) s =
        log_response ndebug disabled rewrites_only msg msg.response s
