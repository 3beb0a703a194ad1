-- ===== src/Tests/Lines.antt =====
-- Log lines of a response with a CNAME record, and of one that is too long.
use pdns_logger.Base.{
  ℕ, zero, suc, ◌^◌, ◌≤◌, ◌<◌, true, false, List, [], ◌∷◌, ◌++◌, none, some, ◌≡◌, inl, refl, arith,
  ok, fault, smashed, if◌then◌else◌, length,
}
use pdns_logger.Dns.{type2p, class2p, rcode2p}
use pdns_logger.Line.Bounds.{fits, joined}
use pdns_logger.Line.Overflow.{message_pieces, message_lines, log_message-status, log_message-fits}
use pdns_logger.Line.Pieces.{head_pieces, record_pieces}
use pdns_logger.Line.Records.{write_all}
use pdns_logger.Line.{Libc, log_message}
use pdns_logger.Message.{Record, Response, Message}
use pdns_logger.Status.{pdns_ok}
use pdns_logger.Text.{Text, codes, decimal, decimal_int}

abbrev pub libc : Libc
libc = record {
  ntop4 = λ b. codes "192.0.2.1";
  ntop6 = λ b. codes "2001:db8::1";
  null_text = codes "(null)";
}

abbrev keep : Text → List Text → List Text
keep t s = s ++ t ∷ []

abbrev pub alias : Record
alias = record {
  name = some (codes "a.");
  type = some 5;
  class_ = some 1;
  ttl = some 60;
  rdata = some (record { bytes = 98 ∷ 46 ∷ 0 ∷ []; beyond = [] });
}

abbrev pub answer : Response
answer = record { rcode = some 0; rrs = alias ∷ []; appliedpolicy = some (codes "P") }

abbrev pub message_of : Text → Response → Message
message_of name r = record {
  timesec = some 1;
  id = some 20542;
  from = some (record { bytes = 192 ∷ 0 ∷ 2 ∷ 1 ∷ []; beyond = [] });
  originalrequestorsubnet = none;
  question = some (record { qname = some name; qtype = some 1; qclass = some 1 });
  response = some r;
}

log-answer : log_message libc keep true false true (some (message_of (codes "a.") answer)) [] ≡ (
  ok pdns_ok,
  codes
        "QID: 20542 from: 192.0.2.1 qtype: A qclass: IN qname: a. rcode: NOERROR rrcount: 1 policy: 'P' rname-1: a. rtype-1: CNAME rclass-1: IN rttl-1: 60 rdata-1: b. "
      ∷ [],
)
unfolding log_message type2p class2p rcode2p decimal decimal_int
log-answer = refl

pub answer-small :
    length (joined (message_pieces libc (message_of (codes "a.") answer) answer)) ≤ 1023
unfolding head_pieces record_pieces type2p class2p rcode2p decimal decimal_int
answer-small = omega arith

log_message-fits_example :
    log_message libc keep true false true (some (message_of (codes "a.") answer)) []
    ≡ (ok pdns_ok, write_all keep (message_lines libc (message_of (codes "a.") answer) answer) [])
log_message-fits_example =
    log_message-fits libc keep true true (message_of (codes "a.") answer) answer refl refl
      (inl refl) [] answer-small

abbrev letters : ℕ → Text
letters zero = []
letters (suc n) = b'a' ∷ letters n

-- A name that is too long.
abbrev long_message : Message
long_message = message_of (letters 1100) answer

log-long : log_message libc keep true false true (some long_message) [] ≡ (fault smashed, [])
unfolding log_message type2p class2p rcode2p decimal decimal_int
log-long = refl

long-small : length (joined (message_pieces libc long_message answer)) < 2 ^ 31
unfolding head_pieces record_pieces type2p class2p rcode2p decimal decimal_int
long-small = omega arith

log_message-status_example :
    (log_message libc keep true false true (some long_message) []).0
    ≡ (if fits 0 (message_pieces libc long_message answer) then ok pdns_ok else fault smashed)
log_message-status_example =
    log_message-status libc keep true true long_message answer refl refl (inl refl) [] refl
      long-small
