-- ===== src/Line/Filter.antt =====
-- Which messages logfile_log and syslog_log pass over.
use pdns_logger.Base.{Bool, true, ◌&&◌, ◌||◌, Option, none, some, ◌≡◌, refl, arith, ok}
use pdns_logger.Line.{Libc, log_message}
use pdns_logger.Message.{Message}
use pdns_logger.Status.{pdns_ok}
use pdns_logger.Text.{Text, zstr}

-- A message that a text engine (or, with the same guards, the database engine) leaves alone.
abbrev pub ignored : Bool → Bool → Option Message → Bool
ignored disabled rewrites_only none = true
ignored disabled rewrites_only (some msg) = elim msg.response [
  | none ↦ true
  | some r ↦ disabled || (rewrites_only && zstr r.appliedpolicy)
]

-- If the engine is disabled, there is no message, the message has no response, or only rewrites
-- are wanted and no policy was applied, then nothing is written and the answer is PDNS_OK.
pub log_message-ignored :
    (c : Libc) {S : Type 0} (write : Text → S → S) (ndebug disabled rewrites_only : Bool)
    (rawpb : Option Message) (s : S)
    → ignored disabled rewrites_only rawpb ≡ true
    → log_message c write ndebug disabled rewrites_only rawpb s ≡ (ok pdns_ok, s)
unfolding log_message
log_message-ignored c write ndebug disabled rewrites_only none s h = refl
log_message-ignored c write ndebug disabled rewrites_only (some msg) s h = ground arith
