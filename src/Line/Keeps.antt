-- ===== src/Line/Keeps.antt =====
-- What the macro `write_log` keeps, the logging of a message keeps.
use pdns_logger.Base.{
  ℕ, ◌+◌, Bool, true, false, ◌&&◌, ◌||◌, List, [], ◌∷◌, Option, none, some, Result, ok, fault,
  if◌then◌else◌,
}
use pdns_logger.Line.{
  Libc, Line, append_record, append_head, empty_line, written, log_records, log_tail, log_response,
  log_message,
}
use pdns_logger.Message.{Message, Response, Record}
use pdns_logger.Status.{Status}
use pdns_logger.Text.{Text, zstr}

module _ (c : Libc) {S : Type 0} (write : Text → S → S) (P : S → Type 0)
    (keep : (t : Text) (s : S) → P s → P (write t s)) where
  log_records-keeps :
      (t : ℕ) (rrs : List Record) (l : Line) (s : S) → P s → P (log_records c write t rrs l s).1
  unfolding log_records
  log_records-keeps t [] l s h = h
  log_records-keeps t (rr ∷ rrs) l s h =
      after (append_record c t rr l) (log_records-keeps (t + 1) rrs)
    where
      after :
          (r : Result Line)
          → ((l : Line) (s : S) → P s → P (log_records c write (t + 1) rrs l s).1)
          → P (written c write r (log_records c write (t + 1) rrs) s).1
      after (ok k) ih = ih k (write k.str s) (keep k.str s h)
      after (fault e) ih = h

  log_tail-keeps :
      (rrs : List Record) (r : Result Line) (s : S) → P s → P (log_tail c write rrs r s).1
  unfolding log_tail
  log_tail-keeps [] (ok l) s h = keep l.str s h
  log_tail-keeps (rr ∷ rrs) (ok l) s h = log_records-keeps 1 (rr ∷ rrs) l s h
  log_tail-keeps [] (fault e) s h = h
  log_tail-keeps (rr ∷ rrs) (fault e) s h = h

  either : (b : Bool) (x y : Result Status × S) → P x.1 → P y.1 → P (if b then x else y).1
  either true x y h k = h
  either false x y h k = k

  log_response-keeps :
      (nd d ro : Bool) (msg : Message) (r : Option Response) (s : S)
      → P s
      → P (log_response c write nd d ro msg r s).1
  unfolding log_response
  log_response-keeps nd d ro msg none s h = h
  log_response-keeps nd d ro msg (some r) s h =
      either (d || (ro && zstr r.appliedpolicy)) _ _ h
        (log_tail-keeps r.rrs (append_head c nd msg r empty_line) s h)

  pub log_message-keeps :
      (ndebug disabled rewrites_only : Bool) (rawpb : Option Message) (s : S)
      → P s
      → P (log_message c write ndebug disabled rewrites_only rawpb s).1
  log_message-keeps nd d ro none s h = unfold log_message in h
  log_message-keeps nd d ro (some msg) s h =
      unfold log_message in log_response-keeps nd d ro msg msg.response s h
