-- ===== src/Sqlite/Rows.antt =====
-- src/pdns-logger-sqlite.c: what logsqlite_log takes from a message for its statements.
use pdns_logger.Base.{ℕ, ◌%◌, ◌^◌, ◌&&◌, [], Option, none, some, ◌==◌, length, if◌then◌else◌}
use pdns_logger.Dns.{rcode2p, type2p, class2p}
use pdns_logger.Line.{Libc, is_type, name_types}
use pdns_logger.Message.{Binary, as_string, Record, Question, Response, Message}
use pdns_logger.Text.{Text, codes, zstr}

-- The arguments that the macro `prepare_sql` gives to `sqlite3_mprintf`. An `int` is its bit
-- pattern.
pub record Row : Type 0 where
  pub ts : ℕ
  pub from : Text
  pub msgid : ℕ
  pub qtype : Text
  pub qclass : Text
  pub qname : Text
  pub rcode : Text
  pub rcount : ℕ
  pub rname : Text
  pub rtype : Text
  pub rclass : Text
  pub rttl : ℕ
  pub rdata : Text
  pub policy : Text

-- The local variables that a record sets only if it has the field. They are set before the loop
-- over the records, and not again.
pub record Carried : Type 0 where
  pub rtype : Option Text
  pub rclass : Option Text
  pub rttl : ℕ
  pub rdata : Option Text

abbrev pub nothing_carried : Carried
nothing_carried = record { rtype = none; rclass = none; rttl = 0; rdata = none }

-- `x ? x : ""`
abbrev pub or_empty : Option Text → Text
or_empty none = []
or_empty (some t) = t

-- A variable that is set if the message has the field.
abbrev pub set_if {ℓ} : {A B : Type ℓ} → Option A → (A → B) → B → B
set_if none f old = old
set_if (some a) f old = f a

module _ (c : Libc) where
  -- `from`, which starts as ""
  abbrev pub from_text : Option Binary → Text
  from_text none = []
  from_text (some b) =
      if length b.bytes == 4
      then c.ntop4 b.bytes
      else if length b.bytes == 16
      then c.ntop6 b.bytes
      else []

  -- `rdata`, for a record that has some
  abbrev pub rdata_of : Option ℕ → Binary → Text
  rdata_of type d =
      if is_type type 1 && length d.bytes == 4
      then c.ntop4 d.bytes
      else if is_type type 28 && length d.bytes == 16
      then c.ntop6 d.bytes
      else if name_types type
      then or_empty (as_string d)
      else codes "[Not Supported]"

  -- One round of the loop over the records, up to the statement.
  unfoldable pub carry : Record → Carried → Carried
  carry rr v = record {
    rtype = set_if rr.type type2p v.rtype;
    rclass = set_if rr.class_ class2p v.rclass;
    rttl = set_if rr.ttl (λ t. t) v.rttl;
    rdata = set_if rr.rdata (λ d. some (rdata_of rr.type d)) v.rdata;
  }

  abbrev pub question_type : Option Question → Option Text
  question_type none = none
  question_type (some q) = set_if q.qtype type2p none

  abbrev pub question_class : Option Question → Option Text
  question_class none = none
  question_class (some q) = set_if q.qclass class2p none

  abbrev pub question_name : Option Question → Option Text
  question_name none = none
  question_name (some q) = q.qname

  -- `prepare_sql`, for a record's name and what the variables hold
  abbrev pub row : Message → Response → Option Text → Carried → Row
  row msg r rname v = record {
    ts = set_if msg.timesec (λ t. t) 0;
    from = from_text msg.from;
    msgid = set_if msg.id (λ i. i) 0;
    qtype = or_empty (question_type msg.question);
    qclass = or_empty (question_class msg.question);
    qname = or_empty (question_name msg.question);
    rcode = or_empty (set_if r.rcode rcode2p none);
    rcount = length r.rrs % 2 ^ 32;
    rname = or_empty rname;
    rtype = or_empty v.rtype;
    rclass = or_empty v.rclass;
    rttl = v.rttl;
    rdata = or_empty v.rdata;
    policy = if zstr r.appliedpolicy then [] else or_empty r.appliedpolicy;
  }
