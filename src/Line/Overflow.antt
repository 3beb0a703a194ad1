-- ===== src/Line/Overflow.antt =====
-- logfile_log and syslog_log as a whole: which lines a message gives, and which messages run over
-- the buffer.
use pdns_logger.Base.{
  ℕ, ◌+◌, ◌^◌, ◌≤◌, ◌<◌, Bool, true, false, not, ◌&&◌, ◌||◌, List, [], ◌∷◌, ◌++◌, Option, none,
  some, ◌≡◌, ◌≢◌, ◌⊎◌, refl, sym, ◌∙◌, ap, arith, if◌then◌else◌, length, Result, ok, fault, smashed,
  ◌>>=◌, take_all, Bool-cases, inl, inr,
}
use pdns_logger.Line.Bounds.{
  At, joined, fits, NonEmpty, Outcome, append_all-Outcome, append_all-fits,
}
use pdns_logger.Line.Pieces.{
  append_all, append_all-append, head_pieces, record_pieces, append_head_lem, optional, from_pieces,
  question_pieces, policy_pieces, rdata_pieces,
}
use pdns_logger.Line.Records.{
  all_pieces, record_lines, write_all, log_records-status, log_records-fits, length-joined-append,
}
use pdns_logger.Line.{name_types, Libc, Line, empty_line, log_tail, log_response, log_message}
use pdns_logger.Message.{terminated, Binary, Question, Record, Response, Message}
use pdns_logger.Status.{Status, pdns_ok}
use pdns_logger.Text.{Text, zstr}

NonEmpty-append : (xs ys : List Text) → NonEmpty xs → NonEmpty ys → NonEmpty (xs ++ ys)
NonEmpty-append [] ys h k = k
NonEmpty-append (x ∷ xs) ys h k = (h.0, NonEmpty-append xs ys h.1 k)

optional-NonEmpty :
    {A : Type 0} (o : Option A) (text : A → Text)
    → ((a : A) → text a ≢ [])
    → NonEmpty (optional o text)
optional-NonEmpty none text h = tt
optional-NonEmpty (some a) text h = (h a, tt)

module _ (c : Libc) where
  from_pieces-NonEmpty : (b : Option Binary) → NonEmpty (from_pieces c b)
  from_pieces-NonEmpty none = tt
  from_pieces-NonEmpty (some b) = ground arith

  question_pieces-NonEmpty : (q : Option Question) → NonEmpty (question_pieces c q)
  question_pieces-NonEmpty none = tt
  question_pieces-NonEmpty (some q) =
      NonEmpty-append _ _ (optional-NonEmpty q.qtype _ (λ a e. cc))
        (NonEmpty-append _ _ (optional-NonEmpty q.qclass _ (λ a e. cc)) ((λ e. cc), tt))

  policy_pieces-NonEmpty : (p : Option Text) → NonEmpty (policy_pieces c p)
  policy_pieces-NonEmpty p = ground arith

  rdata_pieces-NonEmpty :
      (t : ℕ) (type : Option ℕ) (d : Option Binary) → NonEmpty (rdata_pieces c t type d)
  rdata_pieces-NonEmpty t type none = tt
  rdata_pieces-NonEmpty t type (some d) = ground arith

  head_pieces-NonEmpty : (msg : Message) (r : Response) → NonEmpty (head_pieces c msg r)
  unfolding head_pieces
  head_pieces-NonEmpty msg r = NonEmpty-append _ _ (optional-NonEmpty msg.id _ (λ a e. cc)) (
      NonEmpty-append _ _ (from_pieces-NonEmpty msg.from) (
        NonEmpty-append _ _ (question_pieces-NonEmpty msg.question) (
          NonEmpty-append _ _ (optional-NonEmpty r.rcode _ (λ a e. cc))
            ((λ e. cc), policy_pieces-NonEmpty r.appliedpolicy))))

  record_pieces-NonEmpty : (t : ℕ) (rr : Record) → NonEmpty (record_pieces c t rr)
  unfolding record_pieces
  record_pieces-NonEmpty t rr = (
    (λ e. cc),
    NonEmpty-append _ _ (optional-NonEmpty rr.type _ (λ a e. cc)) (
        NonEmpty-append _ _ (optional-NonEmpty rr.class_ _ (λ a e. cc)) (
          NonEmpty-append _ _ (optional-NonEmpty rr.ttl _ (λ a e. cc))
            (rdata_pieces-NonEmpty t rr.type rr.rdata))),
  )

  all_pieces-NonEmpty : (t : ℕ) (rrs : List Record) → NonEmpty (all_pieces c t rrs)
  all_pieces-NonEmpty t [] = tt
  all_pieces-NonEmpty t (rr ∷ rrs) =
      NonEmpty-append _ _ (record_pieces-NonEmpty t rr) (all_pieces-NonEmpty (t + 1) rrs)

  -- All the texts of a message, in order.
  abbrev pub message_pieces : Message → Response → List Text
  message_pieces msg r = head_pieces c msg r ++ all_pieces c 1 r.rrs

  -- The lines of a message: one if its response has no record, and else one for each record, which
  -- repeats the line before it.
  abbrev pub lines_from : Text → List Record → List Text
  lines_from head [] = head ∷ []
  lines_from head (rr ∷ rrs) = record_lines c head 1 (rr ∷ rrs)

  abbrev pub message_lines : Message → Response → List Text
  message_lines msg r = lines_from (joined (head_pieces c msg r)) r.rrs

  pub message_pieces-NonEmpty : (msg : Message) (r : Response) → NonEmpty (message_pieces msg r)
  message_pieces-NonEmpty msg r =
      NonEmpty-append _ _ (head_pieces-NonEmpty msg r) (all_pieces-NonEmpty 1 r.rrs)

At-empty : At [] empty_line
At-empty = record { holds = refl; left = refl }

Outcome-status :
    (ts : List Text) (r : Result Line)
    → Outcome [] ts r
    → (r >>= λ _. ok pdns_ok) ≡ (if fits 0 ts then ok pdns_ok else fault smashed)
Outcome-status ts r o = elim (Bool-cases (fits 0 ts)) [
  | inl f ↦ let (l, e, a) = rw f at o in rw (f, e)
  | inr f ↦ let e = rw f at o in rw (f, e)
]

-- What `%s` reads of the records ends within their bytes.
abbrev pub all_readable : List Record → Bool
all_readable [] = true
all_readable (rr ∷ rrs) =
    (elim rr.rdata [ none ↦ true | some d ↦ not (name_types rr.type) || terminated d ])
    && all_readable rrs

module _ (c : Libc) {S : Type 0} (write : Text → S → S) where
  log_tail-status :
      (rrs : List Record) (h : Result Line) (s : S)
      → (log_tail c write rrs h s).0 ≡ ((h >>= append_all (all_pieces c 1 rrs)) >>= λ _. ok pdns_ok)
  unfolding log_tail append_all
  log_tail-status [] (ok l) s = refl
  log_tail-status (rr ∷ rrs) (ok l) s = log_records-status c write 1 (rr ∷ rrs) l s
  log_tail-status [] (fault e) s = refl
  log_tail-status (rr ∷ rrs) (fault e) s = refl

  log_tail-fits :
      (rrs : List Record) (u : Text) (l : Line) (s : S)
      → At u l
      → length u + length (joined (all_pieces c 1 rrs)) ≤ 1023
      → log_tail c write rrs (ok l) s ≡ (ok pdns_ok, write_all write (lines_from c u rrs) s)
  unfolding log_tail
  log_tail-fits [] u l s a h =
      ap (λ x. (ok pdns_ok, write x s)) (a.holds ∙ take_all 1023 u (omega arith))
  log_tail-fits (rr ∷ rrs) u l s a h = log_records-fits c write 1 (rr ∷ rrs) u l s a h

module _ (c : Libc) {S : Type 0} (write : Text → S → S) (ndebug rewrites_only : Bool)
    (msg : Message) (r : Response) (answered : msg.response ≡ some r)
    (wanted : (rewrites_only && zstr r.appliedpolicy) ≡ false)
    (unchecked : (ndebug ≡ true) ⊎ (msg.originalrequestorsubnet ≡ none)) where
  to_tail :
      (s : S)
      → log_message c write ndebug false rewrites_only (some msg) s
        ≡ log_tail c write r.rrs (append_all (head_pieces c msg r) empty_line) s
  unfolding log_message
  to_tail s =
      ap (λ o. log_response c write ndebug false rewrites_only msg o s) answered
      ∙ rw (wanted, append_head_lem c ndebug msg r empty_line unchecked)

  status :
      (s : S)
      → (log_message c write ndebug false rewrites_only (some msg) s).0
        ≡ (append_all (message_pieces c msg r) empty_line >>= λ _. ok pdns_ok)
  status s =
      ap (λ (o : Result Status × S). o.0) (to_tail s)
      ∙ log_tail-status c write r.rrs (append_all (head_pieces c msg r) empty_line) s
      ∙ ap (λ r. r >>= λ _. ok pdns_ok)
          (sym (append_all-append (head_pieces c msg r) (all_pieces c 1 r.rrs) empty_line))

  -- A message that is to be logged, with less than 2 GB of text, in a release build or without an
  -- EDNS subnet, and with each record's data that is printed as a string NULL or with a NUL among its
  -- bytes: it is logged, with PDNS_OK, exactly if each of its texts starts at or before byte 1023 of
  -- the line. Otherwise the code writes past the end of its buffer.
  pub log_message-status :
      (s : S)
      → all_readable r.rrs ≡ true
      → length (joined (message_pieces c msg r)) < 2 ^ 31
      → (log_message c write ndebug false rewrites_only (some msg) s).0
        ≡ (if fits 0 (message_pieces c msg r) then ok pdns_ok else fault smashed)
  log_message-status s readable small =
      status s
      ∙ Outcome-status (message_pieces c msg r) (append_all (message_pieces c msg r) empty_line) (
          append_all-Outcome (message_pieces c msg r) [] empty_line At-empty
            (message_pieces-NonEmpty c msg r) (omega arith))

  -- With room for all the text of a message that is to be logged, the engine writes its lines, in
  -- order and untruncated, and nothing else.
  pub log_message-fits :
      (s : S)
      → length (joined (message_pieces c msg r)) ≤ 1023
      → log_message c write ndebug false rewrites_only (some msg) s
        ≡ (ok pdns_ok, write_all write (message_lines c msg r) s)
  log_message-fits s small =
      let whole = length-joined-append (head_pieces c msg r) (all_pieces c 1 r.rrs) in
      let (l, e, a) =
        append_all-fits (head_pieces c msg r) [] empty_line At-empty (omega (arith, whole)) in
      to_tail s
      ∙ ap (λ h. log_tail c write r.rrs h s) e
      ∙ log_tail-fits c write r.rrs (joined (head_pieces c msg r)) l s a (omega (arith, whole))
