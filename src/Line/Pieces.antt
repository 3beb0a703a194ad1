-- ===== src/Line/Pieces.antt =====
-- The texts that make up a log line, in order, and that the code of src/pdns-logger-file.c and
-- src/pdns-logger-syslog.c appends exactly these.
use mathlib.Core.Path.{fun_ext}
use pdns_logger.Base.{
  ℕ, Bool, true, false, ◌&&◌, List, [], ◌∷◌, ◌++◌, Option, none, some, ◌≡◌, ◌⊎◌, refl, sym, ◌∙◌, ap,
  arith, ◌==◌, if◌then◌else◌, length, Result, ok, fault, ◌>>=◌,
}
use pdns_logger.Dns.{rcode2p, type2p, class2p}
use pdns_logger.Line.{
  Libc, Line, append, shown, append_from, append_if, append_question, is_type, name_types,
  rdata_text, append_rdata, numbered, append_record, check_subnet, append_policy, append_head,
}
use pdns_logger.Message.{Binary, as_string, Record, Question, Response, Message}
use pdns_logger.Text.{Text, codes, zstr, decimal, decimal_int}

unfoldable pub append_all : List Text → Line → Result Line
append_all [] l = ok l
append_all (t ∷ ts) l = append t l >>= append_all ts

bind_assoc :
    (r : Result Line) (f g : Line → Result Line) → (r >>= λ l. f l >>= g) ≡ ((r >>= f) >>= g)
bind_assoc (ok l) f g = refl
bind_assoc (fault e) f g = refl

pub append_all-append :
    (ps rest : List Text) (l : Line)
    → append_all (ps ++ rest) l ≡ (append_all ps l >>= append_all rest)
unfolding append_all
append_all-append [] rest l = refl
append_all-append (t ∷ ts) rest l =
    ap (λ k. append t l >>= k) (fun_ext (append_all-append ts rest))
    ∙ bind_assoc (append t l) (append_all ts) (append_all rest)

-- A step that appends `ps`, and one that appends `rest`, append `ps ++ rest` together.
chain :
    (f g : Line → Result Line) (ps rest : List Text)
    → ((l : Line) → f l ≡ append_all ps l)
    → ((l : Line) → g l ≡ append_all rest l)
    → (l : Line) → (f l >>= g) ≡ append_all (ps ++ rest) l
chain f g ps rest p q l =
    ap (λ r. r >>= g) (p l)
    ∙ ap (λ k. append_all ps l >>= k) (fun_ext q)
    ∙ sym (append_all-append ps rest l)

branch :
    (b : Bool) (f g : Line → Result Line) (ps qs : List Text)
    → ((l : Line) → f l ≡ append_all ps l)
    → ((l : Line) → g l ≡ append_all qs l)
    → (l : Line) → (if b then f l else g l) ≡ append_all (if b then ps else qs) l
branch true f g ps qs p q l = p l
branch false f g ps qs p q l = q l

nothing : (l : Line) → ok l ≡ append_all [] l
unfolding append_all
nothing l = refl

single : (t : Text) (l : Line) → append t l ≡ append_all (t ∷ []) l
unfolding append_all
single t l = after (append t l)
  where
    after : (r : Result Line) → r ≡ (r >>= λ k. ok k)
    after (ok k) = refl
    after (fault e) = refl

abbrev pub optional : {A : Type 0} → Option A → (A → Text) → List Text
optional none text = []
optional (some a) text = text a ∷ []

append_if_lem :
    {A : Type 0} (o : Option A) (text : A → Text) (l : Line)
    → append_if o text l ≡ append_all (optional o text) l
append_if_lem none text l = unfold append_all in refl
append_if_lem (some a) text l = single (text a) l

module _ (c : Libc) where
  abbrev pub from_pieces : Option Binary → List Text
  from_pieces none = []
  from_pieces (some b) =
      if length b.bytes == 4
      then (codes "from: " ++ c.ntop4 b.bytes ++ codes " ") ∷ []
      else if length b.bytes == 16
      then (codes "from: " ++ c.ntop6 b.bytes ++ codes " ") ∷ []
      else []

  abbrev pub question_pieces : Option Question → List Text
  question_pieces none = []
  question_pieces (some q) =
      optional q.qtype (λ t. codes "qtype: " ++ shown c (type2p t) ++ codes " ")
      ++ (optional q.qclass (λ t. codes "qclass: " ++ shown c (class2p t) ++ codes " ")
          ++ ((codes "qname: " ++ shown c q.qname ++ codes " ") ∷ []))

  abbrev pub policy_pieces : Option Text → List Text
  policy_pieces policy =
      if zstr policy then [] else (codes "policy: '" ++ shown c policy ++ codes "' ") ∷ []

  -- The texts in front of the records.
  unfoldable pub head_pieces : Message → Response → List Text
  head_pieces msg r =
      optional msg.id (λ i. codes "QID: " ++ decimal_int i ++ codes " ")
      ++ (from_pieces msg.from
          ++ (question_pieces msg.question
              ++ (optional r.rcode (λ k. codes "rcode: " ++ shown c (rcode2p k) ++ codes " ")
                  ++ (((codes "rrcount: " ++ decimal (length r.rrs) ++ codes " ") ∷ [])
                      ++ policy_pieces r.appliedpolicy))))

  abbrev pub rdata_pieces : ℕ → Option ℕ → Option Binary → List Text
  rdata_pieces t type none = []
  rdata_pieces t type (some d) =
      if is_type type 1 && length d.bytes == 4
      then rdata_text t (c.ntop4 d.bytes) ∷ []
      else if is_type type 28 && length d.bytes == 16
      then rdata_text t (c.ntop6 d.bytes) ∷ []
      else if name_types type
      then rdata_text t (shown c (as_string d)) ∷ []
      else codes "rdata (not supported) " ∷ []

  -- The texts of record number `t`.
  unfoldable pub record_pieces : ℕ → Record → List Text
  record_pieces t rr =
      (numbered (codes "rname-") t (shown c rr.name) ∷ [])
      ++ (optional rr.type (λ k. numbered (codes "rtype-") t (shown c (type2p k)))
          ++ (optional rr.class_ (λ k. numbered (codes "rclass-") t (shown c (class2p k)))
              ++ (optional rr.ttl (λ k. numbered (codes "rttl-") t (decimal_int k))
                  ++ rdata_pieces t rr.type rr.rdata)))

  append_from_lem :
      (b : Option Binary) (l : Line) → append_from c b l ≡ append_all (from_pieces b) l
  unfolding append_from
  append_from_lem none l = nothing l
  append_from_lem (some b) l =
      branch (length b.bytes == 4) _ _ _ _ (single _)
        (branch (length b.bytes == 16) _ _ _ _ (single _) nothing) l

  append_question_lem :
      (q : Option Question) (l : Line) → append_question c q l ≡ append_all (question_pieces q) l
  unfolding append_question
  append_question_lem none l = nothing l
  append_question_lem (some q) l =
      chain _ _ _ _ (append_if_lem q.qtype _) (chain _ _ _ _ (append_if_lem q.qclass _) (single _))
        l

  append_policy_lem :
      (p : Option Text) (l : Line) → append_policy c p l ≡ append_all (policy_pieces p) l
  append_policy_lem p l = branch (zstr p) _ _ _ _ nothing (single _) l

  append_rdata_lem :
      (t : ℕ) (type : Option ℕ) (d : Option Binary) (l : Line)
      → append_rdata c t type d l ≡ append_all (rdata_pieces t type d) l
  unfolding append_rdata
  append_rdata_lem t type none l = nothing l
  append_rdata_lem t type (some d) l =
      branch (is_type type 1 && length d.bytes == 4) _ _ _ _ (single _)
        (branch (is_type type 28 && length d.bytes == 16) _ _ _ _ (single _)
          (branch (name_types type) _ _ _ _ (single _) (single _)))
        l

  -- One round of the loop appends the record's texts, whatever it finds in the buffer.
  pub append_record_lem :
      (t : ℕ) (rr : Record) (l : Line) → append_record c t rr l ≡ append_all (record_pieces t rr) l
  unfolding append_record record_pieces
  append_record_lem t rr l =
      chain _ _ _ _ (single _)
        (chain _ _ _ _ (append_if_lem rr.type _) (
          chain _ _ _ _ (append_if_lem rr.class_ _)
            (chain _ _ _ _ (append_if_lem rr.ttl _) (append_rdata_lem t rr.type rr.rdata))))
        l

  -- With no EDNS client subnet in the message, or the assertion compiled out, the code in front of
  -- the loop appends the texts of the head.
  pub append_head_lem :
      (ndebug : Bool) (msg : Message) (r : Response) (l : Line)
      → (ndebug ≡ true) ⊎ (msg.originalrequestorsubnet ≡ none)
      → append_head c ndebug msg r l ≡ append_all (head_pieces msg r) l
  unfolding append_head head_pieces
  append_head_lem ndebug msg r l h =
      chain _ _ _ _ (append_if_lem msg.id _)
        (chain _ _ _ _ (append_from_lem msg.from) (λ k.
          unchecked k _
          ∙ chain _ _ _ _ (append_question_lem msg.question)
              (chain _ _ _ _ (append_if_lem r.rcode _)
                (chain _ _ _ _ (single _) (append_policy_lem r.appliedpolicy)))
              k))
        l
    where
      unchecked :
          (k : Line) (f : Line → Result Line)
          → (check_subnet ndebug msg.originalrequestorsubnet k >>= f) ≡ f k
      unchecked k f = ground arith
