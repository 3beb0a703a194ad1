-- ===== src/Sqlite/Known.antt =====
-- The fields of each row, with no loop that carries them: what the last record so far that has a
-- field says.
use pdns_logger.Base.{
  ℕ, List, [], ◌∷◌, ◌++◌, Option, none, some, ◌≡◌, refl, sym, ap, ◌∙◌, Option-cases, inl, inr,
}
use pdns_logger.Dns.{type2p, class2p}
use pdns_logger.Line.{Libc}
use pdns_logger.Message.{Binary, Record, Response, Message}
use pdns_logger.Sqlite.Rows.{Row, Carried, nothing_carried, set_if, rdata_of, carry, row}
use pdns_logger.Text.{Text}

-- The field of the last record that has it.
unfoldable pub last_known {ℓ} : {A : Type ℓ} → (Record → Option A) → List Record → Option A
last_known f [] = none
last_known f (rr ∷ rrs) = elim (last_known f rrs) [ none ↦ f rr | some a ↦ some a ]

abbrev over {ℓ} : {A : Type ℓ} → Option A → Option A → Option A
over none old = old
over (some a) old = some a

last_known-snoc {ℓ} :
    {A : Type ℓ} (f : Record → Option A) (rrs : List Record) (rr : Record)
    → last_known f (rrs ++ rr ∷ []) ≡ over (f rr) (last_known f rrs)
unfolding last_known
last_known-snoc f [] rr = elim (Option-cases (f rr)) [ inl e ↦ rw e refl | inr (a, e) ↦ rw e refl ]
last_known-snoc f (r ∷ rrs) rr = elim (Option-cases (f rr)) [
  | inl e ↦ rw (last_known-snoc f rrs rr) (rw e refl)
  | inr (a, e) ↦ rw (last_known-snoc f rrs rr) (rw e refl)
]

set_if-over {ℓ} :
    {A B : Type ℓ} (new old : Option A) (g : A → B) (b : B)
    → set_if new g (set_if old g b) ≡ set_if (over new old) g b
set_if-over none old g b = refl
set_if-over (some a) old g b = refl

-- Setting a variable at one more record.
set_if-snoc {ℓ} :
    {A B : Type ℓ} (f : Record → Option A) (g : A → B) (b : B) (rrs : List Record) (rr : Record)
    → set_if (f rr) g (set_if (last_known f rrs) g b) ≡ set_if (last_known f (rrs ++ rr ∷ [])) g b
set_if-snoc f g b rrs rr =
    set_if-over (f rr) (last_known f rrs) g b
    ∙ ap (λ o. set_if o g b) (sym (last_known-snoc f rrs rr))

-- The data of a record with its type.
abbrev typed_data : Record → Option (Option ℕ × Binary)
typed_data rr = elim rr.rdata [ none ↦ none | some d ↦ some (rr.type, d) ]

module _ (c : Libc) where
  abbrev show : Option ℕ × Binary → Option Text
  show p = some (rdata_of c p.0 p.1)

  -- What the variables hold behind some records.
  abbrev pub known : List Record → Carried
  known rrs = record {
    rtype = set_if (last_known (λ r. r.type) rrs) type2p none;
    rclass = set_if (last_known (λ r. r.class_) rrs) class2p none;
    rttl = set_if (last_known (λ r. r.ttl) rrs) (λ t. t) 0;
    rdata = set_if (last_known typed_data rrs) show none;
  }

  pub known-nil : known [] ≡ nothing_carried
  unfolding last_known
  known-nil = refl

  carry-data :
      (rr : Record) (old : Option Text)
      → set_if rr.rdata (λ d. some (rdata_of c rr.type d)) old ≡ set_if (typed_data rr) show old
  carry-data rr old = elim (Option-cases rr.rdata) [ inl e ↦ rw e refl | inr (d, e) ↦ rw e refl ]

  pub carry-known :
      (rrs : List Record) (rr : Record) → carry c rr (known rrs) ≡ known (rrs ++ rr ∷ [])
  unfolding carry
  carry-known rrs rr = λ i. record {
    rtype = set_if-snoc (λ r. r.type) type2p none rrs rr i;
    rclass = set_if-snoc (λ r. r.class_) class2p none rrs rr i;
    rttl = set_if-snoc (λ r. r.ttl) (λ t. t) 0 rrs rr i;
    rdata = (carry-data rr (known rrs).rdata ∙ set_if-snoc typed_data show none rrs rr) i;
  }

  -- The rows of the records `rest`, behind the records `before`.
  unfoldable pub rows_behind : Message → Response → List Record → List Record → List Row
  rows_behind msg r before [] = []
  rows_behind msg r before (rr ∷ rest) =
      row c msg r rr.name (known (before ++ rr ∷ [])) ∷ rows_behind msg r (before ++ rr ∷ []) rest

  abbrev pub rows_for : Message → Response → List Record → List Row
  rows_for msg r [] = row c msg r none nothing_carried ∷ []
  rows_for msg r (rr ∷ rest) = rows_behind msg r [] (rr ∷ rest)

  -- The rows of a message: one for each record, or one with no record.
  abbrev pub message_rows : Message → Response → List Row
  message_rows msg r = rows_for msg r r.rrs
