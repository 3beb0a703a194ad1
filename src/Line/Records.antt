-- ===== src/Line/Records.antt =====
-- What the loop over the records writes, and when it faults.
use pdns_logger.Base.{
  ℕ, ◌+◌, ◌≤◌, List, [], ◌∷◌, ◌++◌, ◌≡◌, refl, sym, ◌∙◌, ap, arith, length, Result, ok, fault,
  ◌>>=◌, append_assoc, length-append, take_all,
}
use pdns_logger.Line.Bounds.{At, joined, append_all-fits}
use pdns_logger.Line.Pieces.{append_all, append_all-append, record_pieces, append_record_lem}
use pdns_logger.Line.{Libc, Line, written, log_records}
use pdns_logger.Message.{Record}
use pdns_logger.Status.{pdns_ok}
use pdns_logger.Text.{Text}

module _ (c : Libc) where
  -- The texts of all records from number `t` on.
  abbrev pub all_pieces : ℕ → List Record → List Text
  all_pieces t [] = []
  all_pieces t (rr ∷ rrs) = record_pieces c t rr ++ all_pieces (t + 1) rrs

  -- The lines for the records: each repeats the one before it and goes on.
  abbrev pub record_lines : Text → ℕ → List Record → List Text
  record_lines s t [] = []
  record_lines s t (rr ∷ rrs) =
      let s' = s ++ joined (record_pieces c t rr) in s' ∷ record_lines s' (t + 1) rrs

abbrev pub write_all : {S : Type 0} → (Text → S → S) → List Text → S → S
write_all write [] s = s
write_all write (t ∷ ts) s = write_all write ts (write t s)

joined-append : (xs ys : List Text) → joined (xs ++ ys) ≡ joined xs ++ joined ys
joined-append [] ys = refl
joined-append (x ∷ xs) ys = ap (λ t. x ++ t) (joined-append xs ys) ∙ sym (append_assoc x _ _)

pub length-joined-append :
    (xs ys : List Text) → length (joined (xs ++ ys)) ≡ length (joined xs) + length (joined ys)
length-joined-append xs ys = ap length (joined-append xs ys) ∙ length-append (joined xs) (joined ys)

module _ (c : Libc) {S : Type 0} (write : Text → S → S) where
  -- Whether the loop faults does not depend on the lines between the records.
  pub log_records-status :
      (t : ℕ) (rrs : List Record) (l : Line) (s : S)
      → (log_records c write t rrs l s).0 ≡ (append_all (all_pieces c t rrs) l >>= λ _. ok pdns_ok)
  unfolding log_records append_all
  log_records-status t [] l s = refl
  log_records-status t (rr ∷ rrs) l s =
      ap (λ r. (written c write r (log_records c write (t + 1) rrs) s).0)
        (append_record_lem c t rr l)
      ∙ after (append_all (record_pieces c t rr) l) (log_records-status (t + 1) rrs)
      ∙ ap (λ r. r >>= λ _. ok pdns_ok)
          (sym (append_all-append (record_pieces c t rr) (all_pieces c (t + 1) rrs) l))
    where
      after :
          (r : Result Line)
          → ((l : Line) (s : S)
              → (log_records c write (t + 1) rrs l s).0
                ≡ (append_all (all_pieces c (t + 1) rrs) l >>= λ _. ok pdns_ok))
          → (written c write r (log_records c write (t + 1) rrs) s).0
            ≡ ((r >>= append_all (all_pieces c (t + 1) rrs)) >>= λ _. ok pdns_ok)
      after (ok k) ih = ih k (write k.str s)
      after (fault e) ih = refl

  -- With room for all the text, each record gets its line.
  pub log_records-fits :
      (t : ℕ) (rrs : List Record) (u : Text) (l : Line) (s : S)
      → At u l
      → length u + length (joined (all_pieces c t rrs)) ≤ 1023
      → log_records c write t rrs l s ≡ (ok pdns_ok, write_all write (record_lines c u t rrs) s)
  unfolding log_records
  log_records-fits t [] u l s a h = refl
  log_records-fits t (rr ∷ rrs) u l s a h =
      let ps = record_pieces c t rr in
      let whole = length-joined-append ps (all_pieces c (t + 1) rrs) in
      let (k, e, b) = append_all-fits ps u l a (omega (arith, whole)) in
      let line : k.str ≡ u ++ joined ps =
        b.holds
        ∙ take_all 1023 (u ++ joined ps) (omega (arith, whole, length-append u (joined ps))) in
      ap (λ r. written c write r (log_records c write (t + 1) rrs) s)
        (append_record_lem c t rr l ∙ e)
      ∙ log_records-fits (t + 1) rrs (u ++ joined ps) k (write k.str s) b
          (omega (arith, whole, length-append u (joined ps)))
      ∙ ap
          (λ x.
            (ok pdns_ok, write_all write (record_lines c (u ++ joined ps) (t + 1) rrs) (write x s)))
          line
