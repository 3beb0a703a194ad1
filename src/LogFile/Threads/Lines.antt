-- ===== src/LogFile/Threads/Lines.antt =====
-- The lines that several threads write at once by src/pdns-logger-file.c, in the file.
use mathlib.Core.Path.{subst}
use native.Mathlib.Decide.{ℕ_discrete}
use pdns_logger.Base.{
  ◌⊎◌, inl, inr, some, none, goto, goto_here, goto_other, of_thread, of_thread-append,
  of_thread-own, of_thread-other, true, ℕ, List, [], ◌∷◌, ◌++◌, ◌≡◌, ◌≢◌, refl, sym, ap, ◌∙◌, arith,
  if◌then◌else◌, append-nil, append_assoc,
}
use pdns_logger.Config.{string}
use pdns_logger.LogFile.Threads.{
  Phase, outside, before, tested, printed, State, tagged, moves, go_on, enters, hung_up,
}
use pdns_logger.LogFile.{Event, opened, wrote, flushed, closed, Engine, emit, rotate}
use pdns_logger.Text.{Text}

-- The lines in the file.
abbrev pub texts : List Event → List Text
texts [] = []
texts (wrote t ∷ es) = t ∷ texts es
texts (opened f ∷ es) = texts es
texts (flushed ∷ es) = texts es
texts (closed ∷ es) = texts es

texts-append : (es fs : List Event) → texts (es ++ fs) ≡ texts es ++ texts fs
texts-append [] fs = refl
texts-append (wrote t ∷ es) fs = ap (λ l. t ∷ l) (texts-append es fs)
texts-append (opened f ∷ es) fs = texts-append es fs
texts-append (flushed ∷ es) fs = texts-append es fs
texts-append (closed ∷ es) fs = texts-append es fs

abbrev pub untagged : List (ℕ × Text) → List Text
untagged [] = []
untagged ((i, t) ∷ l) = t ∷ untagged l

untagged-append : (l m : List (ℕ × Text)) → untagged (l ++ m) ≡ untagged l ++ untagged m
untagged-append [] m = refl
untagged-append ((i, t) ∷ l) m = ap (λ x. t ∷ x) (untagged-append l m)

-- What a thread is still to write.
abbrev pub left : Phase → List Text
left outside = []
left (before ts) = ts
left (tested t ts) = t ∷ ts
left (printed ts) = ts

of_thread-tagged : (i : ℕ) (ts : List Text) → of_thread i (tagged i ts) ≡ ts
of_thread-tagged i [] = refl
of_thread-tagged i (t ∷ ts) = ground (arith, of_thread-tagged i ts)

of_thread-tagged_other : (i j : ℕ) (ts : List Text) → j ≢ i → of_thread j (tagged i ts) ≡ []
of_thread-tagged_other i j [] n = refl
of_thread-tagged_other i j (t ∷ ts) n = ground (arith, of_thread-tagged_other i j ts n)

-- What each thread is to write, it has written or still to write.
abbrev pub Told : List (ℕ × Text) → List (ℕ × Text) → (ℕ → Phase) → Type 0
Told asked put phase = (j : ℕ) → of_thread j asked ≡ of_thread j put ++ left (phase j)

Told-goto :
    (i : ℕ) (p : Phase) (phase : ℕ → Phase) (asked asked' put put' : List (ℕ × Text))
    → of_thread i asked' ≡ of_thread i put' ++ left p
    → ((j : ℕ)
        → j ≢ i
        → (of_thread j asked' ≡ of_thread j asked) × (of_thread j put' ≡ of_thread j put))
    → Told asked put phase
    → Told asked' put' (goto i p phase)
Told-goto i p phase asked asked' put put' own others h j = elim (ℕ_discrete j i) [
  | yes e ↦
      subst (λ k. of_thread k asked' ≡ of_thread k put' ++ left (goto i p phase k)) (sym e)
        (rw (goto_here i p phase) own)
  | no n ↦
      let o = others j n in
      rw (goto_other i p phase j n) (o.0 ∙ h j ∙ ap (λ l. l ++ left (phase j)) (sym o.1))
]

pub record Inv (e : Engine) (s : State) : Type 0 where
  pub ready : s.engine.fp ≡ true
  pub put : List (ℕ × Text)
  pub file : texts s.engine.events ≡ texts e.events ++ untagged put
  pub told : Told s.asked put s.phase

module _ (e : Engine) where
  -- Thread `i` goes on, and neither begins nor writes.
  kept-Told :
      {s : State} (v : Inv e s) (i : ℕ) (p₀ p : Phase)
      → s.phase i ≡ p₀
      → left p ≡ left p₀
      → Told s.asked v.put (goto i p s.phase)
  kept-Told {s} v i p₀ p x same =
      Told-goto i p s.phase s.asked s.asked v.put v.put
        (v.told i
          ∙ ap (λ q. of_thread i v.put ++ left q) x
          ∙ ap (λ l. of_thread i v.put ++ l) (sym same))
        (λ j n. (refl, refl)) v.told

  pub enters-Inv :
      {s : State} (i : ℕ) (ls : List Text) → Inv e s → s.phase i ≡ outside → Inv e (enters i ls s)
  enters-Inv {s} i ls v x = record {
    ready = v.ready;
    put = v.put;
    file = v.file;
    told =
        Told-goto i (before ls) s.phase s.asked (s.asked ++ tagged i ls) v.put v.put
          (of_thread-append i s.asked (tagged i ls)
            ∙ ap (λ l. l ++ of_thread i (tagged i ls))
                (v.told i ∙ ap (λ q. of_thread i v.put ++ left q) x ∙ append-nil _)
            ∙ ap (λ l. of_thread i v.put ++ l) (of_thread-tagged i ls))
          (λ j n. (
            of_thread-append j s.asked (tagged i ls)
                ∙ ap (λ l. of_thread j s.asked ++ l) (of_thread-tagged_other i j ls n)
                ∙ append-nil _,
            refl,
          ))
          v.told;
  }

  -- The next step of thread `i`, which is there.
  pub go_on-Inv :
      {s : State} (i : ℕ) (p : Phase)
      → Inv e s
      → s.phase i ≡ p
      → (s.phase i ≡ outside) ⊎ ((t : State) × (go_on i p s ≡ some t) × Inv e t)
  go_on-Inv i outside v x = inl x
  go_on-Inv i (before []) v x = inr (
    _,
    refl,
    record { ready = v.ready; put = v.put; file = v.file; told = kept-Told v i _ _ x refl },
  )
  go_on-Inv {s} i (before (t ∷ ts)) v x = inr (
    _,
    refl,
    record {
      ready = v.ready;
      put = v.put;
      file = v.file;
      told =
          subst (λ b. Told s.asked v.put (goto i (if b then tested t ts else before ts) s.phase))
            (sym v.ready) (kept-Told v i (before (t ∷ ts)) (tested t ts) x refl);
    },
  )
  go_on-Inv {s} i (tested t ts) v x = inr (
    moves i (printed ts) (record s { engine = emit (wrote t) s.engine }),
    ap
        (λ b.
          if b
          then some (moves i (printed ts) (record s { engine = emit (wrote t) s.engine }))
          else none)
        v.ready,
    record {
      ready = v.ready;
      put = v.put ++ (i, t) ∷ [];
      file =
          texts-append s.engine.events (wrote t ∷ [])
          ∙ ap (λ l. l ++ t ∷ []) v.file
          ∙ append_assoc (texts e.events) (untagged v.put) (t ∷ [])
          ∙ ap (λ l. texts e.events ++ l) (sym (untagged-append v.put ((i, t) ∷ [])));
      told =
          Told-goto i (printed ts) s.phase s.asked s.asked v.put (v.put ++ (i, t) ∷ [])
            (v.told i
              ∙ ap (λ q. of_thread i v.put ++ left q) x
              ∙ sym (append_assoc (of_thread i v.put) (t ∷ []) ts)
              ∙ ap (λ l. l ++ ts) (sym (of_thread-own i v.put t)))
            (λ j n. (refl, of_thread-other i j v.put t n)) v.told;
    },
  )
  go_on-Inv {s} i (printed ts) v x = inr (
    _,
    refl,
    record {
      ready = ground (arith, v.ready);
      put = v.put;
      file = ground (
        arith,
        v.file,
        texts-append s.engine.events (flushed ∷ []),
        append-nil (texts s.engine.events),
      );
      told = kept-Told v i _ _ x refl;
    },
  )

  pub hung_up-Inv : {s : State} → Inv e s → Inv e (hung_up true s)
  unfolding rotate
  hung_up-Inv {s} v = record {
    ready = ground (arith, v.ready);
    put = v.put;
    file = ground (
      arith,
      v.ready,
      v.file,
      texts-append s.engine.events (opened (string s.engine.file) ∷ []),
      append-nil (texts s.engine.events),
    );
    told = v.told;
  }
