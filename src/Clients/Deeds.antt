-- ===== src/Clients/Deeds.antt =====
-- What the threads of src/pdns-logger-protobuf.c have done to the engines, as one list, and what
-- holds of each connection with it.
use pdns_logger.Base.{
  ℕ, ◌≤◌, Bool, true, false, List, [], ◌∷◌, ◌++◌, Option, none, some, ◌≡◌, refl, sym, ap, ◌∙◌,
  arith, ◌==◌, ==_iff, if◌then◌else◌, length, Result, ok, fault, Bool-cases, inl, inr, append-nil,
}
use mathlib.Core.Path.{subst}
use pdns_logger.Clients.{Phase, reading, extracting, closed, Client, System, put}
use pdns_logger.Status.{Status}
use pdns_logger.Stream.Buffers.{used}
use pdns_logger.Stream.Extract.{continue}
use pdns_logger.Stream.Frames.{Incomplete, Deframes}
use pdns_logger.Stream.{Buffer, max_buffer_size, parse}

-- What has been done to the engines: a message of a client, decoded and logged, or something else.
pub data Deed (S : Type 0) : Type 0 where
  message : ℕ → List ℕ → Deed S
  other : (S → S) → Deed S

-- The messages of one client.
abbrev pub of_client : {S : Type 0} → ℕ → List (Deed S) → List (List ℕ)
of_client i [] = []
of_client i (message j f ∷ ds) = if j == i then f ∷ of_client i ds else of_client i ds
of_client i (other f ∷ ds) = of_client i ds

-- The other deeds are among those allowed.
abbrev pub Permits : {S : Type 0} → ((S → S) → Type 0) → List (Deed S) → Type 0
Permits Allowed [] = Unit {0}
Permits Allowed (message i f ∷ ds) = Permits Allowed ds
Permits Allowed (other f ∷ ds) = Allowed f × Permits Allowed ds

-- No change is allowed.
abbrev pub Nothing : {S : Type 0} → (S → S) → Type 0
Nothing f = ⊥

pub Permits-Nothing :
    {S : Type 0} (Allowed : (S → S) → Type 0) (ds : List (Deed S))
    → Permits Nothing ds
    → Permits Allowed ds
Permits-Nothing Allowed [] p = p
Permits-Nothing Allowed (message i f ∷ ds) p = Permits-Nothing Allowed ds p
Permits-Nothing Allowed (other f ∷ ds) p = absurd p.0

pub Permits-append :
    {S : Type 0} (Allowed : (S → S) → Type 0) (ds es : List (Deed S))
    → Permits Allowed ds
    → Permits Allowed es
    → Permits Allowed (ds ++ es)
Permits-append Allowed [] es p q = q
Permits-append Allowed (message i f ∷ ds) es p q = Permits-append Allowed ds es p q
Permits-append Allowed (other f ∷ ds) es (a, p) q = (a, Permits-append Allowed ds es p q)

pub of_client-append :
    {S : Type 0} (i : ℕ) (ds es : List (Deed S))
    → of_client i (ds ++ es) ≡ of_client i ds ++ of_client i es
of_client-append i [] es = refl
of_client-append i (message j f ∷ ds) es = ground (arith, of_client-append i ds es)
of_client-append i (other f ∷ ds) es = of_client-append i ds es

-- The bytes still in use come behind messages `done` of what a client sent.
pub record Behind (sent : List ℕ) (done : List (List ℕ)) (bytes : List ℕ) : Type 0 where
  pub goes_on :
      (frames : List (List ℕ)) (rest : List ℕ)
      → Deframes bytes frames rest
      → Deframes sent (done ++ frames) rest

-- While a thread reads, its buffer holds no whole frame.
abbrev pub Waits : Phase → Buffer → Type 0
Waits reading b = Incomplete (used b)
Waits extracting b = Unit {0}
Waits closed b = Unit {0}

-- What holds of a connection whose messages `done` are logged.
pub record Good (c : Client) (done : List (List ℕ)) : Type 0 where
  pub size : length c.buffer.mem ≡ max_buffer_size
  pub within : c.buffer.blen ≤ max_buffer_size
  pub behind : Behind c.sent done (used c.buffer)
  pub waits : Waits c.phase c.buffer

module _ {M S : Type 0} (ndebug : Bool) (unpack : List ℕ → Option M)
    (log : M → S → Result Status × S) where
  -- The deeds, one after the other.
  unfoldable pub perform : List (Deed S) → S → Result (Unit {0}) × S
  perform [] s = (ok tt, s)
  perform (message i f ∷ ds) s =
      continue ndebug unpack log (parse ndebug unpack log f s) (perform ds)
  perform (other f ∷ ds) s = perform ds (f s)

  -- What holds of the system: there is one order of all deeds that explains the engines, and that
  -- gives each connection its messages in the order in which they were sent.
  pub record Inv (Allowed : (S → S) → Type 0) (s₀ : S) (y : System S) : Type 0 where
    pub deeds : List (Deed S)
    pub explains : perform deeds s₀ ≡ (ok tt, y.engines)
    pub permitted : Permits Allowed deeds
    pub good : (i : ℕ) (c : Client) → y.client i ≡ some c → Good c (of_client i deeds)
    pub absent : (i : ℕ) → y.client i ≡ none → of_client i deeds ≡ []

  pub perform-append :
      (ds es : List (Deed S)) (s t : S)
      → perform ds s ≡ (ok tt, t)
      → perform (ds ++ es) s ≡ perform es t
  unfolding perform
  perform-append [] es s t h = ap (λ (r : Result (Unit {0}) × S). perform es r.1) h
  perform-append (message i f ∷ ds) es s t h =
      first (parse ndebug unpack log f s) h (λ u e. perform-append ds es u t e)
    where
      first :
          (p : Result Status × S)
          → continue ndebug unpack log p (perform ds) ≡ (ok tt, t)
          → ((u : S) → perform ds u ≡ (ok tt, t) → perform (ds ++ es) u ≡ perform es t)
          → continue ndebug unpack log p (perform (ds ++ es)) ≡ perform es t
      first (ok _, u) e ih = ih u e
      first (fault x, u) e ih = absurd (cc (ap (λ (r : Result (Unit {0}) × S). r.0) e))
  perform-append (other f ∷ ds) es s t h = perform-append ds es (f s) t h

  -- Connection `i` moves, with deeds of its own.
  pub put-Inv :
      {Allowed : (S → S) → Type 0} {s₀ : S} {y : System S} (v : Inv Allowed s₀ y) (i : ℕ)
      (c : Client) (s : S) (es : List (Deed S))
      → perform es y.engines ≡ (ok tt, s)
      → Permits Allowed es
      → Good c (of_client i v.deeds ++ of_client i es)
      → ((j : ℕ) → (j == i) ≡ false → of_client j es ≡ [])
      → Inv Allowed s₀ (put i c s y)
  put-Inv {Allowed} {s₀} {y} v i c s es done allowed good own = record {
    deeds = v.deeds ++ es;
    explains = perform-append v.deeds es s₀ y.engines v.explains ∙ done;
    permitted = Permits-append Allowed v.deeds es v.permitted allowed;
    good = λ j d e. elim (Bool-cases (j == i)) [
      | inl same ↦
          subst (λ t. Good d t) (now j same)
            (subst (λ t. Good t (of_client i v.deeds ++ of_client i es)) (is_new j d same e) good)
      | inr apart ↦ subst (λ t. Good d t) (before j apart) (v.good j d (is_old j (some d) apart e))
    ];
    absent = λ j e. elim (Bool-cases (j == i)) [
      | inl same ↦ absurd (gone j same e)
      | inr apart ↦ sym (before j apart) ∙ v.absent j (is_old j none apart e)
    ];
  }
    where
      now :
          (j : ℕ)
          → (j == i) ≡ true
          → of_client i v.deeds ++ of_client i es ≡ of_client j (v.deeds ++ es)
      now j same =
          ap (λ k. of_client k v.deeds ++ of_client k es) (sym ((==_iff j i).0 same))
          ∙ sym (of_client-append j v.deeds es)

      before : (j : ℕ) → (j == i) ≡ false → of_client j v.deeds ≡ of_client j (v.deeds ++ es)
      before j apart =
          sym (append-nil (of_client j v.deeds))
          ∙ ap (λ t. of_client j v.deeds ++ t) (sym (own j apart))
          ∙ sym (of_client-append j v.deeds es)

      is_new :
          (j : ℕ) (d : Client)
          → (j == i) ≡ true
          → (if j == i then some c else y.client j) ≡ some d
          → c ≡ d
      is_new j d same e =
          let both : some c ≡ some d = ap (λ b. if b then some c else y.client j) (sym same) ∙ e in
          cc

      is_old :
          (j : ℕ) (o : Option Client)
          → (j == i) ≡ false
          → (if j == i then some c else y.client j) ≡ o
          → y.client j ≡ o
      is_old j o apart e = ap (λ b. if b then some c else y.client j) (sym apart) ∙ e

      gone : (j : ℕ) → (j == i) ≡ true → ¬ ((if j == i then some c else y.client j) ≡ none)
      gone j same e =
          let both : some c ≡ none = ap (λ b. if b then some c else y.client j) (sym same) ∙ e in cc
