-- ===== src/Clients/Order.antt =====
-- The messages of the clients of src/pdns-logger-protobuf.c in the engines, for any order in which
-- the threads take their turns.
use mathlib.Core.Path.{subst, subst₂}
use pdns_logger.Base.{
  none, ℕ, ◌≤◌, Bool, List, [], ◌∷◌, ◌++◌, Option, some, ◌≡◌, refl, sym, ap, ◌∙◌, arith, ltb,
  if◌then◌else◌, Result, ok, append-nil,
}
use pdns_logger.Clients.{
  Phase, reading, extracting, closed, Client, System, Step, connects, reads, extracts, ends,
  elsewhere, Reach, start, later,
}
use pdns_logger.Clients.Deeds.{
  Behind, Deed, other, of_client, of_client-append, Permits, Permits-Nothing, Permits-append, Waits,
  Good, perform, perform-append, Inv, put-Inv,
}
use pdns_logger.Clients.Turns.{fresh-Good, ended-Good, filled-Good}
use pdns_logger.Status.{Status}
use pdns_logger.Stream.Buffers.{used}
use pdns_logger.Stream.Frames.{Deframes, stop}
use pdns_logger.Stream.{Buffer, max_buffer_size, fill, fresh}
use pdns_logger.Clients.Steps.{turn-reads, turn-Extracted}

-- The messages `done` of a client against what it has sent, by the phase of its thread.
abbrev pub Logged : Phase → Client → List (List ℕ) → Type 0
Logged reading c done = Deframes c.sent done (used c.buffer)
Logged extracting c done = Behind c.sent done (used c.buffer)
Logged closed c done = Behind c.sent done (used c.buffer)

pub record Fits (c : Client) (done : List (List ℕ)) : Type 0 where
  pub within : c.buffer.blen ≤ max_buffer_size
  pub logged : Logged c.phase c done

abbrev pub Explained : Option Client → List (List ℕ) → Type 0
Explained none done = done ≡ []
Explained (some c) done = Fits c done

Good-Logged : {c : Client} {done : List (List ℕ)} → Good c done → Logged c.phase c done
Good-Logged {c} {done} g = by_phase c.phase refl
  where
    by_phase : (p : Phase) → c.phase ≡ p → Logged p c done
    by_phase reading idle =
        subst (λ t. Deframes c.sent t (used c.buffer)) (append-nil done)
          (g.behind.goes_on [] (used c.buffer) (stop (subst (λ p. Waits p c.buffer) idle g.waits)))
    by_phase extracting e = g.behind
    by_phase closed e = g.behind

module _ {M S : Type 0} (ndebug : Bool) (unpack : List ℕ → Option M)
    (log : M → S → Result Status × S) where
  Step-Inv :
      {Allowed : (S → S) → Type 0} {s₀ : S} {y z : System S}
      → Inv ndebug unpack log Allowed s₀ y
      → Step ndebug unpack log Allowed y z
      → Inv ndebug unpack log Allowed s₀ z
  unfolding perform
  Step-Inv {y} v (connects i stack free size) =
      put-Inv ndebug unpack log v i _ y.engines [] refl tt
        (subst (Good (record { phase = reading; buffer = fresh stack; sent = [] }))
          (sym (append-nil (of_client i v.deeds) ∙ v.absent i free)) (fresh-Good stack size))
        (λ j h. refl)
  Step-Inv {y} v (reads i c chunk {p} {b} {s} here idle pos room e) =
      let found : ◌≡◌ {A = Result (Phase × Buffer) × S}
          (
            ok (
              (if ltb (fill chunk c.buffer).blen 2 then reading else extracting),
              fill chunk c.buffer,
            ),
            y.engines,
          )
          (ok (p, b), s) =
        sym (turn-reads ndebug unpack log chunk c.buffer y.engines (omega arith)) ∙ e in
      let moved : (if ltb (fill chunk c.buffer).blen 2 then reading else extracting) ≡ p = cc in
      let filled : fill chunk c.buffer ≡ b = cc in
      put-Inv ndebug unpack log v i _ s []
        (ap (λ t. (ok tt, t)) (ap (λ (r : Result (Phase × Buffer) × S). r.1) found)) tt
        (subst (Good (record { phase = p; buffer = b; sent = c.sent ++ chunk }))
          (sym (append-nil (of_client i v.deeds)))
          (subst₂
            (λ q t.
              Good (record { phase = q; buffer = t; sent = c.sent ++ chunk }) (of_client i v.deeds))
            moved filled (filled-Good (v.good i c here) chunk idle room)))
        (λ j h. refl)
  Step-Inv {Allowed} {y = y} v (extracts i c {p} {b} {s} here busy e) =
      let x = turn-Extracted ndebug unpack log i (v.good i c here) y.engines e in
      put-Inv ndebug unpack log v i _ s x.new x.explains (Permits-Nothing Allowed x.new x.permitted)
        x.good x.own
  Step-Inv {y} v (ends i c here idle) =
      put-Inv ndebug unpack log v i (record c { phase = closed }) y.engines [] refl tt
        (subst (Good (record c { phase = closed })) (sym (append-nil (of_client i v.deeds)))
          (ended-Good (v.good i c here)))
        (λ j h. refl)
  Step-Inv {Allowed} {s₀} {y} v (elsewhere f allowed) = record {
    deeds = v.deeds ++ other f ∷ [];
    explains = perform-append ndebug unpack log v.deeds (other f ∷ []) s₀ y.engines v.explains;
    permitted = Permits-append Allowed v.deeds (other f ∷ []) v.permitted (allowed, tt);
    good = λ i c e. subst (Good c) (same i) (v.good i c e);
    absent = λ i e. sym (same i) ∙ v.absent i e;
  }
    where
      same : (i : ℕ) → of_client i v.deeds ≡ of_client i (v.deeds ++ other f ∷ [])
      same i =
          sym (append-nil (of_client i v.deeds)) ∙ sym (of_client-append i v.deeds (other f ∷ []))

  pub Reach-Inv :
      {Allowed : (S → S) → Type 0} {s₀ : S} {y : System S}
      → Reach ndebug unpack log Allowed s₀ y
      → Inv ndebug unpack log Allowed s₀ y
  unfolding perform
  Reach-Inv start = record {
    deeds = [];
    explains = refl;
    permitted = tt;
    good = λ i c e. absurd (cc);
    absent = λ i e. refl;
  }
  Reach-Inv (later r st) = Step-Inv (Reach-Inv r) st

  -- In any order of the turns of any number of connections there is one list of deeds, of messages
  -- logged and of changes that are allowed, that takes the engines from their first state to the present one.
  -- For each connection, its messages in that list, in their order, are the first whole frames that
  -- its client has sent, and its buffer, which is not overrun, holds the bytes behind them as far as
  -- they have been read. If it waits for bytes, they are all the whole frames. A number without a
  -- connection has no message.
  pub clients_lem :
      {Allowed : (S → S) → Type 0} {s₀ : S} {y : System S}
      → Reach ndebug unpack log Allowed s₀ y
      → (deeds : List (Deed S)) × (perform ndebug unpack log deeds s₀ ≡ (ok tt, y.engines))
        × Permits Allowed deeds
        × ((i : ℕ) → Explained (y.client i) (of_client i deeds))
  clients_lem {y} r =
      let v = Reach-Inv r in
      (v.deeds, v.explains, v.permitted, λ i. by_client i (y.client i) refl (v.good i) (v.absent i))
    where
      by_client :
          (i : ℕ) (o : Option Client) {done : List (List ℕ)}
          → y.client i ≡ o
          → ((c : Client) → y.client i ≡ some c → Good c done)
          → (y.client i ≡ none → done ≡ [])
          → Explained o done
      by_client i none e good absent = absent e
      by_client i (some c) e good absent =
          let g = good c e in record { within = g.within; logged = Good-Logged g }
