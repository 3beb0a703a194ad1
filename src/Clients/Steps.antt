-- ===== src/Clients/Steps.antt =====
-- What a turn of a thread of src/pdns-logger-protobuf.c comes to as a deed.
use mathlib.Core.Path.{subst, subst₂}
use pdns_logger.Base.{
  ℕ, ◌+◌, ◌≤◌, ◌<◌, Bool, false, List, [], ◌∷◌, ◌++◌, Option, ◌≡◌, refl, sym, ap, ◌∙◌, arith, ltb,
  leb, leb→le, ◌==◌, if◌then◌else◌, Result, ok, fault, Bool-cases, inl, inr, append-nil,
}
use pdns_logger.Clients.{Phase, reading, extracting, handled, turn, Client}
use pdns_logger.Clients.Deeds.{Deed, message, of_client, Permits, Nothing, Good, perform}
use pdns_logger.Clients.Turns.{advanced-Good, waiting-Good}
use pdns_logger.Status.{Status}
use pdns_logger.Stream.Buffers.{payload}
use pdns_logger.Stream.Extract.{continue}
use pdns_logger.Stream.{
  Buffer, got, end_of_file, max_buffer_size, frame_length, advance, parse, fill,
}

-- The list of one client's message is its own.
own_message :
    (S : Type 0) (i : ℕ) (f : List ℕ) (j : ℕ)
    → (j == i) ≡ false
    → of_client {S = S} j (message i f ∷ []) ≡ []
own_message S i f j h = ground arith

its_message : (S : Type 0) (i : ℕ) (f : List ℕ) → of_client {S = S} i (message i f ∷ []) ≡ f ∷ []
its_message S i f = ground arith

module _ {M S : Type 0} (ndebug : Bool) (unpack : List ℕ → Option M)
    (log : M → S → Result Status × S) where
  pub turn-reads :
      (chunk : List ℕ) (b : Buffer) (s : S)
      → b.blen < max_buffer_size
      → turn ndebug unpack log reading (got chunk) b s
        ≡ (ok ((if ltb (fill chunk b).blen 2 then reading else extracting), fill chunk b), s)
  unfolding turn
  turn-reads chunk b s h = ground arith

  -- What a turn in the loop of `protobuf_extract` comes to, if it does not fault.
  pub record Extracted (i : ℕ) (c : Client) (done : List (List ℕ)) (s s' : S) (p : Phase)
      (b : Buffer) : Type 0 where
    pub new : List (Deed S)
    pub explains : perform ndebug unpack log new s ≡ (ok tt, s')
    pub permitted : Permits Nothing new
    pub good : Good (record { phase = p; buffer = b; sent = c.sent }) (done ++ of_client i new)
    pub own : (j : ℕ) → (j == i) ≡ false → of_client j new ≡ []

  handled-Extracted :
      (i : ℕ) {c : Client} {done : List (List ℕ)} (g : Good c done) (s : S) {s' : S} {p : Phase}
      {b : Buffer}
      → frame_length c.buffer.mem + 2 ≤ c.buffer.blen
      → handled ndebug unpack log (parse ndebug unpack log (payload c.buffer) s) (advance c.buffer)
        ≡ (ok (p, b), s')
      → Extracted i c done s s' p b
  unfolding perform
  handled-Extracted i {c} {done} g s {s'} {p} {b} whole e =
      by_parse (parse ndebug unpack log (payload c.buffer) s) refl e
    where
      by_parse :
          (m : Result Status × S)
          → parse ndebug unpack log (payload c.buffer) s ≡ m
          → handled ndebug unpack log m (advance c.buffer) ≡ (ok (p, b), s')
          → Extracted i c done s s' p b
      by_parse (ok status, u) parsed e =
          let moved : (if (advance c.buffer).blen == 0 then reading else extracting) ≡ p = cc in
          let left : advance c.buffer ≡ b = cc in
          let state : u ≡ s' = cc in
          record {
            new = message i (payload c.buffer) ∷ [];
            explains =
                ap (λ m. continue ndebug unpack log m (perform ndebug unpack log [])) parsed
                ∙ ap (λ t. (ok tt, t)) state;
            permitted = tt;
            good =
                subst (λ t. Good (record { phase = p; buffer = b; sent = c.sent }) (done ++ t))
                  (sym (its_message S i (payload c.buffer)))
                  (subst₂
                    (λ q t.
                      Good (record { phase = q; buffer = t; sent = c.sent })
                        (done ++ payload c.buffer ∷ []))
                    moved left (advanced-Good g whole));
            own = own_message S i (payload c.buffer);
          }
      by_parse (fault x, u) parsed e = absurd (cc (ap (λ (r : Result (Phase × Buffer) × S). r.0) e))

  pub turn-Extracted :
      (i : ℕ) {c : Client} {done : List (List ℕ)} (g : Good c done) (s : S) {s' : S} {p : Phase}
      {b : Buffer}
      → turn ndebug unpack log extracting end_of_file c.buffer s ≡ (ok (p, b), s')
      → Extracted i c done s s' p b
  unfolding turn payload perform
  turn-Extracted i {c} {done} g s {s'} {p} {b} e =
      elim (Bool-cases (leb (frame_length c.buffer.mem + 2) c.buffer.blen)) [
        | inl whole ↦ handled-Extracted i g s (leb→le _ _ whole) (sym (taken whole) ∙ e)
        | inr short ↦
            let stays : ◌≡◌ {A = Result (Phase × Buffer) × S} (ok (reading, c.buffer), s)
                (ok (p, b), s') =
              sym (taken short) ∙ e in
            let moved : reading ≡ p = cc in
            let left : c.buffer ≡ b = cc in
            record {
              new = [];
              explains = ap (λ t. (ok tt, t)) (ap (λ (r : Result (Phase × Buffer) × S). r.1) stays);
              permitted = tt;
              good =
                  subst (λ t. Good (record { phase = p; buffer = b; sent = c.sent }) t)
                    (sym (append-nil done))
                    (subst₂ (λ q t. Good (record { phase = q; buffer = t; sent = c.sent }) done)
                      moved left (waiting-Good g (ground arith)));
              own = λ j h. refl;
            }
      ]
    where
      taken :
          {b : Bool}
          → leb (frame_length c.buffer.mem + 2) c.buffer.blen ≡ b
          → turn ndebug unpack log extracting end_of_file c.buffer s ≡ (
              if◌then◌else◌ {A = Result (Phase × Buffer) × S} b
                (handled ndebug unpack log
                  (parse ndebug unpack log (payload c.buffer) s)
                  (advance c.buffer))
                (ok (reading, c.buffer), s))
      taken h =
          ap
            (λ b.
              if◌then◌else◌ {A = Result (Phase × Buffer) × S} b
                (handled ndebug unpack log (parse ndebug unpack log (payload c.buffer) s)
                  (advance c.buffer))
                (ok (reading, c.buffer), s))
            h
