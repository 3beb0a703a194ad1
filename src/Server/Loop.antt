-- ===== src/Server/Loop.antt =====
-- Which clients the loop of socket_loop in src/pdns-logger-protobuf.c serves.
use native.Mathlib.Decide.{ℕ_discrete}
use pdns_logger.Base.{
  ℕ, zero, suc, ◌+◌, ◌≤◌, ◌<◌, Bool, true, false, List, [], ◌∷◌, ◌++◌, Option, none, some, ◌≡◌,
  refl, sym, ap, ◌∙◌, arith, if◌then◌else◌, Result, ok, fault, ◌>>=◌, Bool-cases, Option-cases, inl,
  inr, append_assoc, append-nil, lt→ltb,
}
use pdns_logger.Config.{Globals}
use pdns_logger.Server.{
  Round, fd_setsize, accept_client, visit, scan, serve_ready, rounds, socket_loop,
}

-- `select` reports no descriptor but the one that it was asked about.
abbrev pub Reports : ℕ → Round → Type 0
Reports socket r =
    (ready : ℕ → Bool) → r.selected ≡ some ready → (i : ℕ) → ready i ≡ true → i ≡ socket

abbrev pub All : (Round → Type 0) → List Round → Type 0
All P [] = Unit {0}
All P (r ∷ rs) = P r × All P rs

-- The client of a round: `select` reports the socket, and `accept` gives a connection.
abbrev pub client_among : ℕ → Option ℕ → Option (ℕ → Bool) → List ℕ
client_among socket accepted none = []
client_among socket accepted (some ready) =
    if ready socket then (elim accepted [ none ↦ [] | some fd ↦ fd ∷ [] ]) else []

abbrev pub client : ℕ → Round → List ℕ
client socket r = client_among socket r.accepted r.selected

-- The clients until the loop's test fails, and whether it does.
abbrev pub clients : ℕ → List Round → List ℕ
clients socket [] = []
clients socket (r ∷ rs) = if r.running then client socket r ++ clients socket rs else []

abbrev pub stopped : List Round → Bool
stopped [] = false
stopped (r ∷ rs) = if r.running then stopped rs else true

>>=-keeps : {A : Type 0} (m : Result A) (k : A → Result A) → ((a : A) → k a ≡ ok a) → (m >>= k) ≡ m
>>=-keeps (ok a) k h = h a
>>=-keeps (fault e) k h = refl

module _ (ndebug : Bool) (socket : ℕ) (r : Round) (ready : ℕ → Bool)
    (only : (i : ℕ) → ready i ≡ true → i ≡ socket) where
  visit_socket :
      (served : List ℕ)
      → visit ndebug socket r ready socket served
        ≡ (if ready socket then accept_client r served else ok served)
  visit_socket served = ground arith

  scan-past :
      (n i : ℕ) (served : List ℕ) → socket < i → scan ndebug socket n r ready i served ≡ ok served
  unfolding scan
  scan-past zero i served h = refl
  scan-past (suc n) i served h = elim (Bool-cases (ready i)) [
    | inl on ↦ absurd (omega (arith, only i on))
    | inr off ↦ rw off (scan-past n (i + 1) served (omega arith))
  ]

  scan-over :
      (n i : ℕ) (served : List ℕ)
      → i ≤ socket
      → socket < i + n
      → scan ndebug socket n r ready i served
        ≡ (if ready socket then accept_client r served else ok served)
  unfolding scan
  scan-over zero i served h k = absurd (omega arith)
  scan-over (suc n) i served h k = elim (ℕ_discrete i socket) [
    | yes here ↦
        ap (λ j. visit ndebug socket r ready j served >>= scan ndebug socket n r ready (j + 1)) here
        ∙ >>=-keeps (visit ndebug socket r ready socket served) _
            (λ t. scan-past n (socket + 1) t (omega arith))
        ∙ visit_socket served
    | no apart ↦ elim (Bool-cases (ready i)) [
      | inl on ↦ absurd (apart (only i on))
      | inr off ↦ rw off (scan-over n (i + 1) served (omega arith) (omega arith))
    ]
  ]

-- A round serves its client.
serve_ready_lem :
    (ndebug : Bool) (socket : ℕ) (r : Round) (served : List ℕ)
    → socket < fd_setsize
    → r.prompt ≡ true
    → Reports socket r
    → serve_ready ndebug socket r r.selected served ≡ ok (served ++ client socket r)
serve_ready_lem ndebug socket r served small prompt reports = elim (Option-cases r.selected) [
  | inl failed ↦ from failed (ap ok (sym (append-nil served)))
  | inr (ready, e) ↦ from e (
      scan-over ndebug socket r ready (reports ready e) fd_setsize 0 served (omega arith)
        (omega arith)
      ∙ accepts ready)
]
  where
    from :
        {o : Option (ℕ → Bool)}
        → r.selected ≡ o
        → serve_ready ndebug socket r o served ≡ ok (served ++ client_among socket r.accepted o)
        → serve_ready ndebug socket r r.selected served ≡ ok (served ++ client socket r)
    from e h =
        ap (λ o. serve_ready ndebug socket r o served) e
        ∙ h
        ∙ ap (λ o. ok (served ++ client_among socket r.accepted o)) (sym e)

    accepts :
        (ready : ℕ → Bool)
        → (if ready socket then accept_client r served else ok served)
          ≡ ok (
              served
              ++ (if ready socket then (elim r.accepted [ none ↦ [] | some fd ↦ fd ∷ [] ]) else []))
    accepts ready = elim (Bool-cases (ready socket)) [
      | inl on ↦ elim (Option-cases r.accepted) [
        | inl refused ↦ rw on (rw refused (ap ok (sym (append-nil served))))
        | inr (fd, e) ↦ rw on (rw e (rw prompt refl))
      ]
      | inr off ↦ rw off (ap ok (sym (append-nil served)))
    ]

rounds_lem :
    (ndebug : Bool) (socket : ℕ) (rs : List Round) (served : List ℕ)
    → socket < fd_setsize
    → All (λ r. (r.prompt ≡ true) × Reports socket r) rs
    → rounds ndebug socket rs served ≡ ok (served ++ clients socket rs, stopped rs)
unfolding rounds
rounds_lem ndebug socket [] served small h = ap (λ l. ok (l, false)) (sym (append-nil served))
rounds_lem ndebug socket (r ∷ rs) served small h =
    let returned : Result (List ℕ × Bool) = ok (served, true) in
    ap (λ m. if r.running then m else returned)
      (ap (λ m. m >>= rounds ndebug socket rs)
          (serve_ready_lem ndebug socket r served small h.0.0 h.0.1)
        ∙ rounds_lem ndebug socket rs (served ++ client socket r) small h.1
        ∙ ap (λ l. ok (l, stopped rs)) (append_assoc served (client socket r) (clients socket rs)))
    ∙ tested r.running
  where
    tested :
        (b : Bool)
        → if◌then◌else◌ {A = Result (List ℕ × Bool)} b
            (ok (served ++ (client socket r ++ clients socket rs), stopped rs))
            (ok (served, true))
          ≡ ok (
            served ++ (if b then client socket r ++ clients socket rs else []),
            (if b then stopped rs else true),
          )
    tested true = refl
    tested false = ap (λ l. ok (l, true)) (sym (append-nil served))

-- If `select` reports no descriptor but the listening socket, which is below FD_SETSIZE, and each
-- new thread reads its argument in time, then the loop never trips its assertion: until the first
-- test of `conf->running` that fails, where it returns, it starts a thread for each connection that
-- `accept` gives, in order, and for nothing else.
pub socket_loop_lem :
    (ndebug : Bool) (g : Globals) (rs : List Round)
    → g.socket < fd_setsize
    → All (λ r. (r.prompt ≡ true) × Reports g.socket r) rs
    → socket_loop ndebug g rs ≡ ok (clients g.socket rs, stopped rs)
unfolding socket_loop
socket_loop_lem ndebug g rs small h =
    rw (lt→ltb g.socket fd_setsize small) (rounds_lem ndebug g.socket rs [] small h)
