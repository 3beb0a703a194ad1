-- ===== src/Stream/Frames.antt =====
-- The framing that src/pdns-logger-protobuf.c expects of a stream: each message behind its length,
-- in two bytes, the high one first.
use pdns_logger.Base.{
  ◌≤◌, length-append, ℕ, ◌+◌, ◌*◌, ◌/◌, ◌%◌, ◌<◌, List, [], ◌∷◌, ◌++◌, ◌≡◌, ◌∙◌, ap, arith, length,
  append_assoc,
}

-- The bytes do not hold a whole frame.
pub data Incomplete : List ℕ → Type 0 where
  no_bytes : Incomplete []
  one_byte : (hi : ℕ) → Incomplete (hi ∷ [])
  partial : (hi lo : ℕ) (tail : List ℕ) → length tail < hi * 256 + lo → Incomplete (hi ∷ lo ∷ tail)

-- `Deframes bytes frames rest`: the bytes are the frames, and a rest that holds no whole frame.
pub data Deframes : List ℕ → List (List ℕ) → List ℕ → Type 0 where
  stop : {rest : List ℕ} → Incomplete rest → Deframes rest [] rest
  frame :
      {bytes rest : List ℕ} {frames : List (List ℕ)} (hi lo : ℕ) (payload tail : List ℕ)
      → bytes ≡ hi ∷ lo ∷ (payload ++ tail)
      → length payload ≡ hi * 256 + lo
      → Deframes tail frames rest
      → Deframes bytes (payload ∷ frames) rest

-- How a client sends a message, and messages.
abbrev pub encode : List ℕ → List ℕ
encode payload = (length payload / 256) ∷ (length payload % 256) ∷ payload

abbrev pub encode_all : List (List ℕ) → List ℕ
encode_all [] = []
encode_all (p ∷ ps) = encode p ++ encode_all ps

-- What is sent is what is found, whatever incomplete frame follows.
pub Deframes-encode_all :
    (ps : List (List ℕ)) {rest : List ℕ}
    → Incomplete rest
    → Deframes (encode_all ps ++ rest) ps rest
Deframes-encode_all [] i = stop i
Deframes-encode_all (p ∷ ps) {rest} i =
    frame (length p / 256) (length p % 256) p (encode_all ps ++ rest)
      (ap (λ t. (length p / 256) ∷ (length p % 256) ∷ t) (append_assoc p (encode_all ps) rest))
      (omega arith) (Deframes-encode_all ps i)

-- Bytes that arrive later go behind the rest of those before.
pub Deframes-append :
    (more : List ℕ) {bytes rest rest' : List ℕ} {frames frames' : List (List ℕ)}
    → Deframes bytes frames rest
    → Deframes (rest ++ more) frames' rest'
    → Deframes (bytes ++ more) (frames ++ frames') rest'
Deframes-append more (stop i) d = d
Deframes-append more (frame hi lo payload tail e n f) d =
    frame hi lo payload (tail ++ more)
      (ap (λ b. b ++ more) e ∙ ap (λ t. hi ∷ lo ∷ t) (append_assoc payload tail more)) n
      (Deframes-append more f d)

pub Deframes-length :
    {bytes rest : List ℕ} {frames : List (List ℕ)}
    → Deframes bytes frames rest
    → length rest ≤ length bytes
Deframes-length (stop i) = omega arith
Deframes-length (frame hi lo payload tail e n d) =
    omega (arith, ap length e, length-append payload tail, Deframes-length d)

pub Deframes-Incomplete :
    {bytes rest : List ℕ} {frames : List (List ℕ)} → Deframes bytes frames rest → Incomplete rest
Deframes-Incomplete (stop i) = i
Deframes-Incomplete (frame hi lo payload tail e n d) = Deframes-Incomplete d
