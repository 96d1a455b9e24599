-- ===== src/Signing/Tests.antt =====
-- Witnesses and tests of Signing.
use shelly.Prelude.{ℕ, ◌≡◌, refl, ◌%◌, none, some, List, [], ◌∷◌, Text, arith, length, All}
use shelly.Signing.{
  fields, v1, split_signature_header, canonical_request, canonical_request_v2, utf8, u64_be, field,
  show_u64,
}
use shelly.Signing.Canonical.{Short, canonical_request_v2_injective}

abbrev encoded : Text
encoded = b'A' ∷ b'B' ∷ b'=' ∷ []

abbrev future : Text
future = b'v' ∷ b'3' ∷ b'=' ∷ b'A' ∷ []

abbrev ts : ℕ
ts = 42

-- A stand-in for the digest, with a value of one byte.
abbrev digest : List ℕ → List ℕ
digest body = length body % 256 ∷ []

bare_read : split_signature_header encoded ≡ some (v1, encoded)
unfolding split_signature_header
bare_read = refl

-- The mark of a version that is not known.
future_refused : split_signature_header future ≡ none
unfolding split_signature_header
future_refused = refl

shown : show_u64 1042 ≡ b'1' ∷ b'0' ∷ b'4' ∷ b'2' ∷ []
unfolding show_u64
shown = refl

abbrev post : Text
post = b'P' ∷ b'O' ∷ b'S' ∷ b'T' ∷ []

abbrev path : Text
path = b'/' ∷ b'p' ∷ []

abbrev nonce : Text
nonce = b'n' ∷ []

canonical_layout :
    canonical_request post path (b'x' ∷ []) nonce 42
    ≡ b'P' ∷ b'O' ∷ b'S' ∷ b'T' ∷ 10 ∷ b'/' ∷ b'p' ∷ 10 ∷ b'x' ∷ 10 ∷ b'n' ∷ 10 ∷ b'4' ∷ b'2' ∷ []
unfolding canonical_request
canonical_layout = refl

short : (body : List ℕ) → All Short (fields digest nonce post path body nonce ts)
unfolding fields utf8 u64_be
short body = ground arith

-- Two bodies of the same length have the same digest here.
canonical_request_v2_injective_example :
    (utf8 nonce ≡ utf8 nonce)
    × (utf8 post ≡ utf8 post)
    × (utf8 path ≡ utf8 path)
    × (digest (1 ∷ []) ≡ digest (2 ∷ []))
    × (utf8 nonce ≡ utf8 nonce)
    × (ts ≡ ts)
unfolding canonical_request_v2 fields field
canonical_request_v2_injective_example =
    canonical_request_v2_injective digest nonce nonce post post path path nonce nonce (1 ∷ [])
      (2 ∷ []) ts ts (short (1 ∷ [])) (short (2 ∷ [])) (omega arith) (omega arith) refl
