-- ===== src/Signing.antt =====
-- crates/protocol/src/signing.rs: what is signed of a request to the relay. A text is the list of
-- its code points; `utf8` gives its bytes.
pub mod Header
pub mod Canonical
pub mod Decimal
mod Tests
use shelly.Prelude.{
  ℕ, zero, suc, ◌+◌, ◌/◌, ◌%◌, ◌^◌, Bool, true, false, not, ◌&&◌, Option, none, some, List, [], ◌∷◌,
  ◌++◌, map, concat, length, Text, ltb, leb, ◌==◌, if◌then◌else◌,
}

pub data SignatureVersion : Type 0 where
  v1 v2 : SignatureVersion

abbrev pub v1_signature_prefix : Text
v1_signature_prefix = b'v' ∷ b'1' ∷ b'=' ∷ []

abbrev pub v2_signature_prefix : Text
v2_signature_prefix = b'v' ∷ b'2' ∷ b'=' ∷ []

-- "shelly-relay-request-v2"
abbrev pub v2_domain : List ℕ
v2_domain =
    b's' ∷ b'h' ∷ b'e' ∷ b'l' ∷ b'l' ∷ b'y' ∷ b'-' ∷ b'r' ∷ b'e' ∷ b'l' ∷ b'a' ∷ b'y' ∷ b'-' ∷ b'r'
    ∷ b'e' ∷ b'q' ∷ b'u' ∷ b'e' ∷ b's' ∷ b't' ∷ b'-' ∷ b'v' ∷ b'2' ∷ []

-- `u64::to_be_bytes`
unfoldable pub u64_be : ℕ → List ℕ
u64_be n =
    n / 2 ^ 56 % 256
    ∷ n / 2 ^ 48 % 256
    ∷ n / 2 ^ 40 % 256
    ∷ n / 2 ^ 32 % 256
    ∷ n / 2 ^ 24 % 256
    ∷ n / 2 ^ 16 % 256
    ∷ n / 2 ^ 8 % 256
    ∷ n % 256
    ∷ []

-- The bytes of a character in UTF-8.
unfoldable pub utf8_char : ℕ → List ℕ
utf8_char c =
    if ltb c 0x80
    then c ∷ []
    else if ltb c 0x800
    then (0xc0 + c / 64) ∷ (0x80 + c % 64) ∷ []
    else if ltb c 0x10000
    then (0xe0 + c / 4096) ∷ (0x80 + c / 64 % 64) ∷ (0x80 + c % 64) ∷ []
    else (0xf0 + c / 262144) ∷ (0x80 + c / 4096 % 64) ∷ (0x80 + c / 64 % 64) ∷ (0x80 + c % 64) ∷ []

-- `str::as_bytes`
unfoldable pub utf8 : Text → List ℕ
unfolding utf8_char
utf8 [] = []
utf8 (c ∷ s) = utf8_char c ++ utf8 s

-- The decimal digits of a number below 10 to the power of the fuel, and a u64 as `{}` prints it.
decimal : ℕ → ℕ → Text
decimal zero n = []
decimal (suc fuel) n =
    let rest = decimal fuel (n / 10) in
    if ltb n 10 then (b'0' + n) ∷ [] else rest ++ ((b'0' + n % 10) ∷ [])

unfoldable pub show_u64 : ℕ → Text
unfolding decimal
show_u64 n = decimal 20 n

-- `body` is the text of the body; `\n` is between the parts.
unfoldable pub canonical_request : Text → Text → Text → Text → ℕ → Text
unfolding show_u64
canonical_request method path body nonce ts_ms =
    method ++ 10 ∷ path ++ 10 ∷ body ++ 10 ∷ nonce ++ 10 ∷ show_u64 ts_ms

unfoldable pub fields : (List ℕ → List ℕ) → Text → Text → Text → List ℕ → Text → ℕ → List (List ℕ)
unfolding u64_be utf8
fields sha256 relay_audience method path body nonce ts_ms =
    v2_domain
    ∷ utf8 relay_audience
    ∷ utf8 method
    ∷ utf8 path
    ∷ sha256 body
    ∷ utf8 nonce
    ∷ u64_be ts_ms
    ∷ []

unfoldable pub field : List ℕ → List ℕ
unfolding u64_be
field bytes = u64_be (length bytes) ++ bytes

unfoldable pub canonical_request_v2 :
    (List ℕ → List ℕ) → Text → Text → Text → List ℕ → Text → ℕ → List ℕ
unfolding fields field
canonical_request_v2 sha256 relay_audience method path body nonce ts_ms =
    concat (map field (fields sha256 relay_audience method path body nonce ts_ms))

unfoldable pub prefix_of : SignatureVersion → Text
prefix_of v1 = v1_signature_prefix
prefix_of v2 = v2_signature_prefix

unfoldable pub signature_header : SignatureVersion → Text → Text
unfolding prefix_of
signature_header version encoded_signature = prefix_of version ++ encoded_signature

unfoldable pub strip_prefix : Text → Text → Option Text
strip_prefix [] s = some s
strip_prefix (p ∷ ps) [] = none
strip_prefix (p ∷ ps) (c ∷ s) = if c == p then strip_prefix ps s else none

-- The part before the first `c`, if there is one.
unfoldable pub before : ℕ → Text → Option Text
before c [] = none
before c (x ∷ s) =
    let rest = before c s in
    if x == c then some [] else elim rest [ none ↦ none | some t ↦ some (x ∷ t) ]

unfoldable pub are_digits : Text → Bool
are_digits [] = true
are_digits (c ∷ s) = leb b'0' c && leb c b'9' && are_digits s

unfoldable pub is_version_marker : Text → Bool
unfolding strip_prefix are_digits
is_version_marker value = elim (strip_prefix (b'v' ∷ []) value) [
  | none ↦ false
  | some digits ↦ not (length digits == 0) && are_digits digits
]

unfoldable pub has_version_marker : Text → Bool
unfolding before is_version_marker
has_version_marker value = elim (before b'=' value) [
  | none ↦ false
  | some version ↦ is_version_marker version
]

unfoldable pub split_signature_header : Text → Option (SignatureVersion × Text)
unfolding strip_prefix has_version_marker
split_signature_header value = elim (strip_prefix v1_signature_prefix value) [
  | some signature ↦ some (v1, signature)
  | none ↦ elim (strip_prefix v2_signature_prefix value) [
    | some signature ↦ some (v2, signature)
    | none ↦ if has_version_marker value then none else some (v1, value)
  ]
]
