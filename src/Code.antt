-- ===== src/Code.antt =====
-- crates/protocol/src/code.rs, and `generate_code` of crates/daemon/src/pairing.rs: pairing codes.
-- A text is the list of its characters' code points.
pub mod Typing
pub mod Generating
mod Tests
use Prim.Native.Nat.{bit_and}
use shelly.Prelude.{
  ℕ, zero, suc, ◌+◌, ◌-◌, Bool, true, false, not, ◌&&◌, ◌||◌, Option, none, some, List, [], ◌∷◌,
  map, Text, ltb, leb, ◌==◌, if◌then◌else◌, length, get_elem?,
}

abbrev pub code_len : ℕ
code_len = 7

abbrev pub code_alphabet : Text
code_alphabet =
    b'0' ∷ b'1' ∷ b'2' ∷ b'3' ∷ b'4' ∷ b'5' ∷ b'6' ∷ b'7' ∷ b'8' ∷ b'9' ∷ b'A' ∷ b'B' ∷ b'C' ∷ b'D'
    ∷ b'E' ∷ b'F' ∷ b'G' ∷ b'H' ∷ b'J' ∷ b'K' ∷ b'M' ∷ b'N' ∷ b'P' ∷ b'Q' ∷ b'R' ∷ b'S' ∷ b'T'
    ∷ b'V' ∷ b'W' ∷ b'X' ∷ b'Y' ∷ b'Z' ∷ []

-- `str::contains` of one character
unfoldable pub contains : ℕ → Text → Bool
contains c [] = false
contains c (x ∷ xs) = x == c || contains c xs

unfoldable pub all : (ℕ → Bool) → Text → Bool
all p [] = true
all p (c ∷ s) = p c && all p s

unfoldable pub keep : (ℕ → Bool) → Text → Text
keep p [] = []
keep p (c ∷ s) = if p c then c ∷ keep p s else keep p s

-- `char::is_whitespace`: the Unicode property White_Space
unfoldable pub is_whitespace : ℕ → Bool
is_whitespace c =
    (leb 9 c && leb c 13)
    || c == 0x20
    || c == 0x85
    || c == 0xa0
    || c == 0x1680
    || (leb 0x2000 c && leb c 0x200a)
    || c == 0x2028
    || c == 0x2029
    || c == 0x202f
    || c == 0x205f
    || c == 0x3000

-- `char::to_ascii_uppercase`
unfoldable pub to_ascii_uppercase : ℕ → ℕ
to_ascii_uppercase c = if leb b'a' c && leb c b'z' then c - 32 else c

unfoldable pub is_typed : ℕ → Bool
unfolding is_whitespace
is_typed c = not (is_whitespace c) && not (c == b'-')

-- The characters that are easily confused with a digit.
unfoldable pub alias : ℕ → ℕ
unfolding to_ascii_uppercase
alias c =
    let u = to_ascii_uppercase c in
    if u == b'I' || u == b'L' then b'1' else if u == b'O' then b'0' else u

unfoldable pub normalize_code : Text → Text
unfolding keep
normalize_code input = map alias (keep is_typed input)

unfoldable pub is_valid_code : Text → Bool
is_valid_code code = length code == code_len && all (λ c. contains c code_alphabet) code

-- The character that a random byte selects. An index past the alphabet would be a panic, `none`.
unfoldable pub code_char : ℕ → Option ℕ
code_char byte = get_elem? code_alphabet (bit_and byte 0x1f)

-- The loop of `generate_code`: `left` characters are missing, and the random source has given `i`
-- bytes.
unfoldable pub draw : (ℕ → ℕ) → ℕ → ℕ → Option Text
draw rng i zero = some []
draw rng i (suc left) = elim (code_char (rng i)) [
  | none ↦ none
  | some c ↦ elim (draw rng (i + 1) left) [ none ↦ none | some rest ↦ some (c ∷ rest) ]
]

unfoldable pub generate_code : (ℕ → ℕ) → Option Text
unfolding draw
generate_code rng = draw rng 0 code_len
