-- ===== src/Code/Tests.antt =====
-- Runs of the code routines, as in the tests of code.rs, and the theorems at concrete inputs.
use shelly.Prelude.{ℕ, ◌<◌, ◌≡◌, ◌↔◌, refl, true, false, [], ◌∷◌, Text, arith, some}
use shelly.Code.{
  code_alphabet, contains, all, is_typed, alias, normalize_code, is_valid_code, code_char,
  generate_code,
}
use shelly.Code.Typing.{Spells, normalize_code-Spells_iff}
use shelly.Code.Generating.{generate_code-is_valid}

-- " ab2-3 4cd "
abbrev typed_code : Text
typed_code = b' ' ∷ b'a' ∷ b'b' ∷ b'2' ∷ b'-' ∷ b'3' ∷ b' ' ∷ b'4' ∷ b'c' ∷ b'd' ∷ b' ' ∷ []

abbrev canonical_code : Text
canonical_code = b'A' ∷ b'B' ∷ b'2' ∷ b'3' ∷ b'4' ∷ b'C' ∷ b'D' ∷ []

normalizes : normalize_code typed_code ≡ canonical_code
unfolding normalize_code is_typed alias
normalizes = refl

canonical_is_valid : is_valid_code canonical_code ≡ true
unfolding is_valid_code all contains
canonical_is_valid = refl

too_short : is_valid_code (b'A' ∷ b'B' ∷ []) ≡ false
unfolding is_valid_code
too_short = refl

-- "iloO0" is "11000".
aliases :
    normalize_code (b'i' ∷ b'l' ∷ b'o' ∷ b'O' ∷ b'0' ∷ []) ≡ b'1' ∷ b'1' ∷ b'0' ∷ b'0' ∷ b'0' ∷ []
unfolding normalize_code is_typed alias
aliases = refl

abbrev steady : ℕ → ℕ
steady k = 200

steady_below : (k : ℕ) → steady k < 256
steady_below k = omega arith

-- 200 is 8 modulo 32.
drawn : generate_code steady ≡ some (b'8' ∷ b'8' ∷ b'8' ∷ b'8' ∷ b'8' ∷ b'8' ∷ b'8' ∷ [])
unfolding generate_code code_char
drawn = refl

normalize_code-Spells_iff_example :
    (normalize_code typed_code ≡ canonical_code) ↔ Spells typed_code canonical_code
normalize_code-Spells_iff_example =
    normalize_code-Spells_iff typed_code canonical_code canonical_is_valid

generate_code-is_valid_example :
    (code : Text) × (generate_code steady ≡ some code) × (is_valid_code code ≡ true)
generate_code-is_valid_example = generate_code-is_valid steady steady_below

z_in_alphabet : contains b'Z' code_alphabet ≡ true
unfolding contains
z_in_alphabet = refl
