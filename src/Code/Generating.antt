-- ===== src/Code/Generating.antt =====
-- The codes that `generate_code` draws.
use shelly.Prelude.{
  ℕ, zero, suc, ◌+◌, ◌<◌, ◌≡◌, refl, ap, Bool, true, false, not, ◌||◌, Option, none, some, [], ◌∷◌,
  Text, arith, ◌==◌, ==_iff, length, if◌then◌else◌, holds_below, holds_below_lem,
}
use shelly.Code.{
  code_len, code_alphabet, contains, all, code_char, draw, generate_code, is_valid_code,
}
use shelly.Code.Typing.{alphabet_ascii}

is_letter : Option ℕ → Bool
is_letter none = false
is_letter (some c) = contains c code_alphabet

letter_table : holds_below (λ b. is_letter (code_char b)) 256 ≡ true
unfolding holds_below is_letter code_char contains
letter_table = refl

code_char_lem :
    (b : ℕ) → b < 256 → (c : ℕ) × (code_char b ≡ some c) × (contains c code_alphabet ≡ true)
unfolding is_letter
code_char_lem b h = go (code_char b) (holds_below_lem _ 256 b h letter_table)
  where
    go :
        (o : Option ℕ)
        → is_letter o ≡ true
        → (c : ℕ) × (o ≡ some c) × (contains c code_alphabet ≡ true)
    go none e = absurd (cc)
    go (some c) e = (c, refl, e)

draw_lem :
    (rng : ℕ → ℕ) (i left : ℕ)
    → ((k : ℕ) → rng k < 256)
    → (code : Text) × (draw rng i left ≡ some code)
      × (length code ≡ left)
      × (all (λ c. contains c code_alphabet) code ≡ true)
unfolding draw all
draw_lem rng i zero bytes = ([], refl, refl, refl)
draw_lem rng i (suc left) bytes =
    let (c, e, letter) = code_char_lem (rng i) (bytes i) in
    let (rest, drawn, size, letters) = draw_lem rng (i + 1) left bytes in
    (c ∷ rest, rw (e, draw) (rw drawn), ap suc size, ground (arith, letter, letters))

-- Whatever bytes the random source gives, `generate_code` ends without a panic, with a valid code.
pub generate_code-is_valid :
    (rng : ℕ → ℕ)
    → ((k : ℕ) → rng k < 256)
    → (code : Text) × (generate_code rng ≡ some code) × (is_valid_code code ≡ true)
unfolding generate_code is_valid_code
generate_code-is_valid rng bytes =
    let (code, drawn, size, letters) = draw_lem rng 0 code_len bytes in
    (code, drawn, ground (arith, size, letters))

selects : ℕ → Option ℕ → Bool
selects x none = false
selects x (some c) = c == x

-- How many of the bytes below a bound select the character.
unfoldable pub selecting : ℕ → ℕ → ℕ
unfolding selects code_char
selecting x zero = 0
selecting x (suc b) = selecting x b + (if selects x (code_char b) then 1 else 0)

uniform_table : holds_below (λ x. not (contains x code_alphabet) || selecting x 256 == 8) 91 ≡ true
unfolding holds_below contains selecting
uniform_table = refl

-- No character of a code is likelier than another: each is selected by 8 of the 256 bytes.
code_char_uniform : (x : ℕ) → contains x code_alphabet ≡ true → selecting x 256 ≡ 8
code_char_uniform x h =
    let row : (not (contains x code_alphabet) || selecting x 256 == 8) ≡ true =
      holds_below_lem _ 91 x (alphabet_ascii x h) uniform_table in
    (==_iff _ _).0 (ground (arith, h, row))
