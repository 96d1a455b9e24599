-- ===== src/Code/Typing.antt =====
-- What a user may type for a code.
use shelly.Prelude.{
  ℕ, ◌+◌, ◌≤◌, ◌<◌, ◌≡◌, refl, ap, ◌∙◌, ◌↔◌, inl, inr, Bool, true, false, not, ◌&&◌, ◌||◌, [], ◌∷◌,
  Text, arith, leb, ◌==◌, ==_iff, Bool-cases, holds_below, holds_below_lem, &&_right,
}
use mathlib.Core.Path.{ap₂}
use native.Mathlib.Decide.{dec_lt}
use shelly.Code.{
  code_alphabet, contains, all, is_whitespace, is_typed, alias, normalize_code, is_valid_code,
}

-- The character `c` is accepted for the character `x` of a code: it is `x` itself, `x` in lower
-- case, or a letter that is confused with the digit `x`.
abbrev pub stands_for : ℕ → ℕ → Bool
stands_for c x =
    c == x
    || (leb b'A' x && leb x b'Z' && c == x + 32)
    || (x == b'1' && (c == b'i' || c == b'I' || c == b'l' || c == b'L'))
    || (x == b'0' && (c == b'o' || c == b'O'))

-- The text spells the code: white space and dashes are skipped, every other character stands for
-- the next character of the code.
pub data Spells : Text → Text → Type 0 where
  finish : Spells [] []
  skip :
      {c : ℕ} {s t : Text} → (is_whitespace c || c == b'-') ≡ true → Spells s t → Spells (c ∷ s) t
  char : {c x : ℕ} {s t : Text} → stands_for c x ≡ true → Spells s t → Spells (c ∷ s) (x ∷ t)

contains_below :
    (bound x : ℕ) (s : Text) → all (λ c. leb c bound) s ≡ true → contains x s ≡ true → x ≤ bound
unfolding contains all
contains_below bound x [] h k = absurd (cc)
contains_below bound x (c ∷ s) h k = ground (arith, contains_below bound x s)

pub alphabet_ascii : (x : ℕ) → contains x code_alphabet ≡ true → x < 91
unfolding all
alphabet_ascii x h = omega (arith, contains_below 90 x code_alphabet refl h)

alias_high : (c : ℕ) → 128 ≤ c → alias c ≡ c
unfolding alias
alias_high c h = ground arith

same : Bool → Bool → Bool
same true b = b
same false b = not b

same→eq : (a b : Bool) → same a b ≡ true → a ≡ b
unfolding same
same→eq true b h = ground arith
same→eq false b h = ground arith

alias_table :
    holds_below
      (λ c.
        holds_below
          (λ x.
            not (contains x code_alphabet) || same (is_typed c && alias c == x) (stands_for c x))
          91)
      128
    ≡ true
unfolding holds_below contains is_typed alias same
alias_table = refl

is_typed_iff : (c : ℕ) → is_typed c ≡ not (is_whitespace c || c == b'-')
unfolding is_typed
is_typed_iff c = ground arith

-- For a character of the alphabet, what `normalize_code` maps to it is what stands for it.
alias-stands_for :
    (c x : ℕ) → contains x code_alphabet ≡ true → (is_typed c && alias c == x) ≡ stands_for c x
alias-stands_for c x h = elim (dec_lt c 128) [
  | yes low ↦ same→eq _ _ (
      ground (
        arith,
        h,
        holds_below_lem _ 91 x (alphabet_ascii x h) (holds_below_lem _ 128 c low alias_table),
      ))
  | no high ↦ ground (arith, alias_high c, alphabet_ascii x h)
]

normalize_code_skip :
    (c : ℕ) (s : Text) → is_typed c ≡ false → normalize_code (c ∷ s) ≡ normalize_code s
unfolding normalize_code
normalize_code_skip c s h = rw h

normalize_code_char :
    (c : ℕ) (s : Text) → is_typed c ≡ true → normalize_code (c ∷ s) ≡ alias c ∷ normalize_code s
unfolding normalize_code
normalize_code_char c s h = rw h

space_of : (c : ℕ) → is_typed c ≡ false → (is_whitespace c || c == b'-') ≡ true
space_of c h = ground (arith, is_typed_iff c)

normalize_code-Spells :
    (typed code : Text)
    → all (λ x. contains x code_alphabet) code ≡ true
    → normalize_code typed ≡ code
    → Spells typed code
unfolding all
normalize_code-Spells [] [] h e = finish
normalize_code-Spells [] (x ∷ t) h e = absurd (unfold normalize_code in cc)
normalize_code-Spells (c ∷ s) [] h e = elim (Bool-cases (is_typed c)) [
  | inl typed ↦ absurd (cc (normalize_code_char c s typed))
  | inr space ↦
      skip (space_of c space) (normalize_code-Spells s [] h (cc (normalize_code_skip c s space)))
]
normalize_code-Spells (c ∷ s) (x ∷ t) h e = elim (Bool-cases (is_typed c)) [
  | inl typed ↦
      let parts : (contains x code_alphabet ≡ true)
          × (all (λ y. contains y code_alphabet) t ≡ true) =
        ground (arith, h) in
      let heads : (alias c ≡ x) × (normalize_code s ≡ t) =
        (cc (normalize_code_char c s typed), cc (normalize_code_char c s typed)) in
      char (ground (arith, alias-stands_for c x parts.0, heads.0, typed))
        (normalize_code-Spells s t parts.1 heads.1)
  | inr space ↦
      skip (space_of c space)
        (normalize_code-Spells s (x ∷ t) h (cc (normalize_code_skip c s space)))
]

Spells-normalize_code :
    {typed code : Text}
    → Spells typed code
    → all (λ x. contains x code_alphabet) code ≡ true
    → normalize_code typed ≡ code
unfolding all
Spells-normalize_code finish h = unfold normalize_code in refl
Spells-normalize_code (skip {c} {s} space rest) h =
    normalize_code_skip c s (is_typed_iff c ∙ ap not space) ∙ Spells-normalize_code rest h
Spells-normalize_code (char {c} {x} {s} {t} fits rest) h =
    let parts : (contains x code_alphabet ≡ true) × (all (λ y. contains y code_alphabet) t ≡ true) =
      ground (arith, h) in
    let heads : (is_typed c ≡ true) × (alias c ≡ x) =
      ground (arith, alias-stands_for c x parts.0, fits) in
    normalize_code_char c s heads.0 ∙ ap₂ ◌∷◌ heads.1 (Spells-normalize_code rest parts.1)

Spells-itself : (code : Text) → all (λ x. contains x code_alphabet) code ≡ true → Spells code code
unfolding all
Spells-itself [] h = finish
Spells-itself (x ∷ t) h =
    let parts : (contains x code_alphabet ≡ true) × (all (λ y. contains y code_alphabet) t ≡ true) =
      ground (arith, h) in
    char (ground (arith, (==_iff x x).1 refl)) (Spells-itself t parts.1)

-- Typing a text gives a valid code exactly when the text spells the code: in either case, with the
-- confusable letters for the digits 0 and 1, and with white space and dashes anywhere.
pub normalize_code-Spells_iff :
    (typed code : Text)
    → is_valid_code code ≡ true
    → (normalize_code typed ≡ code) ↔ Spells typed code
unfolding is_valid_code
normalize_code-Spells_iff typed code h =
    let letters : all (λ x. contains x code_alphabet) code ≡ true = &&_right _ _ h in
    (normalize_code-Spells typed code letters, λ spells. Spells-normalize_code spells letters)

-- A valid code is left as it is.
pub normalize_code_valid : (code : Text) → is_valid_code code ≡ true → normalize_code code ≡ code
unfolding is_valid_code
normalize_code_valid code h =
    (normalize_code-Spells_iff code code h).1 (Spells-itself code (&&_right _ _ h))
