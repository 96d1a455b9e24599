-- ===== src/Signing/Canonical.antt =====
-- The canonical bytes of a request: what two requests with the same bytes have in common.
use shelly.Prelude.{
  ℕ, ◌+◌, ◌*◌, ◌^◌, sym, ◌∙◌, take-append, drop-append_self, ◌<◌, ◌≡◌, refl, ap, List, [], ◌∷◌,
  ◌++◌, map, concat, length, take, drop, All, Text, arith,
}
use shelly.Signing.{u64_be, utf8, field, fields, canonical_request_v2}

-- The number that eight bytes stand for.
from_u64_be : List ℕ → ℕ
from_u64_be (a ∷ b ∷ c ∷ d ∷ e ∷ f ∷ g ∷ h ∷ rest) =
    a * 2 ^ 56 + b * 2 ^ 48 + c * 2 ^ 40 + d * 2 ^ 32 + e * 2 ^ 24 + f * 2 ^ 16 + g * 2 ^ 8 + h
from_u64_be _ = 0

from_u64_be-u64_be : (n : ℕ) → n < 2 ^ 64 → from_u64_be (u64_be n) ≡ n
unfolding u64_be from_u64_be
from_u64_be-u64_be n small = omega arith

u64_be_injective : (a b : ℕ) → a < 2 ^ 64 → b < 2 ^ 64 → u64_be a ≡ u64_be b → a ≡ b
u64_be_injective a b small_a small_b h =
    sym (from_u64_be-u64_be a small_a) ∙ ap from_u64_be h ∙ from_u64_be-u64_be b small_b

-- Its length is counted in 64 bits.
abbrev pub Short : List ℕ → Type 0
Short bytes = length bytes < 2 ^ 64

-- A field and what follows it can be told apart.
field_injective :
    (a b r s : List ℕ) → Short a → Short b → field a ++ r ≡ field b ++ s → (a ≡ b) × (r ≡ s)
unfolding field
field_injective a b r s short_a short_b h =
    let heads : u64_be (length a) ≡ u64_be (length b) = unfold u64_be in ap (take 8) h in
    let same : length a ≡ length b = u64_be_injective _ _ short_a short_b heads in
    let tails : a ++ r ≡ b ++ s = unfold u64_be in ap (drop 8) h in
    (
      sym (take-append a r)
          ∙ ap (take (length a)) tails
          ∙ ap (λ (n : ℕ). take n (b ++ s)) same
          ∙ take-append b s,
      sym (drop-append_self a r)
          ∙ ap (drop (length a)) tails
          ∙ ap (λ (n : ℕ). drop n (b ++ s)) same
          ∙ drop-append_self b s,
    )

fields_injective :
    (xs ys : List (List ℕ))
    → length xs ≡ length ys
    → All Short xs
    → All Short ys
    → concat (map field xs) ≡ concat (map field ys)
    → xs ≡ ys
fields_injective [] [] e short_xs short_ys h = refl
fields_injective [] (y ∷ ys) e short_xs short_ys h = absurd (omega arith)
fields_injective (x ∷ xs) [] e short_xs short_ys h = absurd (omega arith)
fields_injective (x ∷ xs) (y ∷ ys) e (short_x, short_xs) (short_y, short_ys) h =
    let parts = field_injective x y _ _ short_x short_y h in
    let rest = fields_injective xs ys (omega arith) short_xs short_ys parts.1 in
    ap (λ z. z ∷ xs) parts.0 ∙ ap (◌∷◌ y) rest

module _ (sha256 : List ℕ → List ℕ) where
  -- Two requests with the same version 2 bytes were made for the same relay, method, path, nonce and
  -- time, and have the same body digest, where no part is longer than 64 bits can count.
  pub canonical_request_v2_injective :
      (audience audience' method method' path path' nonce nonce' : Text) (body body' : List ℕ)
      (ts ts' : ℕ)
      → All Short (fields sha256 audience method path body nonce ts)
      → All Short (fields sha256 audience' method' path' body' nonce' ts')
      → ts < 2 ^ 64
      → ts' < 2 ^ 64
      → canonical_request_v2 sha256 audience method path body nonce ts
        ≡ canonical_request_v2 sha256 audience' method' path' body' nonce' ts'
      → (utf8 audience ≡ utf8 audience')
        × (utf8 method ≡ utf8 method')
        × (utf8 path ≡ utf8 path')
        × (sha256 body ≡ sha256 body')
        × (utf8 nonce ≡ utf8 nonce')
        × (ts ≡ ts')
  unfolding canonical_request_v2
  canonical_request_v2_injective audience audience' method method' path path' nonce nonce' body
        body' ts ts' short short' small small' h =
      let e =
        fields_injective (fields sha256 audience method path body nonce ts)
          (fields sha256 audience' method' path' body' nonce' ts') (unfold fields in refl) short
          short' h in
      let parts : (utf8 audience ≡ utf8 audience')
          × (utf8 method ≡ utf8 method')
          × (utf8 path ≡ utf8 path')
          × (sha256 body ≡ sha256 body')
          × (utf8 nonce ≡ utf8 nonce')
          × (u64_be ts ≡ u64_be ts') =
        unfold fields in (cc e, cc e, cc e, cc e, cc e, cc e) in
      (parts.0, parts.1, parts.2, parts.3, parts.4, u64_be_injective ts ts' small small' parts.5)
