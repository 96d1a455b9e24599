-- ===== src/Signing/Decimal.antt =====
-- Different numbers are printed differently.
use shelly.Prelude.{
  ℕ, zero, suc, ◌+◌, ◌-◌, ◌*◌, ◌/◌, ◌%◌, ◌^◌, ◌<◌, ◌≡◌, refl, sym, ap, ◌∙◌, [], ◌∷◌, ◌++◌, Text,
  arith, ltb, Bool-cases, inl, inr,
}
use shelly.Signing.{decimal, show_u64}

-- The number that digits spell, behind those that were read.
value : ℕ → Text → ℕ
value read [] = read
value read (c ∷ s) = value (read * 10 + (c - 48)) s

value-append :
    (read : ℕ) (s : Text) (c : ℕ) → value read (s ++ c ∷ []) ≡ value read s * 10 + (c - 48)
unfolding value
value-append read [] c = refl
value-append read (d ∷ s) c = value-append (read * 10 + (d - 48)) s c

value-decimal : (fuel n : ℕ) → n < 10 ^ fuel → value 0 (decimal fuel n) ≡ n
unfolding value decimal
value-decimal zero n h = omega arith
value-decimal (suc fuel) n h = elim (Bool-cases (ltb n 10)) [
  | inl small ↦ rw small (omega arith)
  | inr large ↦ rw large (
      value-append 0 (decimal fuel (n / 10)) (48 + n % 10)
      ∙ (ap (λ v. v * 10 + (48 + n % 10 - 48)) (value-decimal fuel (n / 10) (omega arith))
          ∙ omega arith))
]

pub show_u64-injective : (m n : ℕ) → m < 10 ^ 20 → n < 10 ^ 20 → show_u64 m ≡ show_u64 n → m ≡ n
unfolding show_u64
show_u64-injective m n h k e = sym (value-decimal 20 m h) ∙ (ap (value 0) e ∙ value-decimal 20 n k)
