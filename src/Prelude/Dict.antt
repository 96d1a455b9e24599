-- ===== src/Prelude/Dict.antt =====
-- A hash map as an association list: at most one entry for a key, in an order that nothing reads.
use Prim.Native.Nat.{suc, ◌+◌, ◌≤◌}
use mathlib.Core.Path.{◌≡◌, refl}
use mathlib.Core.Bool.{Bool, true, false}
use mathlib.Core.List.{List, [], ◌∷◌}
use mathlib.Core.Option.{Option, none, some}
use native.Mathlib.Omega.{arith}
use shelly.Prelude.Tests.{Eq, if◌then◌else◌}
use shelly.Prelude.Lists.{length, All}

abbrev pub Dict {ℓ κ} : Type ℓ → Type κ → Type (ℓ ⊔ κ)
Dict K V = List (K × V)

abbrev pub is_some {ℓ} : {A : Type ℓ} → Option A → Bool
is_some none = false
is_some (some a) = true

-- `Option::filter`
abbrev pub filter_option {ℓ} : {A : Type ℓ} → (A → Bool) → Option A → Option A
filter_option p none = none
filter_option p (some a) = if p a then some a else none

pub beq_refl {ℓ} : {K : Type ℓ} ⦃e : Eq K⦄ (k : K) → e.beq k k ≡ true
beq_refl ⦃e⦄ k = (e.beq_iff k k).1 refl

module _ {ℓ κ} {K : Type ℓ} {V : Type κ} ⦃e : Eq K⦄ where
  unfoldable pub lookup : K → Dict K V → Option V
  lookup k [] = none
  lookup k ((j, v) ∷ m) = if e.beq j k then some v else lookup k m

  unfoldable pub insert : K → V → Dict K V → Dict K V
  insert k v [] = (k, v) ∷ []
  insert k v ((j, w) ∷ m) = if e.beq j k then (j, v) ∷ m else (j, w) ∷ insert k v m

  unfoldable pub remove : K → Dict K V → Dict K V
  remove k [] = []
  remove k ((j, w) ∷ m) = if e.beq j k then m else (j, w) ∷ remove k m

  unfoldable pub retain : (K → V → Bool) → Dict K V → Dict K V
  retain p [] = []
  retain p ((j, w) ∷ m) = if p j w then (j, w) ∷ retain p m else retain p m

  -- `retain` with a test that may change the value that it keeps.
  unfoldable pub retain_mut : (V → Option V) → Dict K V → Dict K V
  retain_mut f [] = []
  retain_mut f ((j, w) ∷ m) =
      let rest = retain_mut f m in elim (f w) [ none ↦ rest | some v ↦ (j, v) ∷ rest ]

  abbrev pub contains_key : K → Dict K V → Bool
  contains_key k m = is_some (lookup k m)

  -- One entry for a key.
  abbrev pub IsUnique : Dict K V → Type κ
  IsUnique [] = Unit {κ}
  IsUnique ((k, v) ∷ m) = (lookup k m ≡ none) × IsUnique m

  pub lookup-insert :
      (k j : K) (v : V) (m : Dict K V)
      → lookup j (insert k v m) ≡ (if e.beq k j then some v else lookup j m)
  unfolding lookup insert
  lookup-insert k j v [] = refl
  lookup-insert k j v ((i, w) ∷ m) =
      ground (arith, e.beq_iff k j, e.beq_iff i k, e.beq_iff i j, lookup-insert k j v m)

  pub lookup-insert_self : (k : K) (v : V) (m : Dict K V) → lookup k (insert k v m) ≡ some v
  lookup-insert_self k v m = ground (arith, lookup-insert k k v m, beq_refl k)

  pub lookup-remove :
      (k j : K) (m : Dict K V)
      → IsUnique m
      → lookup j (remove k m) ≡ (if e.beq k j then none else lookup j m)
  unfolding lookup remove
  lookup-remove k j [] u = ground arith
  lookup-remove k j ((i, w) ∷ m) u =
      ground (arith, e.beq_iff k j, e.beq_iff i k, e.beq_iff i j, lookup-remove k j m u.1)

  pub lookup-retain :
      (p : K → V → Bool) (k : K) (m : Dict K V)
      → IsUnique m
      → lookup k (retain p m) ≡ filter_option (p k) (lookup k m)
  unfolding lookup retain
  lookup-retain p k [] u = refl
  lookup-retain p k ((i, w) ∷ m) u = ground (arith, e.beq_iff i k, lookup-retain p k m u.1)

  pub lookup-retain_mut :
      (f : V → Option V) (k : K) (m : Dict K V)
      → IsUnique m
      → lookup k (retain_mut f m) ≡ elim (lookup k m) [ none ↦ none | some v ↦ f v ]
  unfolding lookup retain_mut
  lookup-retain_mut f k [] u = refl
  lookup-retain_mut f k ((i, w) ∷ m) u = ground (arith, e.beq_iff i k, lookup-retain_mut f k m u.1)

  pub retain_mut-IsUnique :
      (f : V → Option V) (m : Dict K V) → IsUnique m → IsUnique (retain_mut f m)
  unfolding retain_mut
  retain_mut-IsUnique f [] u = tt
  retain_mut-IsUnique f ((i, w) ∷ m) u =
      ground (arith, retain_mut-IsUnique f m u.1, lookup-retain_mut f i m u.1)

  pub length-retain_mut-le : (f : V → Option V) (m : Dict K V) → length (retain_mut f m) ≤ length m
  unfolding retain_mut
  length-retain_mut-le f [] = omega arith
  length-retain_mut-le f ((i, w) ∷ m) = ground (arith, length-retain_mut-le f m)

  pub insert-IsUnique : (k : K) (v : V) (m : Dict K V) → IsUnique m → IsUnique (insert k v m)
  unfolding insert
  insert-IsUnique k v [] u = unfold lookup in (refl, tt)
  insert-IsUnique k v ((i, w) ∷ m) u =
      ground (arith, insert-IsUnique k v m u.1, lookup-insert k i v m, e.beq_iff i k, e.beq_iff k i)

  pub remove-IsUnique : (k : K) (m : Dict K V) → IsUnique m → IsUnique (remove k m)
  unfolding remove
  remove-IsUnique k [] u = tt
  remove-IsUnique k ((i, w) ∷ m) u =
      ground (arith, remove-IsUnique k m u.1, lookup-remove k i m u.1)

  pub retain-IsUnique : (p : K → V → Bool) (m : Dict K V) → IsUnique m → IsUnique (retain p m)
  unfolding retain
  retain-IsUnique p [] u = tt
  retain-IsUnique p ((i, w) ∷ m) u =
      ground (arith, retain-IsUnique p m u.1, lookup-retain p i m u.1)

  pub length-insert :
      (k : K) (v : V) (m : Dict K V)
      → length (insert k v m) ≡ (if contains_key k m then length m else length m + 1)
  unfolding insert lookup
  length-insert k v [] = omega arith
  length-insert k v ((i, w) ∷ m) = ground (arith, length-insert k v m)

  pub length-remove :
      (k : K) (v : V) (m : Dict K V) → lookup k m ≡ some v → suc (length (remove k m)) ≡ length m
  unfolding lookup remove
  length-remove k v [] h = absurd (ground arith)
  length-remove k v ((i, w) ∷ m) h = ground (arith, length-remove k v m)

  pub length-remove-le : (k : K) (m : Dict K V) → length (remove k m) ≤ length m
  unfolding remove
  length-remove-le k [] = omega arith
  length-remove-le k ((i, w) ∷ m) = ground (arith, length-remove-le k m)

  pub length-retain-le : (p : K → V → Bool) (m : Dict K V) → length (retain p m) ≤ length m
  unfolding retain
  length-retain-le p [] = omega arith
  length-retain-le p ((i, w) ∷ m) = ground (arith, length-retain-le p m)

  pub All-lookup {μ} :
      (P : K × V → Type μ) (m : Dict K V)
      → IsUnique m
      → ((k : K) (v : V) → lookup k m ≡ some v → P (k, v))
      → All P m
  unfolding lookup
  All-lookup P [] u each = tt
  All-lookup P ((i, w) ∷ m) u each =
      let head : (if e.beq i i then some w else lookup i m) ≡ some w = rw (beq_refl i) refl in
      (each i w head, All-lookup P m u.1 (λ k v found. each k v (ground (arith, e.beq_iff i k))))
