-- ===== src/Prelude/Sorting.antt =====
-- Stable sorting by a Boolean order, as `sort_by_key` of the standard library sorts a vector, and
-- what it keeps of a dictionary.
use mathlib.Core.Path.{◌≡◌, refl, ap, ◌∙◌}
use mathlib.Core.Logic.{inl, inr}
use mathlib.Core.Bool.{Bool, true, false}
use mathlib.Core.List.{List, [], ◌∷◌}
use mathlib.Core.List.Permᴰ
use mathlib.Core.List.{Permᴰ}
use mathlib.Core.Option.{none, some}
use Prim.Native.Nat.{suc}
use native.Mathlib.Omega.{arith}
use shelly.Prelude.Tests.{Eq, if◌then◌else◌, Bool-cases}
use shelly.Prelude.Lists.{length, All}
use shelly.Prelude.Dict.{Dict, IsUnique, lookup}

module _ {ℓ} {A : Type ℓ} where
  unfoldable pub insert_by : (A → A → Bool) → A → List A → List A
  insert_by le x [] = x ∷ []
  insert_by le x (y ∷ ys) = if le x y then x ∷ y ∷ ys else y ∷ insert_by le x ys

  unfoldable pub sort_by : (A → A → Bool) → List A → List A
  unfolding insert_by
  sort_by le [] = []
  sort_by le (x ∷ xs) = insert_by le x (sort_by le xs)

  -- What the code relies on of an order.
  pub record IsTotalOrder (le : A → A → Bool) : Type ℓ where
    pub total : (x y : A) → le x y ≡ false → le y x ≡ true
    pub trans : (x y z : A) → le x y ≡ true → le y z ≡ true → le x z ≡ true

  abbrev pub IsSorted : (A → A → Bool) → List A → Type ℓ
  IsSorted le [] = Unit {ℓ}
  IsSorted le (x ∷ xs) = All (λ y. le x y ≡ true) xs × IsSorted le xs

  length-insert_by :
      (le : A → A → Bool) (x : A) (xs : List A) → length (insert_by le x xs) ≡ suc (length xs)
  unfolding insert_by
  length-insert_by le x [] = refl
  length-insert_by le x (y ∷ ys) = ground (arith, length-insert_by le x ys)

  pub length-sort_by : (le : A → A → Bool) (xs : List A) → length (sort_by le xs) ≡ length xs
  unfolding sort_by
  length-sort_by le [] = refl
  length-sort_by le (x ∷ xs) = length-insert_by le x (sort_by le xs) ∙ ap suc (length-sort_by le xs)

  All-weaken {κ μ} :
      {P : A → Type κ} {Q : A → Type μ} (xs : List A) → ((x : A) → P x → Q x) → All P xs → All Q xs
  All-weaken [] f h = tt
  All-weaken (x ∷ xs) f h = (f x h.0, All-weaken xs f h.1)

  All-insert_by {κ} :
      (P : A → Type κ) (le : A → A → Bool) (x : A) (xs : List A)
      → P x
      → All P xs
      → All P (insert_by le x xs)
  unfolding insert_by
  All-insert_by P le x [] p h = (p, tt)
  All-insert_by P le x (y ∷ ys) p h = elim (Bool-cases (le x y)) [
    | inl e ↦ rw e (p, h)
    | inr e ↦ rw e (h.0, All-insert_by P le x ys p h.1)
  ]

  insert_by-IsSorted :
      (le : A → A → Bool) (x : A) (xs : List A)
      → IsTotalOrder le
      → IsSorted le xs
      → IsSorted le (insert_by le x xs)
  unfolding insert_by
  insert_by-IsSorted le x [] o s = (tt, tt)
  insert_by-IsSorted le x (y ∷ ys) o s = elim (Bool-cases (le x y)) [
    | inl e ↦ rw e ((e, All-weaken ys (λ z. o.trans x y z e) s.0), s)
    | inr e ↦ rw e (All-insert_by _ le x ys (o.total x y e) s.0, insert_by-IsSorted le x ys o s.1)
  ]

  pub sort_by-IsSorted :
      (le : A → A → Bool) (xs : List A) → IsTotalOrder le → IsSorted le (sort_by le xs)
  unfolding sort_by
  sort_by-IsSorted le [] o = tt
  sort_by-IsSorted le (x ∷ xs) o =
      insert_by-IsSorted le x (sort_by le xs) o (sort_by-IsSorted le xs o)

  -- Sorting keeps what is there, each as often.
  insert_by-Perm : (le : A → A → Bool) (x : A) (xs : List A) → Permᴰ (x ∷ xs) (insert_by le x xs)
  unfolding insert_by
  insert_by-Perm le x [] = Permᴰ.cons refl Permᴰ.nil
  insert_by-Perm le x (y ∷ ys) = elim (Bool-cases (le x y)) [
    | inl e ↦ rw e (Permᴰ.refl (x ∷ y ∷ ys))
    | inr e ↦ rw e (Permᴰ.trans (Permᴰ.swap refl refl) (Permᴰ.cons refl (insert_by-Perm le x ys)))
  ]

  pub sort_by-Perm : (le : A → A → Bool) (xs : List A) → Permᴰ xs (sort_by le xs)
  unfolding sort_by
  sort_by-Perm le [] = Permᴰ.nil
  sort_by-Perm le (x ∷ xs) =
      Permᴰ.trans (Permᴰ.cons refl (sort_by-Perm le xs)) (insert_by-Perm le x (sort_by le xs))

  pub All-sort_by {κ} :
      (P : A → Type κ) (le : A → A → Bool) (xs : List A) → All P xs → All P (sort_by le xs)
  unfolding sort_by
  All-sort_by P le [] h = tt
  All-sort_by P le (x ∷ xs) h = All-insert_by P le x (sort_by le xs) h.0 (All-sort_by P le xs h.1)

module _ {ℓ κ} {K : Type ℓ} {V : Type κ} ⦃e : Eq K⦄ where
  lookup-insert_by :
      (le : K × V → K × V → Bool) (k j : K) (v : V) (m : Dict K V)
      → lookup k m ≡ none
      → lookup j (insert_by le (k, v) m) ≡ (if e.beq k j then some v else lookup j m)
  unfolding insert_by lookup
  lookup-insert_by le k j v [] h = refl
  lookup-insert_by le k j v ((i, w) ∷ m) h =
      ground (arith, e.beq_iff k j, e.beq_iff i k, e.beq_iff i j, lookup-insert_by le k j v m)

  insert_by-IsUnique :
      (le : K × V → K × V → Bool) (k : K) (v : V) (m : Dict K V)
      → lookup k m ≡ none
      → IsUnique m
      → IsUnique (insert_by le (k, v) m)
  unfolding insert_by lookup
  insert_by-IsUnique le k v [] h u = (refl, tt)
  insert_by-IsUnique le k v ((i, w) ∷ m) h u = ground (
    arith,
    insert_by-IsUnique le k v m,
    lookup-insert_by le k i v m,
    e.beq_iff i k,
    e.beq_iff k i,
  )

  pub lookup-sort_by :
      (le : K × V → K × V → Bool) (m : Dict K V)
      → IsUnique m
      → ((j : K) → lookup j (sort_by le m) ≡ lookup j m) × IsUnique (sort_by le m)
  unfolding sort_by lookup
  lookup-sort_by le [] u = ((λ j. refl), tt)
  lookup-sort_by le ((k, v) ∷ m) u =
      let rest = lookup-sort_by le m u.1 in
      let fresh : lookup k (sort_by le m) ≡ none = rw (rest.0 k) u.0 in
      (
        (λ j. ground (arith, lookup-insert_by le k j v (sort_by le m) fresh, rest.0 j)),
        insert_by-IsUnique le k v (sort_by le m) fresh rest.1,
      )
