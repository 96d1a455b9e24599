-- ===== src/Persistence/Retention.antt =====
-- What the pruning of the stored sessions keeps.
use shelly.Prelude.{
  ℕ, suc, ◌+◌, ◌≤◌, ◌≡◌, refl, ap, Bool, true, false, Option, none, some, List, [], ◌∷◌, Text,
  arith, if◌then◌else◌, length, Bool-cases, inl, inr, text_eq, text_beq, text_beq_iff,
}
use shelly.Prelude.Dict.{
  length-remove, Dict, IsUnique, lookup, remove, lookup-remove, remove-IsUnique, beq_refl,
}
use shelly.Prelude.Sorting.{IsTotalOrder}
use shelly.Persistence.{Bytes}
use shelly.Persistence.Pruning.{newest_first, should_retain, to_remove, remove_keys, activities}

-- The time is known, and not before `a`.
abbrev pub IsSince : ℕ → Option ℕ → Type 0
IsSince a none = ⊥
IsSince a (some b) = a ≤ b

unfoldable pub is_member : Text → List Text → Bool
is_member key [] = false
is_member key (k ∷ keys) = if text_beq k key then true else is_member key keys

pub newest_first-IsTotalOrder : IsTotalOrder newest_first
unfolding newest_first
newest_first-IsTotalOrder = record { total = total; trans = trans }
  where
    total : (x y : Text × Option ℕ) → newest_first x y ≡ false → newest_first y x ≡ true
    total (j, a) (k, none) h = ground arith
    total (j, none) (k, some b) h = refl
    total (j, some a) (k, some b) h = ground arith

    trans :
        (x y z : Text × Option ℕ)
        → newest_first x y ≡ true
        → newest_first y z ≡ true
        → newest_first x z ≡ true
    trans (i, a) (j, b) (k, none) g h = refl
    trans (i, none) (j, none) (k, some c) g h = h
    trans (i, none) (j, some b) (k, some c) g h = absurd (ground arith)
    trans (i, some a) (j, none) (k, some c) g h = absurd (ground arith)
    trans (i, some a) (j, some b) (k, some c) g h = ground arith

pub lookup-activities :
    (read : Bytes → Option ℕ) (key : Text) (table : Dict Text Bytes)
    → lookup key (activities read table)
      ≡ elim (lookup key table) [ none ↦ none | some value ↦ some (read value) ]
unfolding activities lookup
lookup-activities read key [] = refl
lookup-activities read key ((k, value) ∷ rows) = ground (arith, lookup-activities read key rows)

pub activities-IsUnique :
    (read : Bytes → Option ℕ) (table : Dict Text Bytes)
    → IsUnique table
    → IsUnique (activities read table)
unfolding activities
activities-IsUnique read [] u = tt
activities-IsUnique read ((k, value) ∷ rows) u =
    (rw (lookup-activities read k rows, u.0) refl, activities-IsUnique read rows u.1)

pub length-activities :
    (read : Bytes → Option ℕ) (table : Dict Text Bytes)
    → length (activities read table) ≡ length table
unfolding activities
length-activities read [] = refl
length-activities read ((k, value) ∷ rows) = ap suc (length-activities read rows)

pub lookup-remove_keys :
    (key : Text) (keys : List Text) (table : Dict Text Bytes)
    → IsUnique table
    → lookup key (remove_keys keys table) ≡ (if is_member key keys then none else lookup key table)
unfolding remove_keys is_member
lookup-remove_keys key [] table u = refl
lookup-remove_keys key (k ∷ keys) table u = ground (
  arith,
  lookup-remove_keys key keys (remove k table) (remove-IsUnique k table u),
  lookup-remove k key table u,
)

pub remove_keys-IsUnique :
    (keys : List Text) (table : Dict Text Bytes)
    → IsUnique table
    → IsUnique (remove_keys keys table)
unfolding remove_keys
remove_keys-IsUnique [] table u = u
remove_keys-IsUnique (k ∷ keys) table u =
    remove_keys-IsUnique keys (remove k table) (remove-IsUnique k table u)

module _ (cutoff max_sessions : ℕ) where
  -- With no room left every row goes.
  pub length-to_remove_full :
      (retained : ℕ) (rows : Dict Text (Option ℕ))
      → max_sessions ≤ retained
      → length (to_remove cutoff max_sessions retained rows) ≡ length rows
  unfolding to_remove
  length-to_remove_full retained [] full = refl
  length-to_remove_full retained ((k, none) ∷ rows) full =
      ground (arith, length-to_remove_full retained rows)
  length-to_remove_full retained ((k, some a) ∷ rows) full =
      ground (arith, length-to_remove_full retained rows)

  pub is_member-to_remove_full :
      (retained : ℕ) (rows : Dict Text (Option ℕ)) (key : Text) (activity : Option ℕ)
      → max_sessions ≤ retained
      → lookup key rows ≡ some activity
      → is_member key (to_remove cutoff max_sessions retained rows) ≡ true
  unfolding to_remove is_member lookup
  is_member-to_remove_full retained [] key activity full h = absurd (ground arith)
  is_member-to_remove_full retained ((k, none) ∷ rows) key activity full h =
      ground (arith, is_member-to_remove_full retained rows key activity)
  is_member-to_remove_full retained ((k, some a) ∷ rows) key activity full h =
      ground (arith, is_member-to_remove_full retained rows key activity)

  pub length-to_remove :
      (retained : ℕ) (rows : Dict Text (Option ℕ))
      → retained ≤ max_sessions
      → retained + length rows ≤ max_sessions + length (to_remove cutoff max_sessions retained rows)
  unfolding to_remove
  length-to_remove retained [] room = omega arith
  length-to_remove retained ((k, none) ∷ rows) room = ground (arith, length-to_remove retained rows)
  length-to_remove retained ((k, some a) ∷ rows) room =
      ground (arith, length-to_remove retained rows, length-to_remove (suc retained) rows)

  pub is_member-to_remove_absent :
      (retained : ℕ) (rows : Dict Text (Option ℕ)) (key : Text)
      → lookup key rows ≡ none
      → is_member key (to_remove cutoff max_sessions retained rows) ≡ false
  unfolding to_remove is_member lookup
  is_member-to_remove_absent retained [] key h = refl
  is_member-to_remove_absent retained ((k, none) ∷ rows) key h =
      ground (arith, is_member-to_remove_absent retained rows key)
  is_member-to_remove_absent retained ((k, some a) ∷ rows) key h = ground (
    arith,
    is_member-to_remove_absent retained rows key,
    is_member-to_remove_absent (suc retained) rows key,
  )

  -- A row that stays is inside the window.
  pub kept-IsSince :
      (retained : ℕ) (rows : Dict Text (Option ℕ)) (key : Text) (activity : Option ℕ)
      → lookup key rows ≡ some activity
      → is_member key (to_remove cutoff max_sessions retained rows) ≡ false
      → IsSince cutoff activity
  unfolding to_remove is_member lookup
  kept-IsSince retained [] key activity h kept = absurd (ground arith)
  kept-IsSince retained ((k, none) ∷ rows) key activity h kept =
      ground (arith, kept-IsSince retained rows key activity)
  kept-IsSince retained ((k, some a) ∷ rows) key none h kept =
      ground (arith, kept-IsSince retained rows key none, kept-IsSince (suc retained) rows key none)
  kept-IsSince retained ((k, some a) ∷ rows) key (some b) h kept = ground (
    arith,
    kept-IsSince retained rows key (some b),
    kept-IsSince (suc retained) rows key (some b),
  )

  -- The keys to remove are different keys of the table.
  pub length-remove_keys :
      (retained : ℕ) (rows : Dict Text (Option ℕ)) (table : Dict Text Bytes)
      → IsUnique rows
      → IsUnique table
      → ((key : Text) (activity : Option ℕ)
          → lookup key rows ≡ some activity
          → (value : Bytes) × (lookup key table ≡ some value))
      → length (remove_keys (to_remove cutoff max_sessions retained rows) table)
          + length (to_remove cutoff max_sessions retained rows)
        ≡ length table
  unfolding to_remove remove_keys lookup
  length-remove_keys retained [] table ur ut covered = omega arith
  length-remove_keys retained ((k, a) ∷ rows) table ur ut covered =
      elim (Bool-cases (should_retain cutoff max_sessions retained a)) [
        | inl stays ↦ rw stays (length-remove_keys (suc retained) rows table ur.1 ut tail)
        | inr goes ↦
            let (value, found) = covered k a (rw (beq_refl k) refl) in
            rw goes (
              omega (
                arith,
                length-remove k value table found,
                length-remove_keys retained rows (remove k table) ur.1 (remove-IsUnique k table ut)
                    rest,
              ))
      ]
    where
      tail :
          (key : Text) (activity : Option ℕ)
          → lookup key rows ≡ some activity
          → (value : Bytes) × (lookup key table ≡ some value)
      tail key activity h =
          let other : text_beq k key ≡ false = ground (arith, text_beq_iff k key) in
          covered key activity (rw other h)

      rest :
          (key : Text) (activity : Option ℕ)
          → lookup key rows ≡ some activity
          → (value : Bytes) × (lookup key (remove k table) ≡ some value)
      rest key activity h =
          let other : text_beq k key ≡ false = ground (arith, text_beq_iff k key) in
          let (value, found) = tail key activity h in
          (value, rw (lookup-remove k key table ut, other) found)
