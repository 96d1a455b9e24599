-- ===== src/Persistence/Dropped.antt =====
-- Why the loop of the pruning drops a row of the window only when all the room is taken.
use shelly.Prelude.{
  ℕ, suc, ◌+◌, ◌≤◌, ◌≡◌, subst, true, false, Option, none, some, [], ◌∷◌, Text, arith,
  if◌then◌else◌, length, All, Bool-cases, inl, inr, text_eq, text_beq, text_beq_iff,
}
use shelly.Prelude.Dict.{Dict, IsUnique, lookup}
use shelly.Prelude.Sorting.{IsSorted}
use shelly.Persistence.Pruning.{newest_first, should_retain, to_remove}
use shelly.Persistence.Retention.{
  is_member, IsSince, length-to_remove_full, is_member-to_remove_full, is_member-to_remove_absent,
}

older-IsSince :
    (k : Text) (x : Option ℕ) (rows : Dict Text (Option ℕ)) (key : Text) (a : ℕ)
    → All (λ row. newest_first (k, x) row ≡ true) rows
    → lookup key rows ≡ some (some a)
    → IsSince a x
unfolding lookup newest_first
older-IsSince k x [] key a below h = absurd (ground arith)
older-IsSince k none ((j, none) ∷ rows) key a below h =
    ground (arith, older-IsSince k none rows key a below.1)
older-IsSince k none ((j, some b) ∷ rows) key a below h = absurd (ground arith)
older-IsSince k (some c) ((j, none) ∷ rows) key a below h =
    ground (arith, older-IsSince k (some c) rows key a below.1)
older-IsSince k (some c) ((j, some b) ∷ rows) key a below h =
    ground (arith, older-IsSince k (some c) rows key a below.1)

module _ (cutoff max_sessions : ℕ) where
  -- All the room is taken, by rows that are at least as new.
  abbrev pub IsFull : ℕ → ℕ → Dict Text (Option ℕ) → Type 0
  IsFull retained a rows =
      (retained + length rows ≡ max_sessions + length (to_remove cutoff max_sessions retained rows))
      × ((key : Text) (activity : Option ℕ)
          → lookup key rows ≡ some activity
          → is_member key (to_remove cutoff max_sessions retained rows) ≡ false
          → IsSince a activity)

  no_room-IsFull :
      (retained a : ℕ) (rows : Dict Text (Option ℕ))
      → retained ≡ max_sessions
      → IsFull retained a rows
  no_room-IsFull retained a rows e = (
    omega (arith, length-to_remove_full cutoff max_sessions retained rows),
    λ key activity h kept.
        absurd
          (ground (arith, is_member-to_remove_full cutoff max_sessions retained rows key activity)),
  )

  stays-IsFull :
      (retained a : ℕ) (k : Text) (x : Option ℕ) (rows : Dict Text (Option ℕ))
      → should_retain cutoff max_sessions retained x ≡ true
      → IsSince a x
      → IsFull (suc retained) a rows
      → IsFull retained a ((k, x) ∷ rows)
  unfolding to_remove lookup
  stays-IsFull retained a k x rows stays since full = rw stays (omega (arith, full.0), newer)
    where
      newer :
          (key : Text) (activity : Option ℕ)
          → (if text_beq k key then some x else lookup key rows) ≡ some activity
          → is_member key (to_remove cutoff max_sessions (suc retained) rows) ≡ false
          → IsSince a activity
      newer key activity h kept = elim (Bool-cases (text_beq k key)) [
        | inl same ↦
            subst (λ o. elim o [ none ↦ Unit {0} | some y ↦ IsSince a y ]) (rw same at h) since
        | inr other ↦ full.1 key activity (rw other at h) kept
      ]

  -- A row of the window goes only when all the room is taken.
  pub dropped-IsFull :
      (retained a : ℕ) (rows : Dict Text (Option ℕ)) (key : Text)
      → retained ≤ max_sessions
      → IsUnique rows
      → IsSorted newest_first rows
      → lookup key rows ≡ some (some a)
      → cutoff ≤ a
      → is_member key (to_remove cutoff max_sessions retained rows) ≡ true
      → IsFull retained a rows
  unfolding lookup is_member
  dropped-IsFull retained a [] key room u sorted h recent drops = absurd (ground arith)
  dropped-IsFull retained a ((k, x) ∷ rows) key room u sorted h recent drops =
      elim (Bool-cases (should_retain cutoff max_sessions retained x)) [
        | inl stays ↦
            let other : lookup key rows ≡ some (some a) = later stays in
            stays-IsFull retained a k x rows stays (older-IsSince k x rows key a sorted.0 other) (
              dropped-IsFull (suc retained) a rows key (more_room x stays) u.1 sorted.1 other recent
                (unfold to_remove in rw stays at drops))
        | inr goes ↦ no_room-IsFull retained a ((k, x) ∷ rows) (no_room goes)
      ]
    where
      more_room :
          (x : Option ℕ)
          → should_retain cutoff max_sessions retained x ≡ true
          → suc retained ≤ max_sessions
      more_room none stays = unfold should_retain in absurd (ground arith)
      more_room (some b) stays = unfold should_retain in ground arith

      later : should_retain cutoff max_sessions retained x ≡ true → lookup key rows ≡ some (some a)
      later stays =
          let drops_later : is_member key (to_remove cutoff max_sessions (suc retained) rows)
              ≡ true =
            unfold to_remove in rw stays at drops in
          ground (
            arith,
            text_beq_iff k key,
            is_member-to_remove_absent cutoff max_sessions (suc retained) rows key,
          )

      same_row :
          (x : Option ℕ)
          → should_retain cutoff max_sessions retained x ≡ false
          → x ≡ some a
          → retained ≡ max_sessions
      same_row none goes e = absurd (ground arith)
      same_row (some b) goes e = unfold should_retain in ground arith

      older_row :
          (x : Option ℕ)
          → should_retain cutoff max_sessions retained x ≡ false
          → IsSince a x
          → retained ≡ max_sessions
      older_row none goes since = absurd since
      older_row (some b) goes since = unfold should_retain in ground arith

      no_room : should_retain cutoff max_sessions retained x ≡ false → retained ≡ max_sessions
      no_room goes = elim (Bool-cases (text_beq k key)) [
        | inl same ↦ same_row x goes (ground arith)
        | inr other ↦ older_row x goes (older-IsSince k x rows key a sorted.0 (rw other at h))
      ]
