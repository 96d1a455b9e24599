-- ===== src/Persistence/Newest.antt =====
-- The pruning keeps the newest sessions of the window, as many as there is room for.
use shelly.Prelude.{
  ℕ, ◌+◌, ◌-◌, ◌≤◌, ◌≡◌, refl, ap, ◌∙◌, true, false, Option, none, some, Text, arith, if◌then◌else◌,
  length, All, Option-cases, inl, inr, ok, text_eq,
}
use shelly.Prelude.Dict.{Dict, IsUnique, lookup, All-lookup}
use shelly.Prelude.Sorting.{sort_by, sort_by-IsSorted, lookup-sort_by, length-sort_by}
use shelly.Persistence.{Bytes, Libraries, Persistence, last_activity, session_retention_ms}
use shelly.Persistence.Pruning.{newest_first, activities, pruned_keys, prune_sessions_with_limit}
use shelly.Persistence.Retention.{
  is_member, IsSince, newest_first-IsTotalOrder, lookup-activities, activities-IsUnique,
  length-activities, lookup-remove_keys, remove_keys-IsUnique, length-to_remove, kept-IsSince,
  length-remove_keys,
}
use shelly.Persistence.Dropped.{IsFull, dropped-IsFull}

module _ (lib : Libraries) (now max_sessions : ℕ) (p : Persistence) where
  abbrev cutoff : ℕ
  cutoff = now - session_retention_ms

  abbrev activity : Bytes → Option ℕ
  activity = last_activity lib p.mode

  abbrev rows : Dict Text (Option ℕ)
  rows = sort_by newest_first (activities activity p.sessions)

  abbrev after : Persistence
  after = (prune_sessions_with_limit lib true now max_sessions p).1

  rows-lookup :
      (key : Text)
      → IsUnique p.sessions
      → lookup key rows
        ≡ elim (lookup key p.sessions) [ none ↦ none | some value ↦ some (activity value) ]
  rows-lookup key u =
      (lookup-sort_by newest_first (activities activity p.sessions)
          (activities-IsUnique activity p.sessions u)).0
        key
      ∙ lookup-activities activity key p.sessions

  rows-IsUnique : IsUnique p.sessions → IsUnique rows
  rows-IsUnique u =
      (lookup-sort_by newest_first (activities activity p.sessions)
        (activities-IsUnique activity p.sessions u)).1

  length-rows : length rows ≡ length p.sessions
  length-rows =
      length-sort_by newest_first (activities activity p.sessions)
      ∙ length-activities activity p.sessions

  lookup-after :
      (key : Text)
      → IsUnique p.sessions
      → lookup key after.sessions ≡ (
          if is_member key (pruned_keys lib cutoff max_sessions p)
          then none
          else lookup key p.sessions)
  unfolding prune_sessions_with_limit
  lookup-after key u = lookup-remove_keys key (pruned_keys lib cutoff max_sessions p) p.sessions u

  length-after :
      IsUnique p.sessions
      → length after.sessions + length (pruned_keys lib cutoff max_sessions p) ≡ length p.sessions
  unfolding prune_sessions_with_limit pruned_keys
  length-after u =
      length-remove_keys cutoff max_sessions 0 rows p.sessions (rows-IsUnique u) u λ key x found.
        elim (Option-cases (lookup key p.sessions)) [
          | inl e ↦ absurd (ground (arith, rows-lookup key u))
          | inr (value, e) ↦ (value, e)
        ]

  kept_value :
      (key : Text) (value : Bytes)
      → IsUnique p.sessions
      → lookup key after.sessions ≡ some value
      → (lookup key p.sessions ≡ some value)
        × (is_member key (pruned_keys lib cutoff max_sessions p) ≡ false)
  kept_value key value u h = ground (arith, lookup-after key u)

  lookup-rows-eq-some :
      (key : Text) (value : Bytes)
      → IsUnique p.sessions
      → lookup key p.sessions ≡ some value
      → lookup key rows ≡ some (activity value)
  lookup-rows-eq-some key value u h = rw (rows-lookup key u, h) refl

  after-IsUnique : IsUnique p.sessions → IsUnique after.sessions
  unfolding prune_sessions_with_limit
  after-IsUnique u = remove_keys-IsUnique (pruned_keys lib cutoff max_sessions p) p.sessions u

  -- A pruning that is committed leaves at most as many sessions as there is room for, each of them one
  -- that was stored before, unchanged, readable and active inside the window, and answers how many it
  -- has removed. The table has one row for a key.
  prune_sessions_with_limit_bounded :
      IsUnique p.sessions
      → (length after.sessions ≤ max_sessions)
        × All
            (λ row. (lookup row.0 p.sessions ≡ some row.1) × IsSince cutoff (activity row.1))
            after.sessions
        × ((prune_sessions_with_limit lib true now max_sessions p).0
            ≡ ok (length p.sessions - length after.sessions))
  prune_sessions_with_limit_bounded u = (
    omega (arith, length-after u, length-rows, room),
    All-lookup _ after.sessions (after-IsUnique u) (λ key value found.
        let (before, stays) = kept_value key value u found in
        (
          before,
          kept-IsSince cutoff max_sessions 0 rows key (activity value)
              (lookup-rows-eq-some key value u before) (unfold pruned_keys in stays),
        )),
    unfold prune_sessions_with_limit in ap ok (omega (arith, length-after u)),
  )
    where
      room : length rows ≤ max_sessions + length (pruned_keys lib cutoff max_sessions p)
      room =
          unfold pruned_keys in
          omega (arith, length-to_remove cutoff max_sessions 0 rows (omega arith))

  -- A session that was active inside the window at `a` is removed only when all the room is taken, by
  -- sessions none of which was last active before `a`. The table has one row for a key.
  pub prune_sessions_with_limit_newest :
      (key : Text) (value : Bytes) (a : ℕ)
      → IsUnique p.sessions
      → lookup key p.sessions ≡ some value
      → activity value ≡ some a
      → cutoff ≤ a
      → lookup key after.sessions ≡ none
      → (length after.sessions ≡ max_sessions)
        × All (λ row. IsSince a (activity row.1)) after.sessions
  unfolding prune_sessions_with_limit pruned_keys
  prune_sessions_with_limit_newest key value a u stored active recent gone = (
    omega (arith, length-after u, length-rows, full.0),
    All-lookup _ after.sessions (after-IsUnique u) (λ k v found.
        let (before, stays) = kept_value k v u found in
        full.1 k (activity v) (lookup-rows-eq-some k v u before) stays),
  )
    where
      dropped : is_member key (pruned_keys lib cutoff max_sessions p) ≡ true
      dropped = ground (arith, lookup-after key u)

      full : IsFull cutoff max_sessions 0 a rows
      full =
          dropped-IsFull cutoff max_sessions 0 a rows key (omega arith) (rows-IsUnique u)
            (sort_by-IsSorted newest_first _ newest_first-IsTotalOrder)
            (lookup-rows-eq-some key value u stored ∙ ap some active) recent
            (unfold pruned_keys in dropped)
