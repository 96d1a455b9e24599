-- ===== src/Persistence/Pruning.antt =====
-- crates/daemon/src/persistence.rs: which of the stored sessions are kept.
use shelly.Prelude.{
  ℕ, suc, ◌-◌, Bool, true, false, ◌&&◌, Option, none, some, List, [], ◌∷◌, Text, ltb, leb,
  if◌then◌else◌, length, Result, ok, err, text_eq,
}
use shelly.Prelude.Dict.{Dict, remove}
use shelly.Prelude.Sorting.{sort_by}
use shelly.Persistence.{
  Bytes, Libraries, Persistence, StoreError, database, last_activity, session_retention_ms,
  max_stored_sessions,
}

-- The order of `Reverse` on the times: the newest first, the unreadable last.
unfoldable pub newest_first : Text × Option ℕ → Text × Option ℕ → Bool
newest_first (j, a) (k, none) = true
newest_first (j, none) (k, some b) = false
newest_first (j, some a) (k, some b) = leb b a

unfoldable pub should_retain : ℕ → ℕ → ℕ → Option ℕ → Bool
should_retain cutoff max_sessions retained none = false
should_retain cutoff max_sessions retained (some value) =
    leb cutoff value && ltb retained max_sessions

-- The loop over the rows, `retained` of which stay so far: the keys to remove.
unfoldable pub to_remove : ℕ → ℕ → ℕ → Dict Text (Option ℕ) → List Text
unfolding should_retain
to_remove cutoff max_sessions retained [] = []
to_remove cutoff max_sessions retained ((key, value) ∷ rows) =
    if should_retain cutoff max_sessions retained value
    then to_remove cutoff max_sessions (suc retained) rows
    else key ∷ to_remove cutoff max_sessions retained rows

unfoldable pub remove_keys : List Text → Dict Text Bytes → Dict Text Bytes
remove_keys [] table = table
remove_keys (key ∷ keys) table = remove_keys keys (remove key table)

unfoldable pub activities : (Bytes → Option ℕ) → Dict Text Bytes → Dict Text (Option ℕ)
activities read [] = []
activities read ((key, value) ∷ rows) = (key, read value) ∷ activities read rows

module _ (lib : Libraries) where
  unfoldable pub pruned_keys : ℕ → ℕ → Persistence → List Text
  unfolding newest_first to_remove activities last_activity
  pruned_keys cutoff max_sessions p =
      to_remove cutoff max_sessions 0
        (sort_by newest_first (activities (last_activity lib p.mode) p.sessions))

  -- The answer is the number of rows removed.
  unfoldable pub prune_sessions_with_limit :
      Bool → ℕ → ℕ → Persistence → Result StoreError ℕ × Persistence
  unfolding pruned_keys remove_keys
  prune_sessions_with_limit commits now max_sessions p =
      let removed = pruned_keys (now - session_retention_ms) max_sessions p in
      if commits
      then (ok (length removed), record p { sessions = remove_keys removed p.sessions })
      else (err database, p)

  unfoldable pub prune_sessions : Bool → ℕ → Persistence → Result StoreError ℕ × Persistence
  unfolding prune_sessions_with_limit
  prune_sessions commits now p = prune_sessions_with_limit commits now max_stored_sessions p
