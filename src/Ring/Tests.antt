-- ===== src/Ring/Tests.antt =====
-- Runs of the ring buffer, as in the tests of ring.rs, and the theorems at concrete inputs.
use shelly.Prelude.{ℕ, ◌-◌, ◌<◌, ◌≡◌, refl, List, [], ◌∷◌, none, some, arith}
use shelly.Ring.{PtyRingBuffer, new, push, replay_from, end_seq, u64_max, saturating_add}
use shelly.Ring.Window.{push_all, replay_from-push_all}
use shelly.Ring.Overflow.{replay_from-poisoned_end}

-- Ten bytes in two chunks, through a buffer of five.
abbrev two_chunks : List (List ℕ)
two_chunks = (10 ∷ 11 ∷ 12 ∷ 13 ∷ []) ∷ (14 ∷ 15 ∷ 16 ∷ 17 ∷ 18 ∷ 19 ∷ []) ∷ []

-- A buffer whose sequence numbers are nearly used up.
abbrev nearly_full : PtyRingBuffer
nearly_full = record { capacity = 8; start_seq = u64_max - 1; next_seq = u64_max - 1; bytes = [] }

stale_seq : replay_from 2 (push_all (new 5) two_chunks) 4 ≡ none
unfolding push_all push new replay_from
stale_seq = refl

next_seq_is_empty : replay_from 2 (push_all (new 5) two_chunks) 10 ≡ some (10, [])
unfolding push_all push new replay_from
next_seq_is_empty = refl

first_push_starts_at_end : (push nearly_full (1 ∷ 2 ∷ [])).1 ≡ u64_max - 1
unfolding push
first_push_starts_at_end = refl

end_after_overflow : end_seq (push nearly_full (1 ∷ 2 ∷ [])).0 ≡ u64_max
unfolding push end_seq
end_after_overflow = refl

saturated : saturating_add u64_max 3 ≡ u64_max
saturated = refl

replay_from-push_all_example :
    replay_from 2 (push_all (new 5) two_chunks) 7 ≡ some (7, 17 ∷ 18 ∷ 19 ∷ [])
replay_from-push_all_example = replay_from-push_all 5 2 7 two_chunks (omega arith)

replay_from-poisoned_end_example :
    ((seq : ℕ)
      → seq < u64_max
      → replay_from 0 (push_all (push nearly_full (1 ∷ 2 ∷ [])).0 two_chunks) seq ≡ none)
    × (replay_from 0 (push_all (push nearly_full (1 ∷ 2 ∷ [])).0 two_chunks) u64_max
        ≡ some (u64_max, []))
replay_from-poisoned_end_example =
    replay_from-poisoned_end nearly_full (1 ∷ 2 ∷ []) two_chunks 0 (omega arith) (omega arith)
