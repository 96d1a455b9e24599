-- ===== src/Persistence/Tests.antt =====
-- Witnesses and tests of Persistence.
use shelly.Prelude.{
  ℕ, ◌≡◌, refl, true, none, some, [], ◌∷◌, arith, length, All, ok, text_eq, ◌+◌, text_eq,
}
use shelly.Prelude.Dict.{IsUnique, lookup, remove}
use shelly.Prelude.Sorting.{sort_by}
use shelly.Signing.{strip_prefix}
use shelly.Persistence.{Bytes, Persistence, plaintext, decode_session, save_session, last_activity}
use shelly.Persistence.Payload.{decode_session-save_session}
use shelly.Persistence.Pruning.{prune_sessions_with_limit}
use shelly.Persistence.Retention.{IsSince}
use shelly.Persistence.Newest.{prune_sessions_with_limit_newest}
use shelly.Persistence.Fixtures.{libraries, libraries-IsLawful, blank, a_key, a_nonce, empty_store}

abbrev saved_store : Persistence
saved_store = (save_session libraries true a_nonce (blank 7 (65 ∷ [])) empty_store).1

-- Written encrypted, read after the encryption was switched off.
decode_session-save_session_example :
    (bytes : Bytes) × (lookup [] saved_store.sessions ≡ some bytes)
    × (decode_session libraries (plaintext (some a_key)) bytes ≡ ok (blank 7 (65 ∷ [])))
unfolding save_session strip_prefix
decode_session-save_session_example =
    decode_session-save_session libraries libraries-IsLawful (plaintext (some a_key)) a_nonce
      (blank 7 (65 ∷ [])) empty_store refl (refl, refl) refl

-- A row in plain text, as it is stored.
abbrev row : ℕ → Bytes
row last = b'F' ∷ b'W' ∷ b'P' ∷ b'1' ∷ 0 ∷ last ∷ []

abbrev week : ℕ
week = 604800000

-- Three sessions in the window, one of which was active before it, and a row that cannot be read.
abbrev full_store : Persistence
full_store = record {
  sessions =
      (b'a' ∷ [], row (week + 5))
      ∷ (b'b' ∷ [], row (week + 9))
      ∷ (b'c' ∷ [], row 3)
      ∷ (b'd' ∷ [], 1 ∷ 2 ∷ [])
      ∷ (b'e' ∷ [], row (week + 7))
      ∷ [];
  devices = [];
  mode = plaintext none;
}

full_store-IsUnique : IsUnique full_store.sessions
unfolding lookup
full_store-IsUnique = (refl, (refl, (refl, (refl, (refl, tt)))))

abbrev pruned_store : Persistence
pruned_store = (prune_sessions_with_limit libraries true (week + 5) 2 full_store).1

-- Of the three sessions in the window the two newest stay.
keeps_two : pruned_store.sessions ≡ (b'b' ∷ [], row (week + 9)) ∷ (b'e' ∷ [], row (week + 7)) ∷ []
unfolding prune_sessions_with_limit sort_by strip_prefix remove
keeps_two = refl

prune_sessions_with_limit_newest_example :
    (length pruned_store.sessions ≡ 2)
    × All
        (λ r. IsSince (week + 5) (last_activity libraries (plaintext none) r.1))
        pruned_store.sessions
unfolding prune_sessions_with_limit lookup strip_prefix sort_by remove
prune_sessions_with_limit_newest_example =
    prune_sessions_with_limit_newest libraries (week + 5) 2 full_store (b'a' ∷ []) (row (week + 5))
      (week + 5) full_store-IsUnique refl refl (omega arith) refl
