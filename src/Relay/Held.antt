-- ===== src/Relay/Held.antt =====
-- What an insertion, a removal and an eviction do to the number of tokens that a daemon holds.
use shelly.Prelude.{
  ℕ, ◌+◌, ◌≤◌, ◌<◌, ◌≡◌, refl, sym, ◌∙◌, true, false, none, some, List, [], ◌∷◌, Text, text_eq,
  text_beq, arith, ltb, ltb→lt, length, All, subst, inl, inr, if◌then◌else◌, Bool-cases,
  Option-cases,
}
use shelly.Prelude.Dict.{Dict, lookup, insert, remove, IsUnique}
use shelly.Relay.State.{TokenOwner, max_tokens_per_daemon}
use shelly.Relay.Tokens.{older, owned, oldest, token_evicted_by_cap}

pub text_beq_self : (d : Text) → text_beq d d ≡ true
text_beq_self d = (text_eq.beq_iff d d).1 refl

-- A token that moves to a daemon from another one adds to what it owns.
pub length-owned_moved :
    (d token : Text) (owner before : TokenOwner) (tokens : Dict Text TokenOwner)
    → lookup token tokens ≡ some before
    → text_beq before.daemon_node_id d ≡ false
    → text_beq owner.daemon_node_id d ≡ true
    → length (owned d (insert token owner tokens)) ≡ length (owned d tokens) + 1
unfolding owned insert lookup
length-owned_moved d token owner before [] known other mine = absurd (cc known)
length-owned_moved d token owner before ((t, o) ∷ tokens) known other mine =
    ground (arith, known, other, mine, length-owned_moved d token owner before tokens)

-- A new token adds one at most, and none for another daemon.
length-owned-insert :
    (d token : Text) (owner : TokenOwner) (tokens : Dict Text TokenOwner)
    → length (owned d (insert token owner tokens))
      ≤ length (owned d tokens) + (if text_beq owner.daemon_node_id d then 1 else 0)
unfolding owned insert
length-owned-insert d token owner [] = ground arith
length-owned-insert d token owner ((t, o) ∷ tokens) =
    ground (arith, length-owned-insert d token owner tokens)

length-owned-remove :
    (d token : Text) (before : TokenOwner) (tokens : Dict Text TokenOwner)
    → lookup token tokens ≡ some before
    → text_beq before.daemon_node_id d ≡ true
    → length (owned d (remove token tokens)) + 1 ≡ length (owned d tokens)
unfolding owned remove lookup
length-owned-remove d token before [] known mine = absurd (cc known)
length-owned-remove d token before ((t, o) ∷ tokens) known mine =
    ground (arith, known, mine, length-owned-remove d token before tokens)

length-owned-remove_le :
    (d token : Text) (tokens : Dict Text TokenOwner)
    → length (owned d (remove token tokens)) ≤ length (owned d tokens)
unfolding owned remove
length-owned-remove_le d token [] = omega arith
length-owned-remove_le d token ((t, o) ∷ tokens) =
    ground (arith, length-owned-remove_le d token tokens)

pub known_kept :
    (d token : Text) (before : TokenOwner) (tokens : Dict Text TokenOwner)
    → lookup token tokens ≡ some before
    → token_evicted_by_cap tokens d token ≡ none
unfolding token_evicted_by_cap
known_kept d token before tokens known = rw known refl

-- The daemon holds the token.
IsHeld : Text → Dict Text TokenOwner → Text × ℕ → Type 0
IsHeld d tokens t =
    (before : TokenOwner) × (lookup t.0 tokens ≡ some before)
    × (text_beq before.daemon_node_id d ≡ true)

IsHeld-behind :
    (d token : Text) (owner : TokenOwner) (tokens : Dict Text TokenOwner) (ts : List (Text × ℕ))
    → lookup token tokens ≡ none
    → All (IsHeld d tokens) ts
    → All (IsHeld d ((token, owner) ∷ tokens)) ts
unfolding IsHeld lookup
IsHeld-behind d token owner tokens [] fresh held = tt
IsHeld-behind d token owner tokens (t ∷ ts) fresh ((before, known, mine), held) = (
  (before, ground (arith, fresh, known, text_eq.beq_iff token t.0), mine),
  IsHeld-behind d token owner tokens ts fresh held,
)

owned-IsHeld :
    (d : Text) (tokens : Dict Text TokenOwner)
    → IsUnique tokens
    → All (IsHeld d tokens) (owned d tokens)
unfolding owned IsHeld
owned-IsHeld d [] u = tt
owned-IsHeld d ((token, owner) ∷ tokens) u =
    let rest =
      IsHeld-behind d token owner tokens (owned d tokens) u.0 (owned-IsHeld d tokens u.1) in
    elim (Bool-cases (text_beq owner.daemon_node_id d)) [
      | inl mine ↦ rw mine ((owner, unfold lookup in rw (text_beq_self token) refl, mine), rest)
      | inr other ↦ rw other rest
    ]

oldest-IsHeld :
    (d : Text) (tokens : Dict Text TokenOwner) (ts : List (Text × ℕ)) (t : Text × ℕ)
    → All (IsHeld d tokens) ts
    → oldest ts ≡ some t
    → IsHeld d tokens t
unfolding oldest
oldest-IsHeld d tokens [] t held h = absurd (cc h)
oldest-IsHeld d tokens (x ∷ xs) t (mine, held) h = elim (Option-cases (oldest xs)) [
  | inl last ↦ subst (IsHeld d tokens) (cc (rw last at h)) mine
  | inr (y, found) ↦ elim (Bool-cases (older y x)) [
    | inl first ↦ oldest-IsHeld d tokens xs t held (found ∙ cc (rw (found, first) at h))
    | inr behind ↦ subst (IsHeld d tokens) (cc (rw (found, behind) at h)) mine
  ]
]

length-owned_again :
    (d token : Text) (owner before : TokenOwner) (tokens : Dict Text TokenOwner)
    → lookup token tokens ≡ some before
    → before.daemon_node_id ≡ owner.daemon_node_id
    → length (owned d (insert token owner tokens)) ≡ length (owned d tokens)
unfolding owned insert lookup
length-owned_again d token owner before [] known same = absurd (cc known)
length-owned_again d token owner before ((t, o) ∷ tokens) known same =
    ground (arith, known, same, length-owned_again d token owner before tokens)

oldest-eq-none : (ts : List (Text × ℕ)) → oldest ts ≡ none → length ts ≡ 0
unfolding oldest
oldest-eq-none [] h = refl
oldest-eq-none (t ∷ ts) h = elim (Option-cases (oldest ts)) [
  | inl last ↦ absurd (cc (rw last at h))
  | inr (y, found) ↦ elim (Bool-cases (older y t)) [
    | inl first ↦ absurd (cc (rw (found, first) at h))
    | inr behind ↦ absurd (cc (rw (found, behind) at h))
  ]
]

full_empty : (n : ℕ) → ltb n max_tokens_per_daemon ≡ false → n ≡ 0 → ⊥
full_empty n full empty = ground arith

room_for :
    (d token : Text) (owner : TokenOwner) (tokens : Dict Text TokenOwner)
    → length (owned owner.daemon_node_id tokens) < max_tokens_per_daemon
    → length (owned d tokens) ≤ max_tokens_per_daemon
    → length (owned d (insert token owner tokens)) ≤ max_tokens_per_daemon
room_for d token owner tokens room within = elim (Bool-cases (text_beq owner.daemon_node_id d)) [
  | inl mine ↦
      let here =
        subst (λ e. length (owned e tokens) < max_tokens_per_daemon)
          ((text_eq.beq_iff owner.daemon_node_id d).0 mine) room in
      let added = length-owned-insert d token owner tokens in omega (arith, here, rw mine at added)
  | inr other ↦
      let added = length-owned-insert d token owner tokens in
      omega (arith, within, rw other at added)
]

swapped :
    (d token : Text) (t : Text × ℕ) (owner : TokenOwner) (tokens : Dict Text TokenOwner)
    → IsHeld owner.daemon_node_id tokens t
    → length (owned d tokens) ≤ max_tokens_per_daemon
    → length (owned d (insert token owner (remove t.0 tokens))) ≤ max_tokens_per_daemon
unfolding IsHeld
swapped d token t owner tokens (before, known, held) within =
    let added = length-owned-insert d token owner (remove t.0 tokens) in
    elim (Bool-cases (text_beq owner.daemon_node_id d)) [
      | inl mine ↦
          let here =
            subst (λ e. text_beq before.daemon_node_id e ≡ true)
              ((text_eq.beq_iff owner.daemon_node_id d).0 mine) held in
          omega
            (arith, within, length-owned-remove d t.0 before tokens known here, rw mine at added)
      | inr other ↦ omega (arith, within, length-owned-remove_le d t.0 tokens, rw other at added)
    ]

pub capped_none :
    (d token : Text) (owner : TokenOwner) (tokens : Dict Text TokenOwner)
    → ((before : TokenOwner)
        → lookup token tokens ≡ some before
        → text_beq before.daemon_node_id owner.daemon_node_id ≡ true)
    → token_evicted_by_cap tokens owner.daemon_node_id token ≡ none
    → length (owned d tokens) ≤ max_tokens_per_daemon
    → length (owned d (insert token owner tokens)) ≤ max_tokens_per_daemon
unfolding token_evicted_by_cap
capped_none d token owner tokens mine kept within = elim (Option-cases (lookup token tokens)) [
  | inr (before, known) ↦
      let same =
        (text_eq.beq_iff before.daemon_node_id owner.daemon_node_id).0 (mine before known) in
      omega (arith, length-owned_again d token owner before tokens known same)
  | inl fresh ↦
      elim (Bool-cases (ltb (length (owned owner.daemon_node_id tokens)) max_tokens_per_daemon)) [
        | inl room ↦ room_for d token owner tokens (ltb→lt _ _ room) within
        | inr full ↦ elim (Option-cases (oldest (owned owner.daemon_node_id tokens))) [
          | inl empty ↦ absurd (full_empty _ full (oldest-eq-none _ empty))
          | inr (t, found) ↦ absurd (cc (rw (fresh, full, found) at kept))
        ]
      ]
]

pub capped_some :
    (d token evicted : Text) (owner : TokenOwner) (tokens : Dict Text TokenOwner)
    → IsUnique tokens
    → token_evicted_by_cap tokens owner.daemon_node_id token ≡ some evicted
    → length (owned d tokens) ≤ max_tokens_per_daemon
    → length (owned d (insert token owner (remove evicted tokens))) ≤ max_tokens_per_daemon
unfolding token_evicted_by_cap
capped_some d token evicted owner tokens u out within = elim (Option-cases (lookup token tokens)) [
  | inr (before, known) ↦ absurd (cc (rw known at out))
  | inl fresh ↦
      elim (Bool-cases (ltb (length (owned owner.daemon_node_id tokens)) max_tokens_per_daemon)) [
        | inl room ↦ absurd (cc (rw (fresh, room) at out))
        | inr full ↦ elim (Option-cases (oldest (owned owner.daemon_node_id tokens))) [
          | inl empty ↦ absurd (cc (rw (fresh, full, empty) at out))
          | inr (t, found) ↦
              let same : t.0 ≡ evicted = cc (rw (fresh, full, found) at out) in
              let held =
                oldest-IsHeld owner.daemon_node_id tokens _ t
                  (owned-IsHeld owner.daemon_node_id tokens u) found in
              rw (sym same) (swapped d token t owner tokens held within)
        ]
      ]
]
