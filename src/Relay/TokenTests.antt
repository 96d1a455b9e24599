-- ===== src/Relay/TokenTests.antt =====
-- Witnesses and tests of Relay: push tokens.
use shelly.Relay.Tokens.{RegisterTokenRequest, owned, bind_token}
use shelly.Relay.Cap.{bind_token-capped, bind_token_taken_over}
use shelly.Prelude.{
  zero, suc, length, ◌+◌, ◌≤◌, arith, ℕ, ◌≡◌, refl, none, some, [], ◌∷◌, Text, text_eq, nat_eq, ok,
}
use shelly.Prelude.Dict.{remove, Dict, lookup, insert, IsUnique}
use shelly.Relay.State.{TokenOwner, max_tokens_per_daemon, RelayState, pair_eq}
use shelly.Protocol.{fcm}
use shelly.Relay.Fixtures.{env, daemon, inner, start}

abbrev other_daemon : Text
other_daemon = b'o' ∷ []

abbrev owner_at : Text → ℕ → TokenOwner
owner_at id at = record { daemon_node_id = id; platform = fcm; updated_at_ms = at }

-- As many tokens of one daemon as the cap allows.
abbrev many : ℕ → Dict Text TokenOwner
many zero = []
many (suc n) = (n ∷ [], owner_at daemon n) ∷ many n

abbrev full : RelayState ℕ (Unit {0}) ℕ
full = record start { inner = record inner { tokens = many 16 } }

abbrev token_request : RegisterTokenRequest
token_request = record {
  daemon_node_id = daemon;
  platform = fcm;
  push_token = b't' ∷ [];
  nonce = b'n' ∷ [];
  ts_ms = 400000;
}

binds :
    bind_token env 500000 token_request full ≡ (ok tt, (bind_token env 500000 token_request full).1)
unfolding bind_token lookup
binds = refl

many-IsUnique : IsUnique (many 16)
unfolding lookup
many-IsUnique = (
  refl,
  (
    refl,
    (
      refl,
      (
        refl,
        (
          refl,
          (
            refl,
            (refl, (refl, (refl, (refl, (refl, (refl, (refl, (refl, (refl, (refl, tt)))))))))),
          ),
        ),
      ),
    ),
  ),
)

fresh_token : lookup token_request.push_token (many 16) ≡ none
unfolding lookup
fresh_token = refl

bind_token-capped_example :
    length (owned daemon (bind_token env 500000 token_request full).1.inner.tokens)
    ≤ max_tokens_per_daemon
bind_token-capped_example =
    bind_token-capped env 500000 token_request full _ daemon many-IsUnique
      (λ before known. absurd (cc (fresh_token, known))) (unfold owned in omega arith) binds

-- The oldest token has made room.
evicts : lookup (0 ∷ []) (bind_token env 500000 token_request full).1.inner.tokens ≡ none
unfolding bind_token lookup insert remove
evicts = refl

abbrev over : RelayState ℕ (Unit {0}) ℕ
over = record start {
  inner = record inner { tokens = (b't' ∷ [], owner_at other_daemon 1) ∷ many 16 };
}

takes_over :
    bind_token env 500000 token_request over ≡ (ok tt, (bind_token env 500000 token_request over).1)
unfolding bind_token lookup
takes_over = refl

held_by_other : lookup token_request.push_token over.inner.tokens ≡ some (owner_at other_daemon 1)
unfolding lookup
held_by_other = refl

bind_token_taken_over_example :
    length (owned daemon (bind_token env 500000 token_request over).1.inner.tokens)
    ≡ length (owned daemon over.inner.tokens) + 1
bind_token_taken_over_example =
    bind_token_taken_over env 500000 token_request (owner_at other_daemon 1) over _ held_by_other
      refl takes_over
