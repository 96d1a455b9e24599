-- ===== src/Relay/Tokens.antt =====
-- The push tokens: `register_token`, `unregister_token`, `push` and what they call.
use shelly.Prelude.{
  ℕ, ◌/◌, Bool, true, false, not, ◌&&◌, ◌||◌, ltb, ◌==◌, Option, none, some, List, [], ◌∷◌, ◌++◌,
  Text, text_eq, text_beq, Eq, Result, ok, err, if◌then◌else◌, length,
}
use shelly.Prelude.Io.{◌>>=◌, ◌>>◌, pure, modify, get, failing_with}
use shelly.Prelude.Dict.{Dict, lookup, insert, remove, contains_key}
use shelly.Relay.State.{
  Env, RelayInner, TokenOwner, PushEventType, DeliveredPush, ProviderDeliveryError, invalid_token,
  other, ApiError, bad_request, invalid_json, forbidden, not_registered, not_owned,
  token_register_rate_limited, rate_limited, internal, provider_error, rate_limits,
  token_register_rate_limits, rate_limit_per_minute, register_token_attempts_per_minute,
  max_tokens_per_daemon, bump,
}
use shelly.Protocol.{PushPlatform, apns, fcm, same_platform}
use shelly.Relay.Steps.{Relay, with_inner, count, stored, limit}
use shelly.Relay.Checks.{ok_or, push_token_is_stale}
use shelly.Relay.Verifying.{verify_signed_request, verify_signed_request_with_pre_nonce_check}
use shelly.Relay.Daemons.{Http, signed}

pub record RegisterTokenRequest : Type 0 where
  pub daemon_node_id : Text
  pub platform : PushPlatform
  pub push_token : Text
  pub nonce : Text
  pub ts_ms : ℕ

pub record UnregisterTokenRequest : Type 0 where
  pub daemon_node_id : Text
  pub push_token : Text
  pub nonce : Text
  pub ts_ms : ℕ

pub record PushRequest : Type 0 where
  pub daemon_node_id : Text
  pub recipient_token : Text
  pub platform : PushPlatform
  pub session_id_hash : Text
  pub event_type : PushEventType
  pub nonce : Text
  pub ts_ms : ℕ

-- The order of texts (`Ord for str`).
unfoldable pub text_ltb : Text → Text → Bool
text_ltb [] [] = false
text_ltb [] (d ∷ t) = true
text_ltb (c ∷ s) [] = false
text_ltb (c ∷ s) (d ∷ t) = ltb c d || (c == d && text_ltb s t)

-- The tokens of a daemon, with the times of their last use.
unfoldable pub owned : Text → Dict Text TokenOwner → List (Text × ℕ)
owned daemon_node_id [] = []
owned daemon_node_id ((token, owner) ∷ tokens) =
    let rest = owned daemon_node_id tokens in
    if text_beq owner.daemon_node_id daemon_node_id
    then (token, owner.updated_at_ms) ∷ rest
    else rest

abbrev pub older : Text × ℕ → Text × ℕ → Bool
older (token, at) (token', at') = ltb at at' || (at == at' && text_ltb token token')

-- `Iterator::min_by`: the oldest, and of those the first by its text.
unfoldable pub oldest : List (Text × ℕ) → Option (Text × ℕ)
oldest [] = none
oldest (t ∷ ts) = elim (oldest ts) [ none ↦ some t | some u ↦ if older u t then some u else some t ]

unfoldable pub token_evicted_by_cap : Dict Text TokenOwner → Text → Text → Option Text
unfolding owned oldest
token_evicted_by_cap tokens daemon_node_id push_token =
    if contains_key push_token tokens
    then none
    else if ltb (length (owned daemon_node_id tokens)) max_tokens_per_daemon
    then none
    else elim (oldest (owned daemon_node_id tokens)) [ none ↦ none | some t ↦ some t.0 ]

-- "/v1/push/register-token", "/v1/push/unregister-token" and "/v1/push"
abbrev pub push_path : Text
push_path = b'/' ∷ b'v' ∷ b'1' ∷ b'/' ∷ b'p' ∷ b'u' ∷ b's' ∷ b'h' ∷ []

abbrev pub unregister_token_path : Text
unregister_token_path =
    push_path
    ++ b'/' ∷ b'u' ∷ b'n' ∷ b'r' ∷ b'e' ∷ b'g' ∷ b'i' ∷ b's' ∷ b't' ∷ b'e' ∷ b'r' ∷ b'-' ∷ b't'
      ∷ b'o' ∷ b'k' ∷ b'e' ∷ b'n' ∷ []

abbrev pub register_token_path : Text
register_token_path =
    push_path
    ++ b'/' ∷ b'r' ∷ b'e' ∷ b'g' ∷ b'i' ∷ b's' ∷ b't' ∷ b'e' ∷ b'r' ∷ b'-' ∷ b't' ∷ b'o' ∷ b'k'
      ∷ b'e' ∷ b'n' ∷ []

module _ {Key Sig S C : Type 0} ⦃key_eq : Eq Key⦄ (env : Env Key Sig S C) where
  -- The durable binding goes first; where that fails, the one in memory stays.
  unfoldable pub remove_push_token_binding : Text → Relay Key S C (Unit {0})
  unfolding stored
  remove_push_token_binding push_token = do
    failing_with internal (stored env tt (λ store. store.remove_token push_token))
    modify (with_inner (λ inner. record inner { tokens = remove push_token inner.tokens }))
    modify (
        count (λ metrics. record metrics {
          token_unregistrations = bump metrics.token_unregistrations;
        }))

  touched : Text → ℕ → Dict Text TokenOwner → Dict Text TokenOwner
  touched push_token updated_at_ms tokens = elim (lookup push_token tokens) [
    | none ↦ tokens
    | some owner ↦ insert push_token (record owner { updated_at_ms = updated_at_ms }) tokens
  ]

  unfoldable pub touch_push_token_binding : Text → ℕ → Relay Key S C (Unit {0})
  unfolding stored touched
  touch_push_token_binding push_token updated_at_ms = do
    failing_with internal (stored env tt (λ store. store.touch_token push_token updated_at_ms))
    modify (
        with_inner
          (λ inner. record inner { tokens = touched push_token updated_at_ms inner.tokens }))

  -- The binding that makes room for a new one is dropped first.
  unfoldable pub evict_over_cap : Text → Text → Relay Key S C (Unit {0})
  unfolding remove_push_token_binding token_evicted_by_cap
  evict_over_cap daemon_node_id push_token s =
      elim (token_evicted_by_cap s.inner.tokens daemon_node_id push_token) [
        | none ↦ (ok tt, s)
        | some evicted ↦ remove_push_token_binding evicted s
      ]

  -- The part of `register_token` behind the check of the signature.
  unfoldable pub bind_token : ℕ → RegisterTokenRequest → Relay Key S C (Unit {0})
  unfolding evict_over_cap stored
  bind_token now request = do
    evict_over_cap request.daemon_node_id request.push_token
    failing_with internal (
        stored env tt (λ store.
          store.save_token request.push_token request.daemon_node_id request.platform now))
    modify (
        with_inner (λ inner. record inner {
          tokens =
              insert request.push_token
                (record {
                  daemon_node_id = request.daemon_node_id;
                  platform = request.platform;
                  updated_at_ms = now;
                })
                inner.tokens;
        }))
    modify (
        count
          (λ metrics. record metrics { token_registrations = bump metrics.token_registrations }))

  unfoldable pub register_token : Http RegisterTokenRequest → Relay Key S C (Unit {0})
  unfolding bind_token signed ok_or limit
  register_token http = do
    request ← pure (ok_or http.parsed (bad_request invalid_json))
    verify_signed_request_with_pre_nonce_check env (http.clock 0)
        (signed http register_token_path request.daemon_node_id request.nonce request.ts_ms)
        (limit env token_register_rate_limits request.daemon_node_id (http.clock 1 / 60000)
          register_token_attempts_per_minute token_register_rate_limited)
    bind_token (http.clock 2) request

  unfoldable pub unregister_token : Http UnregisterTokenRequest → Relay Key S C (Unit {0})
  unfolding remove_push_token_binding signed ok_or
  unregister_token http = do
    request ← pure (ok_or http.parsed (bad_request invalid_json))
    verify_signed_request env (http.clock 0)
        (signed http unregister_token_path request.daemon_node_id request.nonce request.ts_ms)
    remove_push_token_binding request.push_token

  -- Whether the token of a push is stale, or an error where it is not the daemon's.
  unfoldable pub check_owner : ℕ → PushRequest → RelayInner Key → Result ApiError Bool
  unfolding push_token_is_stale
  check_owner now request inner = elim (lookup request.recipient_token inner.tokens) [
    | none ↦ err (forbidden not_registered)
    | some owner ↦
        if push_token_is_stale owner.updated_at_ms now
        then ok true
        else if not (text_beq owner.daemon_node_id request.daemon_node_id)
            || not (same_platform owner.platform request.platform)
        then err (forbidden not_owned)
        else ok false
  ]

  -- `PushProviders::deliver`: without a provider for the platform nothing is sent.
  unfoldable pub deliver : DeliveredPush → Result ProviderDeliveryError (Unit {0})
  deliver delivery = elim delivery.platform [
    | apns ↦ elim env.apns_client [ none ↦ ok tt | some send ↦ send delivery ]
    | fcm ↦ elim env.fcm_client [ none ↦ ok tt | some send ↦ send delivery ]
  ]

  unfoldable pub delivery_of : PushRequest → DeliveredPush
  delivery_of request = record {
    platform = request.platform;
    recipient_token = request.recipient_token;
    title = b'S' ∷ b'h' ∷ b'e' ∷ b'l' ∷ b'l' ∷ b'y' ∷ [];
    body =
        b'A' ∷ b' ' ∷ b's' ∷ b'e' ∷ b's' ∷ b's' ∷ b'i' ∷ b'o' ∷ b'n' ∷ b' ' ∷ b'i' ∷ b's' ∷ b' '
        ∷ b'w' ∷ b'a' ∷ b'i' ∷ b't' ∷ b'i' ∷ b'n' ∷ b'g' ∷ b' ' ∷ b'f' ∷ b'o' ∷ b'r' ∷ b' ' ∷ b'y'
        ∷ b'o' ∷ b'u' ∷ b'.' ∷ [];
    thread_id = b's' ∷ b'e' ∷ b's' ∷ b's' ∷ b'i' ∷ b'o' ∷ b'n' ∷ b'.' ∷ request.session_id_hash;
    session_id_hash = request.session_id_hash;
    event_type = request.event_type;
  }

  -- What follows the answer of the provider.
  unfoldable pub after_delivery :
      ℕ → Text → Result ProviderDeliveryError (Unit {0}) → Relay Key S C (Unit {0})
  unfolding remove_push_token_binding touch_push_token_binding
  after_delivery now token (err (invalid_token provider)) = do
    remove_push_token_binding token
    pure (err (provider_error provider))
  after_delivery now token (err (other provider)) = pure (err (provider_error provider))
  after_delivery now token (ok _) = do
    touch_push_token_binding token now
    modify (count (λ metrics. record metrics { push_accepts = bump metrics.push_accepts }))

  unfoldable pub drop_stale : Text → Relay Key S C (Unit {0})
  unfolding remove_push_token_binding
  drop_stale token = do remove_push_token_binding token; pure (err (forbidden not_registered))

  unfoldable pub push : Http PushRequest → Relay Key S C (Unit {0})
  unfolding check_owner deliver delivery_of after_delivery drop_stale signed ok_or limit
  push http = do
    request ← pure (ok_or http.parsed (bad_request invalid_json))
    verify_signed_request env (http.clock 0)
        (signed http push_path request.daemon_node_id request.nonce request.ts_ms)
    s ← get
    token_is_stale ← pure (check_owner (http.clock 1) request s.inner)
    (if token_is_stale then drop_stale request.recipient_token else (do
      limit env rate_limits request.daemon_node_id (http.clock 2 / 60000) rate_limit_per_minute
          rate_limited
      after_delivery (http.clock 3) request.recipient_token (deliver (delivery_of request))))
