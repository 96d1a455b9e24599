-- ===== src/Relay/Verifying.antt =====
-- The check of a signed request, and of the proof with a registration.
use shelly.Prelude.{ℕ, ◌-◌, true, leb, none, some, Text, Eq, text_eq, ok, err, if◌then◌else◌}
use shelly.Prelude.Io.{◌>>=◌, ◌>>◌, pure, require, modify, failing_with}
use shelly.Prelude.Dict.{lookup, insert, contains_key}
use shelly.Relay.State.{
  Env, RelayInner, clock_skew, unauthorized, replay, internal, key_changed, clock_skew_ms, pair_eq,
}
use shelly.Relay.Steps.{Relay, with_inner, stored}
use shelly.Relay.Signatures.{
  SignedRequest, RegistrationProof, public_key_of, same_key, check_signature, check_proof,
}
use shelly.Relay.Pruning.{maybe_prune_expired_relay_state}

-- `u64::abs_diff`
abbrev pub abs_diff : ℕ → ℕ → ℕ
abs_diff a b = if leb a b then b - a else a - b

module _ {Key Sig S C : Type 0} ⦃key_eq : Eq Key⦄ (env : Env Key Sig S C) where
  -- The nonces are remembered with the time that was signed.
  unfoldable pub remember_nonce : Text → Text → ℕ → Relay Key S C (Unit {0})
  remember_nonce daemon_node_id nonce ts_ms s = (
    if contains_key (daemon_node_id, nonce) s.inner.seen_nonces then err replay else ok tt,
    with_inner
        (λ inner. record inner {
          seen_nonces = insert (daemon_node_id, nonce) ts_ms inner.seen_nonces;
        })
        s,
  )

  -- A daemon that has signed a request is active.
  unfoldable pub touch_daemon : Text → Key → ℕ → RelayInner Key → RelayInner Key
  touch_daemon daemon_node_id key now inner = elim (lookup daemon_node_id inner.daemons) [
    | none ↦ inner
    | some r ↦
        if key_eq.beq r.public_key key
        then record inner {
          daemons = insert daemon_node_id (record r { updated_at_ms = now }) inner.daemons;
        }
        else inner
  ]

  unfoldable pub verify_signed_request_with_pre_nonce_check :
      ℕ → SignedRequest → Relay Key S C (Unit {0}) → Relay Key S C (Unit {0})
  unfolding check_signature remember_nonce touch_daemon public_key_of
  verify_signed_request_with_pre_nonce_check now request pre_nonce_check = do
    require (leb (abs_diff now request.ts_ms) clock_skew_ms) clock_skew
    modify (maybe_prune_expired_relay_state env now)
    key ← (λ s. (check_signature env s.inner request, s))
    (λ s. (
      if same_key env (public_key_of request.daemon_node_id s.inner) key
          then ok tt
          else err (unauthorized key_changed),
      s,
    ))
    pre_nonce_check
    remember_nonce request.daemon_node_id request.nonce request.ts_ms
    inserted ← failing_with internal (
        stored env true (λ store.
          store.record_authenticated_activity request.daemon_node_id request.nonce request.ts_ms
            now))
    require inserted replay
    modify (with_inner (touch_daemon request.daemon_node_id key now))

  unfoldable pub verify_signed_request : ℕ → SignedRequest → Relay Key S C (Unit {0})
  unfolding verify_signed_request_with_pre_nonce_check
  verify_signed_request now request =
      verify_signed_request_with_pre_nonce_check now request (pure (ok tt))

  unfoldable pub verify_registration_proof :
      ℕ → Text → Key → RegistrationProof → Relay Key S C (Unit {0})
  unfolding check_proof remember_nonce
  verify_registration_proof now daemon_node_id relay_signing_key proof = do
    require (leb (abs_diff now proof.ts_ms) clock_skew_ms) clock_skew
    modify (maybe_prune_expired_relay_state env now)
    pure (check_proof env daemon_node_id relay_signing_key proof)
    remember_nonce daemon_node_id proof.nonce proof.ts_ms
    inserted ←
        failing_with internal
          (stored env true (λ store. store.insert_nonce daemon_node_id proof.nonce proof.ts_ms))
    require inserted replay
