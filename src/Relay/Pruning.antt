-- ===== src/Relay/Pruning.antt =====
-- The removal of what has expired.
use shelly.Prelude.{ℕ, ◌-◌, not, ltb, leb, text_eq, if◌then◌else◌}
use shelly.Prelude.Dict.{retain, contains_key}
use shelly.Relay.State.{Env, RelayState, RelayInner, clock_skew_ms, prune_interval_ms, pair_eq}
use shelly.Relay.Steps.{with_inner, logged}
use shelly.Relay.Checks.{push_token_is_stale}

unfoldable pub prune_lapsed : {Key : Type 0} → ℕ → RelayInner Key → RelayInner Key
unfolding push_token_is_stale
prune_lapsed now inner = record inner {
  seen_nonces = retain (λ _ ts_ms. leb (now - clock_skew_ms) ts_ms) inner.seen_nonces;
  pairing_codes = retain (λ _ entry. ltb now entry.expires_at_ms) inner.pairing_codes;
  tokens = retain (λ _ owner. not (push_token_is_stale owner.updated_at_ms now)) inner.tokens;
}

-- The daemons that have been silent for too long, with all that is theirs.
unfoldable pub prune_silent : {Key : Type 0} → ℕ → ℕ → RelayInner Key → RelayInner Key
prune_silent daemon_retention_ms now inner =
    let active =
      retain (λ _ registration. leb (now - daemon_retention_ms) registration.updated_at_ms)
        inner.daemons in
    record inner {
      daemons = active;
      tokens = retain (λ _ owner. contains_key owner.daemon_node_id active) inner.tokens;
      seen_nonces = retain (λ key _. contains_key key.0 active) inner.seen_nonces;
      pairing_codes =
          retain (λ _ entry. contains_key entry.daemon_node_id active) inner.pairing_codes;
    }

module _ {Key Sig S C : Type 0} (env : Env Key Sig S C) where
  unfoldable pub prune_inner : ℕ → RelayInner Key → RelayInner Key
  unfolding prune_lapsed prune_silent
  prune_inner now inner =
      if env.prune_stale_daemons
      then prune_silent env.daemon_retention_ms now (prune_lapsed now inner)
      else prune_lapsed now inner

  unfoldable pub prune_expired_relay_state : ℕ → RelayState Key S C → RelayState Key S C
  unfolding prune_inner logged
  prune_expired_relay_state now s =
      logged env (λ store. store.prune_expired now env.prune_stale_daemons env.daemon_retention_ms)
        (with_inner (prune_inner now) s)

  unfoldable pub maybe_prune_expired_relay_state : ℕ → RelayState Key S C → RelayState Key S C
  unfolding prune_expired_relay_state
  maybe_prune_expired_relay_state now s =
      if ltb (now - s.inner.pruned_at_ms) prune_interval_ms
      then s
      else prune_expired_relay_state now
          (with_inner (λ inner. record inner { pruned_at_ms = now }) s)
