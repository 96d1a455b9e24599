-- ===== src/Relay/Pruned.antt =====
-- What pruning keeps of the nonces that the relay has seen.
use shelly.Prelude.{
  ℕ, ◌-◌, ◌≤◌, ◌≡◌, refl, sym, ap, ◌∙◌, ◌⊎◌, subst, true, some, Text, text_eq, leb, ltb, le→leb,
  Bool-cases, Option-cases, inl, inr,
}
use shelly.Prelude.Io.{Io}
use shelly.Prelude.Dict.{lookup, contains_key, IsUnique, lookup-retain, retain-IsUnique}
use shelly.Relay.State.{
  prune_interval_ms, Env, RelayState, RelayInner, RelayStore, clock_skew_ms, pair_eq,
}
use shelly.Relay.Steps.{with_inner, stored, logged}
use shelly.Relay.Pruning.{
  prune_lapsed, prune_silent, prune_inner, maybe_prune_expired_relay_state,
  prune_expired_relay_state,
}

module _ {Key Sig S C : Type 0} (env : Env Key Sig S C) where
  -- The store changes nothing in memory.
  pub inner-stored :
      {A : Type 0} (default : A) (call : RelayStore Key S → Io S Text A) (s : RelayState Key S C)
      → (stored env default call s).1.inner ≡ s.inner
  unfolding stored
  inner-stored default call s = elim (Option-cases env.store) [
    | inl e ↦ rw e refl
    | inr (store, e) ↦ rw e refl
  ]

  inner-maybe_prune :
      (now : ℕ) (s : RelayState Key S C)
      → ((maybe_prune_expired_relay_state env now s).inner ≡ s.inner)
        ⊎ ((maybe_prune_expired_relay_state env now s).inner
            ≡ prune_inner env now (record s.inner { pruned_at_ms = now }))
  unfolding maybe_prune_expired_relay_state prune_expired_relay_state logged
  inner-maybe_prune now s = elim (Bool-cases (ltb (now - s.inner.pruned_at_ms) prune_interval_ms)) [
    | inl soon ↦ inl (rw soon refl)
    | inr due ↦ inr (
        rw due (
          inner-stored tt
            (λ store. store.prune_expired now env.prune_stale_daemons env.daemon_retention_ms)
            (with_inner (λ inner. prune_inner env now (record inner { pruned_at_ms = now })) s)))
  ]

  prune_lapsed-keeps :
      (now ts : ℕ) (id nonce : Text) (inner : RelayInner Key)
      → IsUnique inner.seen_nonces
      → lookup (id, nonce) inner.seen_nonces ≡ some ts
      → now - clock_skew_ms ≤ ts
      → lookup (id, nonce) (prune_lapsed now inner).seen_nonces ≡ some ts
  unfolding prune_lapsed
  prune_lapsed-keeps now ts id nonce inner u seen recent =
      lookup-retain _ (id, nonce) inner.seen_nonces u ∙ rw (seen, le→leb _ _ recent) refl

  prune_silent-keeps :
      (retention now ts : ℕ) (id nonce : Text) (inner : RelayInner Key)
      → IsUnique inner.seen_nonces
      → lookup (id, nonce) inner.seen_nonces ≡ some ts
      → contains_key id (prune_silent retention now inner).daemons ≡ true
      → lookup (id, nonce) (prune_silent retention now inner).seen_nonces ≡ some ts
  unfolding prune_silent
  prune_silent-keeps retention now ts id nonce inner u seen active =
      lookup-retain _ (id, nonce) inner.seen_nonces u ∙ rw (seen, active) refl

  -- Pruning keeps a nonce that is in the window and whose daemon is registered afterwards.
  prune_inner-keeps :
      (now ts : ℕ) (id nonce : Text) (inner : RelayInner Key)
      → IsUnique inner.seen_nonces
      → lookup (id, nonce) inner.seen_nonces ≡ some ts
      → now - clock_skew_ms ≤ ts
      → contains_key id (prune_inner env now inner).daemons ≡ true
      → lookup (id, nonce) (prune_inner env now inner).seen_nonces ≡ some ts
  unfolding prune_inner
  prune_inner-keeps now ts id nonce inner u seen recent active =
      let kept = prune_lapsed-keeps now ts id nonce inner u seen recent in
      let unique : IsUnique (prune_lapsed now inner).seen_nonces =
        unfold prune_lapsed in retain-IsUnique _ inner.seen_nonces u in
      elim (Bool-cases env.prune_stale_daemons) [
        | inr off ↦ rw off kept
        | inl on ↦ rw on (
            prune_silent-keeps env.daemon_retention_ms now ts id nonce (prune_lapsed now inner)
              unique kept (rw on at active))
      ]

  prune_inner-IsUnique :
      (now : ℕ) (inner : RelayInner Key)
      → IsUnique inner.seen_nonces
      → IsUnique (prune_inner env now inner).seen_nonces
  unfolding prune_inner prune_lapsed prune_silent
  prune_inner-IsUnique now inner u =
      let lapsed =
        retain-IsUnique (λ _ ts_ms. leb (now - clock_skew_ms) ts_ms) inner.seen_nonces u in
      elim (Bool-cases env.prune_stale_daemons) [
        | inr off ↦ rw off lapsed
        | inl on ↦ rw on (retain-IsUnique _ _ lapsed)
      ]

  pub maybe_prune-keeps :
      (now ts : ℕ) (id nonce : Text) (s : RelayState Key S C)
      → IsUnique s.inner.seen_nonces
      → lookup (id, nonce) s.inner.seen_nonces ≡ some ts
      → now - clock_skew_ms ≤ ts
      → contains_key id (maybe_prune_expired_relay_state env now s).inner.daemons ≡ true
      → lookup (id, nonce) (maybe_prune_expired_relay_state env now s).inner.seen_nonces ≡ some ts
  maybe_prune-keeps now ts id nonce s u seen recent active = elim (inner-maybe_prune now s) [
    | inl e ↦ ap (λ inner. lookup (id, nonce) inner.seen_nonces) e ∙ seen
    | inr e ↦
        ap (λ inner. lookup (id, nonce) inner.seen_nonces) e
        ∙ prune_inner-keeps now ts id nonce (record s.inner { pruned_at_ms = now }) u seen recent
            (ap (λ inner. contains_key id inner.daemons) (sym e) ∙ active)
  ]

  pub maybe_prune-IsUnique :
      (now : ℕ) (s : RelayState Key S C)
      → IsUnique s.inner.seen_nonces
      → IsUnique (maybe_prune_expired_relay_state env now s).inner.seen_nonces
  maybe_prune-IsUnique now s u = elim (inner-maybe_prune now s) [
    | inl e ↦ subst (λ inner. IsUnique inner.seen_nonces) (sym e) u
    | inr e ↦ subst (λ inner. IsUnique inner.seen_nonces) (sym e) (prune_inner-IsUnique now _ u)
  ]
