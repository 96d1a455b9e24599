-- ===== src/Relay/Cap.antt =====
-- The cap on the push tokens of a daemon.
use shelly.Prelude.{
  ℕ, ◌+◌, ◌≤◌, ◌≡◌, refl, sym, ap, ◌∙◌, ◌⊎◌, true, false, none, some, Text, Eq, text_eq, text_beq,
  Result, ok, err, map_err, length, inl, inr, Option-cases, Result-cases,
}
use shelly.Prelude.Io.{continue_with, modify}
use shelly.Prelude.Dict.{lookup, insert, remove, IsUnique}
use shelly.Relay.State.{
  ApiError, Env, RelayState, TokenOwner, internal, bump, max_tokens_per_daemon,
}
use shelly.Relay.Steps.{with_inner, count, stored}
use shelly.Relay.Pruned.{inner-stored}
use shelly.Relay.Tokens.{
  RegisterTokenRequest, owned, token_evicted_by_cap, remove_push_token_binding, evict_over_cap,
  bind_token,
}
use shelly.Relay.Held.{length-owned_moved, known_kept, text_beq_self, capped_none, capped_some}

module _ {Key Sig S C : Type 0} ⦃key_eq : Eq Key⦄ (env : Env Key Sig S C) where
  abbrev owner_of : ℕ → RegisterTokenRequest → TokenOwner
  owner_of now request = record {
    daemon_node_id = request.daemon_node_id;
    platform = request.platform;
    updated_at_ms = now;
  }

  abbrev bound : ℕ → RegisterTokenRequest → RelayState Key S C → RelayState Key S C
  bound now request t =
      count (λ metrics. record metrics { token_registrations = bump metrics.token_registrations })
        (with_inner
          (λ inner. record inner {
            tokens = insert request.push_token (owner_of now request) inner.tokens;
          })
          t)

  saved-eq-ok :
      (r : Result Text (Unit {0}) × RelayState Key S C)
      (change : RelayState Key S C → RelayState Key S C) (s' : RelayState Key S C)
      → continue_with (map_err internal r.0, r.1) (λ _. modify change) ≡ (ok tt, s')
      → s' ≡ change r.1
  saved-eq-ok (ok _, t) change s' h = sym (ap (λ r. r.1) h)
  saved-eq-ok (err e, t) change s' h = absurd (cc (ap (λ r. r.0) h))

  tokens-bind_token-none :
      (now : ℕ) (request : RegisterTokenRequest) (s s' : RelayState Key S C)
      → token_evicted_by_cap s.inner.tokens request.daemon_node_id request.push_token ≡ none
      → bind_token env now request s ≡ (ok tt, s')
      → s'.inner.tokens ≡ insert request.push_token (owner_of now request) s.inner.tokens
  unfolding bind_token evict_over_cap
  tokens-bind_token-none now request s s' kept h =
      ap (λ t. t.inner.tokens)
        (saved-eq-ok _ (bound now request) s' (rw (evict_over_cap, kept) at h))
      ∙ ap (λ inner. insert request.push_token (owner_of now request) inner.tokens)
          (inner-stored env tt
            (λ store.
              store.save_token request.push_token request.daemon_node_id request.platform now)
            s)

  -- A token that another daemon holds is taken over without an eviction: the daemon that registers it
  -- holds one token more than before, also where it held as many as the cap allows.
  pub bind_token_taken_over :
      (now : ℕ) (request : RegisterTokenRequest) (before : TokenOwner) (s s' : RelayState Key S C)
      → lookup request.push_token s.inner.tokens ≡ some before
      → text_beq before.daemon_node_id request.daemon_node_id ≡ false
      → bind_token env now request s ≡ (ok tt, s')
      → length (owned request.daemon_node_id s'.inner.tokens)
        ≡ length (owned request.daemon_node_id s.inner.tokens) + 1
  bind_token_taken_over now request before s s' known other h =
      let kept = known_kept request.daemon_node_id request.push_token before s.inner.tokens known in
      ap (λ tokens. length (owned request.daemon_node_id tokens))
        (tokens-bind_token-none now request s s' kept h)
      ∙ length-owned_moved request.daemon_node_id request.push_token (owner_of now request) before
          s.inner.tokens known other (text_beq_self request.daemon_node_id)

  remove_binding-cases :
      (token : Text) (s : RelayState Key S C)
      → ((u : RelayState Key S C) × (remove_push_token_binding env token s ≡ (ok tt, u))
          × (u.inner.tokens ≡ remove token s.inner.tokens))
        ⊎ ((e : ApiError) × (u : RelayState Key S C) × (remove_push_token_binding env token s
              ≡ (err e, u)))
  unfolding remove_push_token_binding
  remove_binding-cases token s =
      elim (Result-cases (stored env tt (λ store. store.remove_token token) s).0) [
        | inr (e, failed) ↦
            let refused : (remove_push_token_binding env token s).0 ≡ err (internal e) =
              rw failed refl in
            inr (internal e, _, ap (λ a. (a, (remove_push_token_binding env token s).1)) refused)
        | inl (_, fine) ↦
            let removed : (remove_push_token_binding env token s).0 ≡ ok tt = rw fine refl in
            let left : (remove_push_token_binding env token s).1.inner.tokens
                ≡ remove token s.inner.tokens =
              rw fine (
                ap (λ inner. remove token inner.tokens)
                  (inner-stored env tt (λ store. store.remove_token token) s)) in
            inl (_, ap (λ a. (a, (remove_push_token_binding env token s).1)) removed, left)
      ]

  tokens-bind_token-some :
      (now : ℕ) (request : RegisterTokenRequest) (evicted : Text) (s s' : RelayState Key S C)
      → token_evicted_by_cap s.inner.tokens request.daemon_node_id request.push_token ≡ some evicted
      → bind_token env now request s ≡ (ok tt, s')
      → s'.inner.tokens
        ≡ insert request.push_token (owner_of now request) (remove evicted s.inner.tokens)
  unfolding bind_token evict_over_cap
  tokens-bind_token-some now request evicted s s' out h = elim (remove_binding-cases evicted s) [
    | inr (e, u, failed) ↦ absurd (cc (ap (λ r. r.0) (rw (evict_over_cap, out, failed) at h)))
    | inl (u, fine, removed) ↦
        ap (λ t. t.inner.tokens)
          (saved-eq-ok _ (bound now request) s' (rw (evict_over_cap, out, fine) at h))
        ∙ ap (λ inner. insert request.push_token (owner_of now request) inner.tokens)
            (inner-stored env tt
              (λ store.
                store.save_token request.push_token request.daemon_node_id request.platform now)
              u)
        ∙ ap (insert request.push_token (owner_of now request)) removed
  ]

  -- Registering a token that is new to the relay, or that the daemon holds already, keeps every
  -- daemon within the cap. The map of the tokens had one entry for a key.
  pub bind_token-capped :
      (now : ℕ) (request : RegisterTokenRequest) (s s' : RelayState Key S C) (d : Text)
      → IsUnique s.inner.tokens
      → ((before : TokenOwner)
          → lookup request.push_token s.inner.tokens ≡ some before
          → text_beq before.daemon_node_id request.daemon_node_id ≡ true)
      → length (owned d s.inner.tokens) ≤ max_tokens_per_daemon
      → bind_token env now request s ≡ (ok tt, s')
      → length (owned d s'.inner.tokens) ≤ max_tokens_per_daemon
  bind_token-capped now request s s' d u mine within h =
      elim (Option-cases
        (token_evicted_by_cap s.inner.tokens request.daemon_node_id request.push_token)) [
          | inl kept ↦ rw (tokens-bind_token-none now request s s' kept h) (
              capped_none d request.push_token (owner_of now request) s.inner.tokens mine kept
                within)
          | inr (evicted, out) ↦ rw (tokens-bind_token-some now request evicted s s' out h) (
              capped_some d request.push_token evicted (owner_of now request) s.inner.tokens u out
                within)
        ]
