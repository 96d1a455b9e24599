-- ===== src/Relay/Replay.antt =====
-- Signed requests: what is known where one is accepted, and that none is accepted twice.
use shelly.Prelude.{
  ℕ, ◌-◌, ◌≤◌, ◌≡◌, ◌≢◌, refl, sym, ap, ◌∙◌, subst, Bool, true, false, some, Text, Eq, text_eq,
  Result, map_err, ok, err, arith, leb, leb→le, if◌then◌else◌, Bool-cases, Option-cases,
  Result-cases, inl, inr,
}
use shelly.Prelude.Io.{continue_with, ◌>>=◌, ◌>>◌, pure, require, modify, failing_with}
use shelly.Prelude.Dict.{
  lookup, insert, contains_key, IsUnique, lookup-insert_self, insert-IsUnique,
}
use shelly.Relay.State.{
  ApiError, Env, RelayState, RelayInner, replay, internal, unauthorized, key_changed, clock_skew_ms,
  pair_eq,
}
use shelly.Relay.Signers.{check_signature-eq-ok}
use shelly.Relay.Steps.{Relay, with_inner, stored}
use shelly.Relay.Signatures.{SignedRequest, public_key_of, same_key, check_signature}
use shelly.Relay.Pruned.{inner-stored, maybe_prune-keeps, maybe_prune-IsUnique}
use shelly.Relay.Pruning.{maybe_prune_expired_relay_state}
use shelly.Relay.Verifying.{
  abs_diff, remember_nonce, touch_daemon, verify_signed_request,
  verify_signed_request_with_pre_nonce_check,
}

module _ {Key Sig S C : Type 0} ⦃key_eq : Eq Key⦄ (env : Env Key Sig S C) where
  -- What is known where a request is accepted: `p` is the state behind the pruning.
  pub record Accepted (now : ℕ) (request : SignedRequest) (s s' : RelayState Key S C) : Type 0 where
    pub in_window : abs_diff now request.ts_ms ≤ clock_skew_ms
    pub key : Key
    pub by_key :
        check_signature env (maybe_prune_expired_relay_state env now s).inner request ≡ ok key
    pub fresh :
        contains_key
          (request.daemon_node_id, request.nonce)
          (maybe_prune_expired_relay_state env now s).inner.seen_nonces
        ≡ false
    pub inner_after :
        s'.inner
        ≡ touch_daemon env request.daemon_node_id key now
            (record (maybe_prune_expired_relay_state env now s).inner {
              seen_nonces =
                  insert
                    (request.daemon_node_id, request.nonce)
                    request.ts_ms
                    (maybe_prune_expired_relay_state env now s).inner.seen_nonces;
            })

  -- The part of the check behind the signature.
  verify_behind : ℕ → SignedRequest → Key → Relay Key S C (Unit {0})
  unfolding public_key_of
  verify_behind now request key = do
    (λ s. (
      if same_key env (public_key_of request.daemon_node_id s.inner) key
          then ok tt
          else err (unauthorized key_changed),
      s,
    ))
    pure (ok tt)
    remember_nonce env request.daemon_node_id request.nonce request.ts_ms
    inserted ← failing_with internal (
        stored env true (λ store.
          store.record_authenticated_activity request.daemon_node_id request.nonce request.ts_ms
            now))
    require inserted replay
    modify (with_inner (touch_daemon env request.daemon_node_id key now))

  inserted-eq-ok :
      (r : Result Text Bool × RelayState Key S C) (change : RelayState Key S C → RelayState Key S C)
      (s' : RelayState Key S C)
      → continue_with
          (map_err internal r.0, r.1)
          (λ inserted. require inserted replay >> modify change)
        ≡ (ok tt, s')
      → s' ≡ change r.1
  inserted-eq-ok (ok true, t) change s' h = sym (ap (λ r. r.1) h)
  inserted-eq-ok (ok false, t) change s' h = absurd (cc (ap (λ r. r.0) h))
  inserted-eq-ok (err e, t) change s' h = absurd (cc (ap (λ r. r.0) h))

  abbrev remembered : SignedRequest → RelayState Key S C → RelayState Key S C
  remembered request p =
      with_inner
        (λ inner. record inner {
          seen_nonces =
              insert (request.daemon_node_id, request.nonce) request.ts_ms inner.seen_nonces;
        })
        p

  verified_by :
      (now : ℕ) (request : SignedRequest) (key : Key) (p s' : RelayState Key S C)
      → verify_behind now request key p ≡ (ok tt, s')
      → (contains_key (request.daemon_node_id, request.nonce) p.inner.seen_nonces ≡ false)
        × (s'.inner
            ≡ touch_daemon env request.daemon_node_id key now (record p.inner {
              seen_nonces =
                  insert (request.daemon_node_id, request.nonce) request.ts_ms p.inner.seen_nonces;
            }))
  unfolding verify_behind remember_nonce
  verified_by now request key p s' h =
      elim (Bool-cases (same_key env (public_key_of request.daemon_node_id p.inner) key)) [
        | inr other_key ↦ absurd (cc (ap (λ r. r.0) (rw other_key at h)))
        | inl current ↦
            elim (Bool-cases
              (contains_key (request.daemon_node_id, request.nonce) p.inner.seen_nonces)) [
                | inl seen ↦ absurd (cc (ap (λ r. r.0) (rw (current, seen) at h)))
                | inr fresh ↦ (
                  fresh,
                  ap (λ t. t.inner)
                        (inserted-eq-ok _
                          (with_inner (touch_daemon env request.daemon_node_id key now)) s'
                          (rw (current, fresh) at h))
                      ∙ ap (touch_daemon env request.daemon_node_id key now)
                          (inner-stored env true _ (remembered request p)),
                )
              ]
      ]

  pub verify_signed_request-eq-ok :
      (now : ℕ) (request : SignedRequest) (s s' : RelayState Key S C)
      → verify_signed_request env now request s ≡ (ok tt, s')
      → Accepted now request s s'
  unfolding verify_signed_request verify_signed_request_with_pre_nonce_check remember_nonce
  verify_signed_request-eq-ok now request s s' h =
      elim (Bool-cases (leb (abs_diff now request.ts_ms) clock_skew_ms)) [
        | inr late ↦ absurd (cc (ap (λ r. r.0) (rw late at h)))
        | inl early ↦
            elim (Result-cases
              (check_signature env (maybe_prune_expired_relay_state env now s).inner request)) [
                | inr (e, refused) ↦ absurd (cc (ap (λ r. r.0) (rw (early, refused) at h)))
                | inl (key, by_key) ↦
                    let fine =
                      verified_by now request key (maybe_prune_expired_relay_state env now s) s'
                        (unfold verify_behind in rw (early, by_key) at h) in
                    record {
                      in_window = leb→le _ _ early;
                      key = key;
                      by_key = by_key;
                      fresh = fine.0;
                      inner_after = fine.1;
                    }
              ]
      ]

  abs_diff-le : (a b : ℕ) → abs_diff a b ≤ clock_skew_ms → a - clock_skew_ms ≤ b
  abs_diff-le a b h = ground arith

  active_key :
      (id : Text) (inner : RelayInner Key) (key : Key)
      → public_key_of id inner ≡ some key
      → contains_key id inner.daemons ≡ true
  unfolding public_key_of
  active_key id inner key h = elim (Option-cases (lookup id inner.daemons)) [
    | inl unknown ↦ absurd (cc (rw (public_key_of, unknown) at h))
    | inr (r, known) ↦ rw known refl
  ]

  seen_nonces-touch_daemon :
      (id : Text) (key : Key) (now : ℕ) (inner : RelayInner Key)
      → (touch_daemon env id key now inner).seen_nonces ≡ inner.seen_nonces
  unfolding touch_daemon
  seen_nonces-touch_daemon id key now inner = elim (Option-cases (lookup id inner.daemons)) [
    | inl unknown ↦ rw (touch_daemon, unknown) refl
    | inr (r, known) ↦ elim (Bool-cases (key_eq.beq r.public_key key)) [
      | inl same ↦ rw (touch_daemon, known, same) refl
      | inr other ↦ rw (touch_daemon, known, other) refl
    ]
  ]

  not_fresh :
      {now later : ℕ} {request again : SignedRequest} {s s' t : RelayState Key S C}
      → IsUnique s.inner.seen_nonces
      → Accepted now request s s'
      → Accepted later again s' t
      → again.daemon_node_id ≡ request.daemon_node_id
      → again.nonce ≡ request.nonce
      → again.ts_ms ≡ request.ts_ms
      → ⊥
  not_fresh {now} {later} {request} {again} {s} {s'} u known state same_daemon same_nonce
        same_time =
      let nonces =
        ap (λ inner. inner.seen_nonces) known.inner_after
        ∙ seen_nonces-touch_daemon request.daemon_node_id known.key now _ in
      let u' =
        subst (λ seen. IsUnique seen) (sym nonces)
          (insert-IsUnique (request.daemon_node_id, request.nonce) request.ts_ms _
            (maybe_prune-IsUnique env now s u)) in
      let seen : lookup (request.daemon_node_id, request.nonce) s'.inner.seen_nonces
          ≡ some request.ts_ms =
        ap (lookup (request.daemon_node_id, request.nonce)) nonces
        ∙ lookup-insert_self (request.daemon_node_id, request.nonce) request.ts_ms _ in
      let active =
        active_key again.daemon_node_id _ state.key
          (check_signature-eq-ok env _ again state.key state.by_key).registered in
      let kept =
        maybe_prune-keeps env later again.ts_ms again.daemon_node_id again.nonce s' u'
          (rw (same_daemon, same_nonce, same_time) seen)
          (abs_diff-le later again.ts_ms state.in_window) active in
      cc (rw kept at state.fresh)

  pair_of : (r : Result ApiError (Unit {0}) × RelayState Key S C) → r.0 ≡ ok tt → r ≡ (ok tt, r.1)
  pair_of r h = ap (λ a. (a, r.1)) h

  -- Of two requests in a row with the same daemon, nonce and time at most one is accepted: where
  -- the first is, the second is refused, at whatever time it comes, whether or not the relay
  -- prunes its state first. The map of the nonces has one entry for a key.
  pub verify_signed_request_once :
      (now later : ℕ) (request again : SignedRequest) (s s' : RelayState Key S C)
      → IsUnique s.inner.seen_nonces
      → verify_signed_request env now request s ≡ (ok tt, s')
      → again.daemon_node_id ≡ request.daemon_node_id
      → again.nonce ≡ request.nonce
      → again.ts_ms ≡ request.ts_ms
      → (verify_signed_request env later again s').0 ≢ ok tt
  verify_signed_request_once now later request again s s' u first same_daemon same_nonce same_time
        second =
      let known = verify_signed_request-eq-ok now request s s' first in
      let state =
        verify_signed_request-eq-ok later again s' (verify_signed_request env later again s').1
          (pair_of _ second) in
      not_fresh u known state same_daemon same_nonce same_time
