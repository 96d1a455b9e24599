-- ===== src/Relay/Resolved.antt =====
-- A published code is resolved once.
use shelly.Prelude.{
  ℕ, ◌/◌, ◌≡◌, ◌≢◌, refl, sym, ap, ◌∙◌, subst, ◌⊎◌, inl, inr, none, Text, Eq, text_eq, Result, ok,
  err, leb, Bool-cases, Option-cases,
}
use shelly.Prelude.Dict.{lookup, remove, IsUnique, lookup-remove, beq_refl}
use shelly.Relay.State.{
  Env, RelayState, PairingRecord, ApiError, Limiter, resolve_rate_limits,
  resolve_attempts_per_minute, resolve_rate_limited,
}
use shelly.Relay.Steps.{with_inner, logged, limit}
use shelly.Relay.Checks.{client_identifier}
use shelly.Relay.Pruned.{inner-stored}
use shelly.Relay.Daemons.{Http}
use shelly.Relay.Codes.{
  key_of_path, look_up_code, forget_pairing_code, answer_resolution, resolve_pairing_code,
}

module _ {Key Sig S C : Type 0} ⦃key_eq : Eq Key⦄ (env : Env Key Sig S C) where
  limit-cases :
      (limiter : Limiter) (client : Text) (minute most : ℕ) (refusal : ApiError)
      (s : RelayState Key S C)
      → ((t : RelayState Key S C) × (limit env limiter client minute most refusal s ≡ (ok tt, t))
          × (t.inner ≡ s.inner))
        ⊎ ((t : RelayState Key S C) × (limit env limiter client minute most refusal s
              ≡ (err refusal, t)))
  unfolding limit
  limit-cases limiter client minute most refusal s =
      let counted = env.increment limiter client minute s.limits in
      elim (Bool-cases (leb counted.0 most)) [
        | inl fine ↦ inl (record s { limits = counted.1 }, rw fine refl, refl)
        | inr over ↦ inr (record s { limits = counted.1 }, rw over refl)
      ]

  resolve_limit :
      (http : Http Text) (s : RelayState Key S C)
      → ((t : RelayState Key S C) × (limit env resolve_rate_limits
              (client_identifier env http.peer_ip http.forwarded)
              (http.clock 0 / 60000)
              resolve_attempts_per_minute
              resolve_rate_limited
              s
            ≡ (ok tt, t))
          × (t.inner ≡ s.inner))
        ⊎ ((t : RelayState Key S C) × (limit env resolve_rate_limits
                (client_identifier env http.peer_ip http.forwarded)
                (http.clock 0 / 60000)
                resolve_attempts_per_minute
                resolve_rate_limited
                s
              ≡ (err resolve_rate_limited, t)))
  resolve_limit http s = limit-cases resolve_rate_limits _ _ _ _ s

  forgotten :
      (key : Text) (t : RelayState Key S C)
      → IsUnique t.inner.pairing_codes
      → lookup key (forget_pairing_code env key t).inner.pairing_codes ≡ none
  unfolding forget_pairing_code logged
  forgotten key t u =
      ap (λ inner. lookup key inner.pairing_codes)
        (inner-stored env tt (λ store. store.delete_pairing_code key)
          (with_inner (λ inner. record inner { pairing_codes = remove key inner.pairing_codes }) t))
      ∙ lookup-remove key key t.inner.pairing_codes u
      ∙ rw (beq_refl key) refl

  resolve_used :
      (http : Http Text) (code key : Text) (found : PairingRecord) (s s' : RelayState Key S C)
      → IsUnique s.inner.pairing_codes
      → key_of_path env code ≡ ok key
      → resolve_pairing_code env http code s ≡ (ok found, s')
      → lookup key s'.inner.pairing_codes ≡ none
  unfolding resolve_pairing_code look_up_code answer_resolution
  resolve_used http code key found s s' u named h = elim (resolve_limit http s) [
    | inr (t, over) ↦ absurd (cc (ap (λ r. r.0) (rw over at h)))
    | inl (t, fine, same) ↦ elim (Option-cases (lookup key t.inner.pairing_codes)) [
      | inl missing ↦ absurd (cc (ap (λ r. r.0) (rw (fine, named, look_up_code, missing) at h)))
      | inr (entry, there) ↦ elim (Bool-cases (leb entry.expires_at_ms (http.clock 1))) [
        | inl late ↦ absurd (cc (ap (λ r. r.0) (rw (fine, named, look_up_code, there, late) at h)))
        | inr early ↦
            ap
              (λ (r : Result ApiError PairingRecord × RelayState Key S C).
                lookup key r.1.inner.pairing_codes)
              (sym (rw (fine, named, look_up_code, there, early) at h))
            ∙ forgotten key t (subst (λ inner. IsUnique inner.pairing_codes) (sym same) u)
      ]
    ]
  ]

  resolve_missing :
      (http : Http Text) (code key : Text) (found : PairingRecord) (s : RelayState Key S C)
      → key_of_path env code ≡ ok key
      → lookup key s.inner.pairing_codes ≡ none
      → (resolve_pairing_code env http code s).0 ≢ ok found
  unfolding resolve_pairing_code look_up_code answer_resolution
  resolve_missing http code key found s named missing h = elim (resolve_limit http s) [
    | inr (t, over) ↦ cc (rw over at h)
    | inl (t, fine, same) ↦
        let gone : lookup key t.inner.pairing_codes ≡ none =
          ap (λ inner. lookup key inner.pairing_codes) same ∙ missing in
        cc (rw (fine, named, look_up_code, gone) at h)
  ]

  -- A code that was resolved is not resolved again by the next request, however either request
  -- spells it and whenever it comes. The map of the codes has one entry for a key.
  pub resolve_pairing_code_once :
      (http again : Http Text) (code code' key : Text) (found other : PairingRecord)
      (s s' : RelayState Key S C)
      → IsUnique s.inner.pairing_codes
      → key_of_path env code ≡ ok key
      → key_of_path env code' ≡ ok key
      → resolve_pairing_code env http code s ≡ (ok found, s')
      → (resolve_pairing_code env again code' s').0 ≢ ok other
  resolve_pairing_code_once http again code code' key found other s s' u named named' first =
      resolve_missing again code' key other s' named'
        (resolve_used http code key found s s' u named first)
