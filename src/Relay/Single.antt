-- ===== src/Relay/Single.antt =====
-- The life of a published code: one for each daemon, and one use.
use shelly.Prelude.{
  ◌≡◌, refl, sym, ap, ◌∙◌, inl, inr, Bool, true, false, ◌||◌, none, some, List, [], ◌∷◌, Text, Eq,
  text_eq, text_beq, text_beq_iff, Result, ok, err, map_err, arith, Bool-cases, Option-cases,
  Result-cases,
}
use shelly.Prelude.Io.{continue_with, modify}
use shelly.Prelude.Dict.{
  Dict, lookup, insert, remove, IsUnique, lookup-insert, lookup-insert_self, lookup-remove,
  remove-IsUnique,
}
use shelly.Relay.State.{internal, bump, Env, RelayState, PairingCodeEntry}
use shelly.Relay.Steps.{count, with_inner, logged}
use shelly.Relay.Pruned.{inner-stored}
use shelly.Relay.Codes.{
  superseded, remove_all, evict_codes_for_daemon, stored_payload, delete_codes, publish_entry,
}

text_beq_sym : (a b : Text) → text_beq a b ≡ false → text_beq b a ≡ false
text_beq_sym a b h = ground (arith, h, text_beq_iff a b, text_beq_iff b a)

lookup-remove_all :
    (stale : List Text) (codes : Dict Text PairingCodeEntry) (j : Text) (e : PairingCodeEntry)
    → IsUnique codes
    → lookup j (remove_all stale codes) ≡ some e
    → lookup j codes ≡ some e
unfolding remove_all
lookup-remove_all [] codes j e u h = h
lookup-remove_all (code ∷ stale) codes j e u h =
    let rest = lookup-remove_all stale (remove code codes) j e (remove-IsUnique code codes u) h in
    ground (arith, rest, lookup-remove code j codes u)

holds : Text → List Text → Bool
holds j [] = false
holds j (x ∷ xs) = text_beq x j || holds j xs

lookup-remove_all_held :
    (stale : List Text) (codes : Dict Text PairingCodeEntry) (j : Text)
    → IsUnique codes
    → holds j stale ≡ true
    → lookup j (remove_all stale codes) ≡ none
unfolding remove_all holds
lookup-remove_all_held [] codes j u h = absurd (cc h)
lookup-remove_all_held (code ∷ stale) codes j u h =
    let rest = remove code codes in
    elim (Option-cases (lookup j (remove_all stale rest))) [
      | inl gone ↦ gone
      | inr (e, found) ↦
          let earlier = lookup-remove_all stale rest j e (remove-IsUnique code codes u) found in
          ground (
            arith,
            h,
            earlier,
            lookup-remove code j codes u,
            lookup-remove_all_held stale rest j (remove-IsUnique code codes u),
          )
    ]

superseded-holds :
    (daemon keep : Text) (codes : Dict Text PairingCodeEntry) (j : Text) (e : PairingCodeEntry)
    → lookup j codes ≡ some e
    → text_beq e.daemon_node_id daemon ≡ true
    → text_beq j keep ≡ false
    → holds j (superseded daemon keep codes) ≡ true
unfolding superseded holds lookup
superseded-holds daemon keep [] j e h own other = absurd (cc h)
superseded-holds daemon keep ((code, entry) ∷ codes) j e h own other =
    ground (arith, h, own, other, superseded-holds daemon keep codes j e, text_eq.beq_iff code j)

only_one :
    (key j : Text) (entry found : PairingCodeEntry) (codes : Dict Text PairingCodeEntry)
    → IsUnique codes
    → lookup j (insert key entry (remove_all (superseded entry.daemon_node_id key codes) codes))
      ≡ some found
    → text_beq found.daemon_node_id entry.daemon_node_id ≡ true
    → j ≡ key
only_one key j entry found codes u there own =
    let stale = superseded entry.daemon_node_id key codes in
    let looked = sym (lookup-insert key j entry (remove_all stale codes)) ∙ there in
    elim (Bool-cases (text_beq key j)) [
      | inl same ↦ sym ((text_beq_iff key j).0 same)
      | inr other ↦
          let kept : lookup j (remove_all stale codes) ≡ some found = rw other at looked in
          let before = lookup-remove_all stale codes j found u kept in
          let dropped = lookup-remove_all_held stale codes j u (
            superseded-holds entry.daemon_node_id key codes j found before own
              (text_beq_sym key j other)) in
          absurd (cc (kept, dropped))
    ]

module _ {Key Sig S C : Type 0} ⦃key_eq : Eq Key⦄ (env : Env Key Sig S C) where
  inner-delete_codes :
      (stale : List Text) (s : RelayState Key S C) → (delete_codes env stale s).inner ≡ s.inner
  unfolding delete_codes logged
  inner-delete_codes [] s = refl
  inner-delete_codes (code ∷ stale) s =
      inner-delete_codes stale _ ∙ inner-stored env tt (λ store. store.delete_pairing_code code) s

  saved-eq-ok :
      (r : Result Text (Unit {0}) × RelayState Key S C)
      (change : RelayState Key S C → RelayState Key S C) (s' : RelayState Key S C)
      → continue_with (map_err internal r.0, r.1) (λ _. modify change) ≡ (ok tt, s')
      → s' ≡ change r.1
  saved-eq-ok (ok _, t) change s' h = sym (ap (λ r. r.1) h)
  saved-eq-ok (err e, t) change s' h = absurd (cc (ap (λ r. r.0) h))

  abbrev published : Text → PairingCodeEntry → RelayState Key S C → RelayState Key S C
  published key entry t =
      count
        (λ metrics. record metrics { pairing_code_publishes = bump metrics.pairing_code_publishes })
        (with_inner (λ inner. record inner { pairing_codes = insert key entry inner.pairing_codes })
          t)

  codes-publish_entry :
      (key : Text) (entry : PairingCodeEntry) (s s' : RelayState Key S C)
      → publish_entry env key entry s ≡ (ok tt, s')
      → s'.inner.pairing_codes
        ≡ insert key entry (
            remove_all
              (superseded entry.daemon_node_id key s.inner.pairing_codes)
              s.inner.pairing_codes)
  unfolding publish_entry evict_codes_for_daemon
  codes-publish_entry key entry s s' h = elim (Result-cases (stored_payload env entry.record_of)) [
    | inr (e, bad) ↦ absurd (cc (ap (λ r. r.0) (rw bad at h)))
    | inl (payload, good) ↦
        ap (λ t. t.inner.pairing_codes) (saved-eq-ok _ (published key entry) s' (rw good at h))
        ∙ ap (λ inner. insert key entry inner.pairing_codes)
            (inner-stored env tt
                (λ store.
                  store.save_pairing_code key entry.daemon_node_id payload entry.expires_at_ms)
                _
              ∙ inner-delete_codes (superseded entry.daemon_node_id key s.inner.pairing_codes) _)
  ]

  -- Once a daemon has published an entry, its key gives the entry, and the daemon has no other
  -- code. The map of the codes had one entry for a key.
  pub publish_entry-single :
      (key j : Text) (entry found : PairingCodeEntry) (s s' : RelayState Key S C)
      → IsUnique s.inner.pairing_codes
      → publish_entry env key entry s ≡ (ok tt, s')
      → (lookup key s'.inner.pairing_codes ≡ some entry)
        × (lookup j s'.inner.pairing_codes ≡ some found
            → text_beq found.daemon_node_id entry.daemon_node_id ≡ true
            → j ≡ key)
  publish_entry-single key j entry found s s' u h =
      let codes = codes-publish_entry key entry s s' h in
      (
        ap (lookup key) codes ∙ lookup-insert_self key entry _,
        λ there own.
            only_one key j entry found s.inner.pairing_codes u (ap (lookup j) (sym codes) ∙ there)
              own,
      )
