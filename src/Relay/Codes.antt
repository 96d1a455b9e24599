-- ===== src/Relay/Codes.antt =====
-- The pairing codes that daemons publish: `publish_pairing_code` and `resolve_pairing_code`.
use shelly.Prelude.{
  ℕ, ◌/◌, Bool, true, false, not, ◌&&◌, ltb, leb, none, some, List, [], ◌∷◌, Text, text_eq,
  text_beq, Eq, Result, ok, err, if◌then◌else◌,
}
use shelly.Prelude.Io.{◌>>=◌, ◌>>◌, pure, require, modify, failing_with}
use shelly.Prelude.Dict.{Dict, lookup, insert, remove}
use shelly.Code.{normalize_code}
use shelly.Relay.State.{
  Env, RelayState, RelayInner, PairingRendezvous, PairingRecord, legacy_ticket, reachability,
  PairingCodeEntry, ApiError, bad_request, invalid_json, legacy_format, already_expired, not_found,
  not_found_code, internal, resolve_rate_limited, resolve_rate_limits, resolve_attempts_per_minute,
  bump,
}
use shelly.Relay.Steps.{Relay, with_inner, count, stored, logged, limit}
use shelly.Relay.Checks.{
  ok_or, is_valid_legacy_code, is_valid_pairing_locator, validate_rendezvous, client_identifier,
}
use shelly.Relay.Verifying.{verify_signed_request}
use shelly.Relay.Daemons.{Http, signed}

pub record PublishLegacyPairingCodeRequest : Type 0 where
  pub daemon_node_id : Text
  pub code : Text
  pub ticket_blob : Text
  pub expires_at_ms : ℕ
  pub nonce : Text
  pub ts_ms : ℕ

pub record PublishPairingRendezvousRequest : Type 0 where
  pub daemon_node_id : Text
  pub locator : Text
  pub rendezvous : PairingRendezvous
  pub nonce : Text
  pub ts_ms : ℕ

pub data PublishPairingRequest : Type 0 where
  legacy : PublishLegacyPairingCodeRequest → PublishPairingRequest
  by_locator : PublishPairingRendezvousRequest → PublishPairingRequest

-- The daemon, the nonce and the time that were signed.
unfoldable pub signer : PublishPairingRequest → Text × Text × ℕ
signer (legacy request) = (request.daemon_node_id, request.nonce, request.ts_ms)
signer (by_locator request) = (request.daemon_node_id, request.nonce, request.ts_ms)

-- The key of the entry, and the entry.
unfoldable pub entry_of : PublishPairingRequest → Result ApiError (Text × PairingCodeEntry)
unfolding validate_rendezvous is_valid_legacy_code
entry_of (legacy request) =
    let code = normalize_code request.code in
    let entry : PairingCodeEntry = record {
      daemon_node_id = request.daemon_node_id;
      record_of = legacy_ticket request.ticket_blob;
      expires_at_ms = request.expires_at_ms;
    } in
    if is_valid_legacy_code code then ok (code, entry) else err (bad_request legacy_format)
entry_of (by_locator request) =
    let entry : PairingCodeEntry = record {
      daemon_node_id = request.daemon_node_id;
      record_of = reachability request.rendezvous;
      expires_at_ms = request.rendezvous.expires_at;
    } in
    elim (validate_rendezvous request.daemon_node_id request.rendezvous) [
      | err e ↦ err e
      | ok _ ↦ ok (request.locator, entry)
    ]

-- The other codes of a daemon.
unfoldable pub superseded : Text → Text → Dict Text PairingCodeEntry → List Text
superseded daemon_node_id keep [] = []
superseded daemon_node_id keep ((code, entry) ∷ codes) =
    let rest = superseded daemon_node_id keep codes in
    if text_beq entry.daemon_node_id daemon_node_id && not (text_beq code keep)
    then code ∷ rest
    else rest

unfoldable pub remove_all : List Text → Dict Text PairingCodeEntry → Dict Text PairingCodeEntry
remove_all [] codes = codes
remove_all (code ∷ stale) codes = remove_all stale (remove code codes)

-- What is found of a code.
pub data CodeResolution : Type 0 where
  hit : PairingRecord → CodeResolution
  miss : Bool → CodeResolution

-- "/v1/pair/publish"
abbrev pub publish_path : Text
publish_path =
    b'/' ∷ b'v' ∷ b'1' ∷ b'/' ∷ b'p' ∷ b'a' ∷ b'i' ∷ b'r' ∷ b'/' ∷ b'p' ∷ b'u' ∷ b'b' ∷ b'l' ∷ b'i'
    ∷ b's' ∷ b'h' ∷ []

module _ {Key Sig S C : Type 0} ⦃key_eq : Eq Key⦄ (env : Env Key Sig S C) where
  unfoldable pub evict_codes_for_daemon : Text → Text → RelayInner Key → RelayInner Key
  unfolding superseded remove_all
  evict_codes_for_daemon daemon_node_id keep inner = record inner {
    pairing_codes =
        remove_all (superseded daemon_node_id keep inner.pairing_codes) inner.pairing_codes;
  }

  unfoldable pub stored_payload : PairingRecord → Result Text Text
  stored_payload (legacy_ticket ticket_blob) = ok ticket_blob
  stored_payload (reachability rendezvous) = env.encode_rendezvous rendezvous

  unfoldable pub delete_codes : List Text → RelayState Key S C → RelayState Key S C
  unfolding logged
  delete_codes [] s = s
  delete_codes (code ∷ stale) s =
      delete_codes stale (logged env (λ store. store.delete_pairing_code code) s)

  -- The part of `publish_pairing_code` behind the checks.
  unfoldable pub publish_entry : Text → PairingCodeEntry → Relay Key S C (Unit {0})
  unfolding evict_codes_for_daemon stored_payload delete_codes stored
  publish_entry key entry = do
    stale ← (λ s. (
      ok (superseded entry.daemon_node_id key s.inner.pairing_codes),
      with_inner (evict_codes_for_daemon entry.daemon_node_id key) s,
    ))
    payload ← failing_with internal (pure (stored_payload entry.record_of))
    modify (delete_codes stale)
    failing_with internal (
        stored env tt
          (λ store. store.save_pairing_code key entry.daemon_node_id payload entry.expires_at_ms))
    modify (
        with_inner (λ inner. record inner { pairing_codes = insert key entry inner.pairing_codes }))
    modify (
        count (λ metrics. record metrics {
          pairing_code_publishes = bump metrics.pairing_code_publishes;
        }))

  unfoldable pub publish_pairing_code : Http PublishPairingRequest → Relay Key S C (Unit {0})
  unfolding publish_entry entry_of signer signed ok_or
  publish_pairing_code http = do
    request ← pure (ok_or http.parsed (bad_request invalid_json))
    let (daemon_node_id, nonce, ts_ms) = signer request
    verify_signed_request env (http.clock 0) (signed http publish_path daemon_node_id nonce ts_ms)
    (key, entry) ← pure (entry_of request)
    require (ltb (http.clock 1) entry.expires_at_ms) (bad_request already_expired)
    publish_entry key entry

  -- The key that a path names, with one error for a bad format and a missing code.
  unfoldable pub key_of_path : Text → Result ApiError Text
  unfolding is_valid_pairing_locator is_valid_legacy_code
  key_of_path code =
      if is_valid_pairing_locator code
      then ok code
      else if is_valid_legacy_code (normalize_code code)
      then ok (normalize_code code)
      else err (not_found not_found_code)

  -- The look-up drops an entry that has expired.
  unfoldable pub look_up_code : ℕ → Text → Relay Key S C CodeResolution
  look_up_code now key s = elim (lookup key s.inner.pairing_codes) [
    | none ↦ (ok (miss false), s)
    | some entry ↦
        if leb entry.expires_at_ms now
        then (
          ok (miss true),
          with_inner (λ inner. record inner { pairing_codes = remove key inner.pairing_codes }) s,
        )
        else (ok (hit entry.record_of), s)
  ]

  unfoldable pub forget_pairing_code : Text → RelayState Key S C → RelayState Key S C
  unfolding logged
  forget_pairing_code code s =
      logged env (λ store. store.delete_pairing_code code)
        (with_inner (λ inner. record inner { pairing_codes = remove code inner.pairing_codes }) s)

  unfoldable pub answer_resolution : Text → CodeResolution → Relay Key S C PairingRecord
  unfolding forget_pairing_code logged
  answer_resolution key (hit found) = do
    modify (forget_pairing_code key)
    modify (
        count (λ metrics. record metrics {
          pairing_code_resolves = bump metrics.pairing_code_resolves;
        }))
    pure (ok found)
  answer_resolution key (miss true) = do
    modify (logged env (λ store. store.delete_pairing_code key))
    pure (err (not_found not_found_code))
  answer_resolution key (miss false) = pure (err (not_found not_found_code))

  unfoldable pub resolve_pairing_code : Http Text → Text → Relay Key S C PairingRecord
  unfolding key_of_path look_up_code answer_resolution client_identifier limit
  resolve_pairing_code http code = do
    limit env resolve_rate_limits (client_identifier env http.peer_ip http.forwarded)
        (http.clock 0 / 60000) resolve_attempts_per_minute resolve_rate_limited
    key ← pure (key_of_path code)
    resolution ← look_up_code (http.clock 1) key
    answer_resolution key resolution
