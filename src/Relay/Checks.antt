-- ===== src/Relay/Checks.antt =====
-- The checks of the handlers that do not change the state.
use shelly.Prelude.{
  ℕ, ◌-◌, Bool, true, false, not, ◌&&◌, ◌||◌, Option, none, some, List, [], ◌∷◌, ◌++◌, Text, ltb,
  leb, ◌==◌, text_beq, text_eq, if◌then◌else◌, length, Eq, Result, ok, err, ◌>>=◌, ◌>>◌, guard,
}
use shelly.Prelude.Dict.{contains_key}
use shelly.Code.{contains, all, is_whitespace, code_alphabet}
use shelly.Signing.{utf8, show_u64}
use shelly.Relay.State.{
  Env, RelayInner, PairingRendezvous, ApiError, bad_request, unauthorized, node_mismatch,
  node_format, relay_url_format, addrs_format, not_base64, not_a_signature, key_length, bad_key,
  legacy_code_len, push_token_ttl_ms,
}

-- `Option::ok_or_else`
unfoldable pub ok_or : {A : Type 0} → Option A → ApiError → Result ApiError A
ok_or none e = err e
ok_or (some a) e = ok a

unfoldable pub is_valid_legacy_code : Text → Bool
is_valid_legacy_code code =
    length code == legacy_code_len && all (λ c. contains c code_alphabet) code

-- The length in bytes: a text with a character over one byte fails the second check.
unfoldable pub is_valid_pairing_locator : Text → Bool
is_valid_pairing_locator locator =
    length (utf8 locator) == 64
    && all (λ c. (leb b'0' c && leb c b'9') || (leb b'a' c && leb c b'f')) (utf8 locator)

unfoldable pub push_token_is_stale : ℕ → ℕ → Bool
push_token_is_stale updated_at_ms now_ms = ltb push_token_ttl_ms (now_ms - updated_at_ms)

unfoldable pub is_ascii : Text → Bool
is_ascii s = all (λ c. ltb c 0x80) s

-- `str::len` of a text
abbrev pub len : Text → ℕ
len s = length (utf8 s)

unfoldable pub any_addr : (Text → Bool) → List Text → Bool
any_addr p [] = false
any_addr p (addr ∷ addrs) = p addr || any_addr p addrs

unfoldable pub validate_rendezvous : Text → PairingRendezvous → Result ApiError (Unit {0})
unfolding is_ascii any_addr
validate_rendezvous daemon_node_id rendezvous = do
  guard (text_beq rendezvous.node_id daemon_node_id) (bad_request node_mismatch)
  guard
      (is_ascii rendezvous.node_id
        && leb 16 (len rendezvous.node_id)
        && leb (len rendezvous.node_id) 128)
      (bad_request node_format)
  guard
      (elim rendezvous.relay_url [
        | none ↦ true
        | some url ↦ not (len url == 0 || ltb 2048 (len url))
      ])
      (bad_request relay_url_format)
  guard
      (not (
        ltb 32 (length rendezvous.addrs)
        || any_addr (λ addr. not (is_ascii addr) || len addr == 0 || ltb 256 (len addr))
            rendezvous.addrs))
      (bad_request addrs_format)

-- Re-registering a known id is always allowed.
unfoldable pub daemon_capacity_exceeded : {Key : Type 0} → RelayInner Key → Text → ℕ → Bool
daemon_capacity_exceeded inner daemon_node_id max_daemons =
    leb max_daemons (length inner.daemons) && not (contains_key daemon_node_id inner.daemons)

unfoldable pub registration_key_changed :
    {Key : Type 0} ⦃key_eq : Eq Key⦄ → Option Key → Option Key → Key → Bool
registration_key_changed none none requested_key = false
registration_key_changed ⦃key_eq⦄ none (some current) requested_key =
    not (key_eq.beq current requested_key)
registration_key_changed ⦃key_eq⦄ (some observed) (some current) requested_key =
    not (key_eq.beq current observed)
registration_key_changed (some observed) none requested_key = true

-- The part behind the last comma (`split(',').next_back()`).
unfoldable pub last_hop : Text → Text
last_hop [] = []
last_hop (c ∷ s) = let rest = last_hop s in if contains b',' (c ∷ s) then rest else c ∷ s

unfoldable pub trim_start : Text → Text
unfolding is_whitespace
trim_start [] = []
trim_start (c ∷ s) = let rest = trim_start s in if is_whitespace c then rest else c ∷ s

unfoldable pub trim_end : Text → Text
unfolding is_whitespace
trim_end [] = []
trim_end (c ∷ s) =
    let rest = trim_end s in if is_whitespace c && length rest == 0 then [] else c ∷ rest

-- `str::trim`
unfoldable pub trim : Text → Text
unfolding trim_start trim_end
trim s = trim_end (trim_start s)

module _ {Key Sig S C : Type 0} (env : Env Key Sig S C) where
  -- `forwarded` is the value of the header x-forwarded-for, where it is a text.
  unfoldable pub client_identifier : Text → Option Text → Text
  unfolding trim last_hop
  client_identifier peer_ip forwarded =
      if env.trust_forwarded_for
      then elim forwarded [
        | none ↦ peer_ip
        | some value ↦
            if length (trim (last_hop value)) == 0 then peer_ip else trim (last_hop value)
      ]
      else peer_ip

  unfoldable pub decode_public_key : Text → Result ApiError Key
  unfolding ok_or
  decode_public_key value = do
    bytes ← ok_or (env.decode_base64 value) (bad_request not_base64)
    guard (length bytes == 32) (bad_request key_length)
    ok_or (env.key_from_bytes bytes) (bad_request bad_key)

  unfoldable pub decode_signature : Text → Result ApiError Sig
  unfolding ok_or
  decode_signature value = do
    bytes ← ok_or (env.decode_base64 value) (unauthorized not_base64)
    ok_or (env.signature_from_slice bytes) (unauthorized not_a_signature)

  -- "shelly-registration-proof-v1", and the parts behind a zero each.
  unfoldable pub registration_proof_binding : Text → Key → Text → Text → ℕ → Text
  unfolding show_u64
  registration_proof_binding daemon_node_id relay_signing_key audience nonce ts_ms =
      b's' ∷ b'h' ∷ b'e' ∷ b'l' ∷ b'l' ∷ b'y' ∷ b'-' ∷ b'r' ∷ b'e' ∷ b'g' ∷ b'i' ∷ b's' ∷ b't'
        ∷ b'r' ∷ b'a' ∷ b't' ∷ b'i' ∷ b'o' ∷ b'n' ∷ b'-' ∷ b'p' ∷ b'r' ∷ b'o' ∷ b'o' ∷ b'f' ∷ b'-'
        ∷ b'v' ∷ b'1' ∷ 0 ∷ daemon_node_id
      ++ 0 ∷ env.encode_base64 (env.key_to_bytes relay_signing_key)
      ++ 0 ∷ audience
      ++ 0 ∷ nonce
      ++ 0 ∷ show_u64 ts_ms
