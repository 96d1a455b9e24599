-- ===== src/Relay/Signatures.antt =====
-- What is checked of a signed request and of the proof with a registration, without the state's
-- being changed.
use shelly.Prelude.{
  ℕ, Bool, false, Option, none, some, List, Text, Eq, text_eq, text_beq, Result, ok, ◌>>=◌, ◌>>◌,
  guard,
}
use shelly.Prelude.Dict.{lookup}
use shelly.Signing.{
  SignatureVersion, v1, v2, utf8, canonical_request, canonical_request_v2, split_signature_header,
}
use shelly.Relay.State.{
  Env, RelayInner, ApiError, unauthorized, missing_signature, unsupported_version, unknown_daemon,
  bad_signature, wrong_audience, bad_node_id, not_base64, not_a_signature, bad_proof,
}
use shelly.Relay.Checks.{ok_or, decode_signature, registration_proof_binding}

-- `SignedRequestContext`, with the value of the header x-shelly-signature.
pub record SignedRequest : Type 0 where
  pub method : Text
  pub path : Text
  pub body : List ℕ
  pub signature : Option Text
  pub daemon_node_id : Text
  pub nonce : Text
  pub ts_ms : ℕ

-- `RegistrationProof`
pub record RegistrationProof : Type 0 where
  pub audience : Text
  pub nonce : Text
  pub ts_ms : ℕ
  pub signature : Text

unfoldable pub public_key_of : {Key : Type 0} → Text → RelayInner Key → Option Key
public_key_of daemon_node_id inner = elim (lookup daemon_node_id inner.daemons) [
  | none ↦ none
  | some r ↦ some r.public_key
]

module _ {Key Sig S C : Type 0} ⦃key_eq : Eq Key⦄ (env : Env Key Sig S C) where
  abbrev pub same_key : Option Key → Key → Bool
  same_key none key = false
  same_key (some current) key = key_eq.beq current key

  unfoldable pub canonical : SignatureVersion → SignedRequest → List ℕ
  unfolding utf8
  canonical v1 r =
      utf8 (canonical_request r.method r.path (env.from_utf8_lossy r.body) r.nonce r.ts_ms)
  canonical v2 r =
      canonical_request_v2 env.sha256 env.registration_audience r.method r.path r.body r.nonce
        r.ts_ms

  -- `header` is the signature that came with the request.
  unfoldable pub check_header : RelayInner Key → SignedRequest → Option Text → Result ApiError Key
  unfolding canonical decode_signature public_key_of ok_or
  check_header inner request header = do
    signature_header ← ok_or header (unauthorized missing_signature)
    (version, encoded_signature) ←
        ok_or (split_signature_header signature_header) (unauthorized unsupported_version)
    signature ← decode_signature env encoded_signature
    key ← ok_or (public_key_of request.daemon_node_id inner) (unauthorized unknown_daemon)
    guard (env.verify key (canonical version request) signature) (unauthorized bad_signature)
    ok key

  -- The registered key that the request is signed with.
  unfoldable pub check_signature : RelayInner Key → SignedRequest → Result ApiError Key
  unfolding check_header
  check_signature inner request = check_header inner request request.signature

  -- The proof is signed with the key that the daemon's id spells, for this relay.
  unfoldable pub check_proof : Text → Key → RegistrationProof → Result ApiError (Unit {0})
  unfolding registration_proof_binding utf8 ok_or
  check_proof daemon_node_id relay_signing_key proof = do
    guard (text_beq proof.audience env.registration_audience) (unauthorized wrong_audience)
    daemon_key ← ok_or (env.node_key daemon_node_id) (unauthorized bad_node_id)
    bytes ← ok_or (env.decode_base64 proof.signature) (unauthorized not_base64)
    signature ← ok_or (env.node_signature bytes) (unauthorized not_a_signature)
    let binding =
        registration_proof_binding env daemon_node_id relay_signing_key proof.audience proof.nonce
          proof.ts_ms
    guard (env.verify_node daemon_key (utf8 binding) signature) (unauthorized bad_proof)
