-- ===== src/Relay/Signers.antt =====
-- What the check of a signature establishes.
use shelly.Prelude.{
  ◌≡◌, refl, ap, sym, ◌∙◌, true, Option, none, some, Text, Eq, text_eq, ok, inl, inr, Option-cases,
  Result-cases, Bool-cases,
}
use shelly.Signing.{SignatureVersion, split_signature_header}
use shelly.Relay.State.{Env, RelayInner}
use shelly.Relay.Checks.{ok_or, decode_signature}
use shelly.Relay.Signatures.{SignedRequest, public_key_of, canonical, check_header, check_signature}

module _ {Key Sig S C : Type 0} ⦃key_eq : Eq Key⦄ (env : Env Key Sig S C) where
  -- The request bears a signature of its canonical bytes, and the daemon's registered key is the one
  -- that verifies it.
  pub record IsSignedBy (inner : RelayInner Key) (request : SignedRequest) (key : Key)
      : Type 0 where
    pub header : Text
    pub version : SignatureVersion
    pub encoded_signature : Text
    pub signature : Sig
    pub has_header : request.signature ≡ some header
    pub splits : split_signature_header header ≡ some (version, encoded_signature)
    pub decodes : decode_signature env encoded_signature ≡ ok signature
    pub registered : public_key_of request.daemon_node_id inner ≡ some key
    pub verifies : env.verify key (canonical env version request) signature ≡ true

  check_header-eq-ok :
      (inner : RelayInner Key) (request : SignedRequest) (key : Key) (sent : Option Text)
      → request.signature ≡ sent
      → check_header env inner request sent ≡ ok key
      → IsSignedBy inner request key
  unfolding check_header ok_or
  check_header-eq-ok inner request key none missing h = absurd (cc h)
  check_header-eq-ok inner request key (some header) has_header h =
      elim (Option-cases (split_signature_header header)) [
        | inl unsupported ↦ absurd (cc (rw unsupported at h))
        | inr ((version, encoded), splits) ↦ elim (Result-cases (decode_signature env encoded)) [
          | inr (e, malformed) ↦ absurd (cc (rw (splits, malformed) at h))
          | inl (signature, decodes) ↦
              elim (Option-cases (public_key_of request.daemon_node_id inner)) [
                | inl unknown ↦ absurd (cc (rw (splits, decodes, unknown) at h))
                | inr (k, registered) ↦
                    elim (Bool-cases (env.verify k (canonical env version request) signature)) [
                      | inr bad ↦ absurd (cc (rw (splits, decodes, registered, bad) at h))
                      | inl verifies ↦
                          let same : k ≡ key =
                            cc (rw (splits, decodes, registered, verifies) at h) in
                          record {
                            header = header;
                            version = version;
                            encoded_signature = encoded;
                            signature = signature;
                            has_header = has_header;
                            splits = splits;
                            decodes = decodes;
                            registered = registered ∙ ap some same;
                            verifies = rw (sym same) verifies;
                          }
                    ]
              ]
        ]
      ]

  -- A request passes the check only with a valid signature under the daemon's registered key.
  pub check_signature-eq-ok :
      (inner : RelayInner Key) (request : SignedRequest) (key : Key)
      → check_signature env inner request ≡ ok key
      → IsSignedBy inner request key
  unfolding check_signature
  check_signature-eq-ok inner request key h =
      check_header-eq-ok inner request key request.signature refl h
