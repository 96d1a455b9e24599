-- ===== src/Relay/Bound.antt =====
-- What a signature of version 2 binds a request to.
use shelly.Prelude.{ℕ, ◌<◌, ◌^◌, ◌≡◌, sym, ap, ◌∙◌, true, some, List, Text, Eq, text_eq, ok, All}
use shelly.Signing.{v2, utf8, fields, split_signature_header}
use shelly.Signing.Canonical.{Short, canonical_request_v2_injective}
use shelly.Relay.State.{Env, RelayInner}
use shelly.Relay.Checks.{decode_signature}
use shelly.Relay.Signatures.{SignedRequest, canonical, check_signature}
use shelly.Relay.Signers.{IsSignedBy, check_signature-eq-ok}

module _ {Key Sig S C : Type 0} ⦃key_eq : Eq Key⦄ (env : Env Key Sig S C) where
  -- A signature does not verify two texts under the key, as with Ed25519 where SHA-512 does not collide.
  abbrev pub SignsOne : Key → Type 0
  SignsOne key =
      (a b : List ℕ) (signature : Sig)
      → env.verify key a signature ≡ true
      → env.verify key b signature ≡ true
      → a ≡ b

  -- Each field of the request is counted in 64 bits, and so is its time.
  abbrev pub IsCounted : SignedRequest → Type 0
  IsCounted r =
      All Short (fields env.sha256 env.registration_audience r.method r.path r.body r.nonce r.ts_ms)
      × (r.ts_ms < 2 ^ 64)

  -- The bytes of version 2 verify, where the header says that version.
  IsSignedBy-v2 :
      (inner : RelayInner Key) (request : SignedRequest) (key : Key) (header encoded : Text)
      → request.signature ≡ some header
      → split_signature_header header ≡ some (v2, encoded)
      → IsSignedBy env inner request key
      → (signature : Sig) × (decode_signature env encoded ≡ ok signature)
        × (env.verify key (canonical env v2 request) signature ≡ true)
  IsSignedBy-v2 inner request key header encoded has splits signed =
      let same_header : signed.header ≡ header = cc (sym signed.has_header ∙ has) in
      let same : some (signed.version, signed.encoded_signature) ≡ some (v2, encoded) =
        sym signed.splits ∙ (ap split_signature_header same_header ∙ splits) in
      let same_version : signed.version ≡ v2 = cc same in
      let same_encoded : signed.encoded_signature ≡ encoded = cc same in
      (
        signed.signature,
        sym (ap (decode_signature env) same_encoded) ∙ signed.decodes,
        sym (ap (λ v. env.verify key (canonical env v request) signed.signature) same_version)
            ∙ signed.verifies,
      )

  -- A signature of version 2 holds for one request only: two requests that bear the same header and
  -- both pass the check under the same key have the same method, path, digest of the body, nonce and
  -- time. A signature does not verify two texts under that key, and the fields are counted in 64 bits.
  pub check_signature_binds :
      (inner inner' : RelayInner Key) (first second : SignedRequest) (key : Key)
      (header encoded : Text)
      → SignsOne key
      → first.signature ≡ some header
      → second.signature ≡ some header
      → split_signature_header header ≡ some (v2, encoded)
      → IsCounted first
      → IsCounted second
      → check_signature env inner first ≡ ok key
      → check_signature env inner' second ≡ ok key
      → (utf8 first.method ≡ utf8 second.method)
        × (utf8 first.path ≡ utf8 second.path)
        × (env.sha256 first.body ≡ env.sha256 second.body)
        × (utf8 first.nonce ≡ utf8 second.nonce)
        × (first.ts_ms ≡ second.ts_ms)
  unfolding canonical
  check_signature_binds inner inner' first second key header encoded one has has' splits counted
        counted' passes passes' =
      let (s, decodes, verifies) =
        IsSignedBy-v2 inner first key header encoded has splits
          (check_signature-eq-ok env inner first key passes) in
      let (s', decodes', verifies') =
        IsSignedBy-v2 inner' second key header encoded has' splits
          (check_signature-eq-ok env inner' second key passes') in
      let same : s ≡ s' = cc (sym decodes ∙ decodes') in
      let bytes =
        one (canonical env v2 first) (canonical env v2 second) s' (rw same at verifies) verifies' in
      let (audience, method, path, body, nonce, ts) =
        canonical_request_v2_injective env.sha256 env.registration_audience
          env.registration_audience first.method second.method first.path second.path first.nonce
          second.nonce first.body second.body first.ts_ms second.ts_ms counted.0 counted'.0
          counted.1 counted'.1 bytes in
      (method, path, body, nonce, ts)
