-- ===== src/Persistence/Payload.antt =====
-- What is stored is read again: in the mode in which it was written, in plain text, and after the
-- user has switched the encryption on or off.
use shelly.Prelude.{
  ◌≤◌, ◌≡◌, refl, sym, true, none, some, [], ◌∷◌, ◌++◌, arith, length, Option-cases, Result-cases,
  inl, inr, ok, text_eq,
}
use shelly.Prelude.Dict.{lookup, lookup-insert_self}
use shelly.Signing.{strip_prefix}
use shelly.Persistence.{
  Bytes, Libraries, Persistence, PersistenceMode, encrypted, plaintext, StoredSession, Codec,
  EncryptedBlob, plaintext_prefix, encode_payload, decode_payload, open_blob, decode_encrypted,
  decode_plaintext_payload, decode_session, save_session, save_payload, commit,
}

-- What is encoded decodes to itself.
abbrev pub IsCodec : {A : Type 0} → Codec A → Type 0
IsCodec {A} codec =
    (a : A) (bytes : Bytes) → codec.encode a ≡ some bytes → codec.decode bytes ≡ some a

-- What the libraries document: bincode decodes what it has encoded, and writes an array of a fixed
-- size as its bytes; the cipher decrypts what it has encrypted.
pub record IsLawful (lib : Libraries) : Type 0 where
  pub sessions : IsCodec lib.sessions
  pub devices : IsCodec lib.devices
  pub plaintexts : IsCodec lib.plaintexts
  pub blobs : IsCodec lib.blobs
  pub nonce_first :
      (blob : EncryptedBlob) (bytes : Bytes)
      → lib.blobs.encode blob ≡ some bytes
      → (rest : Bytes) × (bytes ≡ blob.nonce ++ rest)
  pub cipher :
      (key nonce bytes ciphertext : Bytes)
      → lib.encrypt key nonce bytes ≡ some ciphertext
      → lib.decrypt key nonce ciphertext ≡ some bytes

-- The mode `read` has the key of the mode `write`, if there is one.
abbrev pub CanRead : (write read : PersistenceMode) → Type 0
CanRead (plaintext _) read = Unit {0}
CanRead (encrypted key) (encrypted other) = key ≡ other
CanRead (encrypted key) (plaintext (some other)) = key ≡ other
CanRead (encrypted key) (plaintext none) = ⊥

-- A nonce that does not look like the mark of plain text.
abbrev pub IsClear : PersistenceMode → Bytes → Type 0
IsClear (plaintext _) nonce = Unit {0}
IsClear (encrypted key) nonce = (length nonce ≡ 24) × (strip_prefix plaintext_prefix nonce ≡ none)

pub strip_prefix-append : (p s : Bytes) → strip_prefix p (p ++ s) ≡ some s
unfolding strip_prefix
strip_prefix-append [] s = refl
strip_prefix-append (c ∷ p) s = ground (arith, strip_prefix-append p s)

strip_prefix-append_none :
    (p s t : Bytes) → length p ≤ length s → strip_prefix p s ≡ none → strip_prefix p (s ++ t) ≡ none
unfolding strip_prefix
strip_prefix-append_none [] s t h e = absurd (ground arith)
strip_prefix-append_none (c ∷ p) [] t h e = absurd (omega arith)
strip_prefix-append_none (c ∷ p) (d ∷ s) t h e = ground (arith, strip_prefix-append_none p s t)

module _ (lib : Libraries) (law : IsLawful lib) where
  decode_payload_marked :
      (mode : PersistenceMode) (bytes encoded payload : Bytes)
      → strip_prefix plaintext_prefix payload ≡ some encoded
      → lib.plaintexts.encode bytes ≡ some encoded
      → decode_payload lib mode payload ≡ ok bytes
  unfolding decode_payload decode_plaintext_payload strip_prefix
  decode_payload_marked mode bytes encoded payload marked e =
      rw (marked, law.plaintexts bytes encoded e) refl

  decode_encrypted_blob :
      (key : Bytes) (read : PersistenceMode) (nonce bytes ciphertext payload : Bytes)
      → CanRead (encrypted key) read
      → lib.encrypt key nonce bytes ≡ some ciphertext
      → lib.blobs.encode (record { nonce = nonce; ciphertext = ciphertext }) ≡ some payload
      → decode_encrypted lib read payload ≡ ok bytes
  unfolding decode_encrypted open_blob
  decode_encrypted_blob key (encrypted other) nonce bytes ciphertext payload same e f =
      rw (sym same, law.blobs _ payload f, law.cipher key nonce bytes ciphertext e) refl
  decode_encrypted_blob key (plaintext (some other)) nonce bytes ciphertext payload same e f =
      rw (sym same, law.blobs _ payload f, law.cipher key nonce bytes ciphertext e) refl
  decode_encrypted_blob key (plaintext none) nonce bytes ciphertext payload same e f = absurd same

  decode_payload_blob :
      (key : Bytes) (read : PersistenceMode) (nonce bytes ciphertext payload : Bytes)
      → CanRead (encrypted key) read
      → IsClear (encrypted key) nonce
      → lib.encrypt key nonce bytes ≡ some ciphertext
      → lib.blobs.encode (record { nonce = nonce; ciphertext = ciphertext }) ≡ some payload
      → decode_payload lib read payload ≡ ok bytes
  unfolding decode_payload decode_plaintext_payload strip_prefix
  decode_payload_blob key read nonce bytes ciphertext payload same clear e f =
      let (rest, shape) = law.nonce_first _ payload f in
      let unmarked : strip_prefix plaintext_prefix payload ≡ none =
        rw shape
          (strip_prefix-append_none plaintext_prefix nonce rest (omega (arith, clear.0)) clear.1) in
      rw unmarked (decode_encrypted_blob key read nonce bytes ciphertext payload same e f)

  pub decode_payload-encode_payload :
      (write read : PersistenceMode) (nonce bytes payload : Bytes)
      → CanRead write read
      → IsClear write nonce
      → encode_payload lib write nonce bytes ≡ ok payload
      → decode_payload lib read payload ≡ ok bytes
  unfolding encode_payload
  decode_payload-encode_payload (plaintext legacy) read nonce bytes payload same clear e =
      elim (Option-cases (lib.plaintexts.encode bytes)) [
        | inl f ↦ absurd (cc (rw f at e))
        | inr (encoded, f) ↦
            let whole : plaintext_prefix ++ encoded ≡ payload = cc (rw f at e) in
            rw (sym whole) (
              decode_payload_marked read bytes encoded _
                (strip_prefix-append plaintext_prefix encoded) f)
      ]
  decode_payload-encode_payload (encrypted key) read nonce bytes payload same clear e =
      elim (Option-cases (lib.encrypt key nonce bytes)) [
        | inl f ↦ absurd (cc (rw f at e))
        | inr (ciphertext, f) ↦
            elim (Option-cases
              (lib.blobs.encode (record { nonce = nonce; ciphertext = ciphertext }))) [
                | inl g ↦ absurd (cc (rw (f, g) at e))
                | inr (encoded, g) ↦
                    let whole : encoded ≡ payload = cc (rw (f, g) at e) in
                    rw (sym whole)
                      (decode_payload_blob key read nonce bytes ciphertext encoded same clear f g)
              ]
      ]

  -- The row of a session that was saved without an error reads as that session, in the mode in which it
  -- was written and in every mode that has its key; a row in plain text is read in every mode. The
  -- libraries do what they document, and the nonce does not begin like the mark of plain text.
  pub decode_session-save_session :
      (read : PersistenceMode) (nonce : Bytes) (session : StoredSession) (p : Persistence)
      → CanRead p.mode read
      → IsClear p.mode nonce
      → (save_session lib true nonce session p).0 ≡ ok tt
      → (bytes : Bytes) × (lookup session.summary.id
            (save_session lib true nonce session p).1.sessions
          ≡ some bytes)
        × (decode_session lib read bytes ≡ ok session)
  unfolding save_session save_payload commit
  decode_session-save_session read nonce session p same clear e =
      elim (Option-cases (lib.sessions.encode session)) [
        | inl f ↦ absurd (cc (rw f at e))
        | inr (encoded, f) ↦ elim (Result-cases (encode_payload lib p.mode nonce encoded)) [
          | inr (error, g) ↦ absurd (cc (rw (f, g) at e))
          | inl (payload, g) ↦
              let opened =
                decode_payload-encode_payload p.mode read nonce encoded payload same clear g in
              (
                payload,
                rw (f, g) (lookup-insert_self session.summary.id payload p.sessions),
                unfold decode_session in rw (opened, law.sessions session encoded f) refl,
              )
        ]
      ]
