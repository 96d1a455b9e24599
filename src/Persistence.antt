-- ===== src/Persistence.antt =====
-- crates/daemon/src/persistence.rs: the tables of sessions and devices, encrypted or not, and the
-- pruning of the sessions. What the code uses of bincode, of the cipher and of the hash is a
-- parameter; whether the calls of the database succeed is an argument. A transaction that fails
-- changes nothing.
pub mod Payload
pub mod Pruning
mod Tests
pub mod Fixtures
mod Dropped
pub mod Newest
pub mod Rows
pub mod Loading
pub mod Retention
use shelly.Prelude.{
  ℕ, suc, ◌-◌, ◌*◌, ◌≡◌, Bool, true, false, ◌&&◌, Option, none, some, List, [], ◌∷◌, ◌++◌, Text,
  map, ltb, leb, if◌then◌else◌, length, Result, ok, err, ◌>>=◌, context, text_eq,
}
use shelly.Prelude.Dict.{Dict, insert, remove}
use shelly.Prelude.Sorting.{sort_by}
use shelly.Protocol.{PushPlatform, SessionSummary}
use shelly.Signing.{strip_prefix}

abbrev pub Bytes : Type 0
Bytes = List ℕ

-- `b"FWP1\0"`
abbrev pub plaintext_prefix : Bytes
plaintext_prefix = b'F' ∷ b'W' ∷ b'P' ∷ b'1' ∷ 0 ∷ []

-- "sha256:"
abbrev pub sha256_tag : Text
sha256_tag = b's' ∷ b'h' ∷ b'a' ∷ b'2' ∷ b'5' ∷ b'6' ∷ b':' ∷ []

abbrev pub max_stored_sessions : ℕ
max_stored_sessions = 256

abbrev pub session_retention_ms : ℕ
session_retention_ms = 7 * 24 * 60 * 60 * 1000

-- An exit code is given as the 32 bits of an `i32`.
pub record StoredSession : Type 0 where
  pub summary : SessionSummary
  pub scrollback_start_seq : ℕ
  pub scrollback : Bytes
  pub exit_code : Option ℕ

pub record StoredDevice : Type 0 where
  pub name : Text
  pub device_node_id : Text
  pub paired_at : ℕ
  pub last_seen : Option ℕ
  pub push_platform : Option PushPlatform
  pub push_token : Option Text

abbrev pub mark_seen : ℕ → StoredDevice → StoredDevice
mark_seen now d = record d { last_seen = some now }

unfoldable pub set_push_token : ℕ → PushPlatform → Text → StoredDevice → StoredDevice
set_push_token now platform token d =
    mark_seen now (record d { push_platform = some platform; push_token = some token })

unfoldable pub clear_push_token : ℕ → StoredDevice → StoredDevice
clear_push_token now d = mark_seen now (record d { push_platform = none; push_token = none })

pub record EncryptedBlob : Type 0 where
  pub nonce : Bytes
  pub ciphertext : Bytes

pub data PersistenceMode : Type 0 where
  encrypted : Bytes → PersistenceMode
  plaintext : Option Bytes → PersistenceMode

pub data StoreError : Type 0 where
  not_encoded not_encrypted not_decoded not_decrypted no_plaintext no_key database : StoreError

-- bincode for the values of one type.
pub record Codec (A : Type 0) : Type 0 where
  pub encode : A → Option Bytes
  pub decode : Bytes → Option A

-- What the code uses of the libraries.
pub record Libraries : Type 0 where
  pub sessions : Codec StoredSession
  pub devices : Codec StoredDevice
  pub plaintexts : Codec Bytes
  pub blobs : Codec EncryptedBlob
  pub encrypt : Bytes → Bytes → Bytes → Option Bytes
  pub decrypt : Bytes → Bytes → Bytes → Option Bytes
  pub sha256_hex : Text → Text

pub record Persistence : Type 0 where
  pub sessions : Dict Text Bytes
  pub devices : Dict Text Bytes
  pub mode : PersistenceMode

-- Over the transaction, which is written at the end or not at all.
unfoldable pub commit :
    Bool → Persistence → Persistence → Result StoreError (Unit {0}) × Persistence
commit true after before = (ok tt, after)
commit false after before = (err database, before)

unfoldable pub save_payload :
    Bool
    → Result StoreError Bytes
    → (Bytes → Persistence)
    → Persistence
    → Result StoreError (Unit {0}) × Persistence
unfolding commit
save_payload commits (err e) write p = (err e, p)
save_payload commits (ok payload) write p = commit commits (write payload) p

unfoldable pub remove_session :
    Bool → Text → Persistence → Result StoreError (Unit {0}) × Persistence
unfolding commit
remove_session commits id p = commit commits (record p { sessions = remove id p.sessions }) p

-- A row that cannot be read is left out.
unfoldable pub readable : {A : Type 0} → (Bytes → Result StoreError A) → Dict Text Bytes → List A
readable read [] = []
readable read ((key, value) ∷ rows) =
    let rest = readable read rows in elim (read value) [ ok a ↦ a ∷ rest | err e ↦ rest ]

module _ (lib : Libraries) where
  -- `nonce` is what the random source gives.
  unfoldable pub encode_payload : PersistenceMode → Bytes → Bytes → Result StoreError Bytes
  encode_payload (encrypted key) nonce bytes = do
    ciphertext ← context not_encrypted (lib.encrypt key nonce bytes)
    context not_encoded (lib.blobs.encode (record { nonce = nonce; ciphertext = ciphertext }))
  encode_payload (plaintext _) nonce bytes = do
    encoded ← context not_encoded (lib.plaintexts.encode bytes)
    ok (plaintext_prefix ++ encoded)

  unfoldable pub open_blob : StoreError → Bytes → Bytes → Result StoreError Bytes
  open_blob unreadable key payload = do
    blob ← context unreadable (lib.blobs.decode payload)
    context not_decrypted (lib.decrypt key blob.nonce blob.ciphertext)

  -- The part of `decode_payload` for what is not marked as plain text.
  unfoldable pub decode_encrypted : PersistenceMode → Bytes → Result StoreError Bytes
  unfolding open_blob
  decode_encrypted (encrypted key) payload = open_blob no_plaintext key payload
  decode_encrypted (plaintext (some key)) payload = open_blob not_decoded key payload
  decode_encrypted (plaintext none) payload = err no_key

  unfoldable pub decode_plaintext_payload : Bytes → Result StoreError (Option Bytes)
  decode_plaintext_payload payload = elim (strip_prefix plaintext_prefix payload) [
    | none ↦ ok none
    | some encoded ↦ do bytes ← context not_decoded (lib.plaintexts.decode encoded); ok (some bytes)
  ]

  unfoldable pub decode_payload : PersistenceMode → Bytes → Result StoreError Bytes
  unfolding decode_plaintext_payload decode_encrypted
  decode_payload mode payload = do
    found ← decode_plaintext_payload payload
    elim found [ some bytes ↦ ok bytes | none ↦ decode_encrypted mode payload ]

  unfoldable pub save_session :
      Bool → Bytes → StoredSession → Persistence → Result StoreError (Unit {0}) × Persistence
  unfolding encode_payload save_payload
  save_session commits nonce session p =
      let payload =
        context not_encoded (lib.sessions.encode session) >>= encode_payload p.mode nonce in
      save_payload commits payload
        (λ bytes. record p { sessions = insert session.summary.id bytes p.sessions }) p

  unfoldable pub decode_session : PersistenceMode → Bytes → Result StoreError StoredSession
  unfolding decode_payload
  decode_session mode bytes = do
    found ← decode_payload mode bytes
    context not_decoded (lib.sessions.decode found)

  unfoldable pub decode_device : PersistenceMode → Bytes → Result StoreError StoredDevice
  unfolding decode_payload
  decode_device mode bytes = do
    found ← decode_payload mode bytes
    context not_decoded (lib.devices.decode found)

  unfoldable pub load_sessions : Persistence → List StoredSession
  unfolding readable decode_session
  load_sessions p =
      sort_by (λ a b. leb a.summary.created_at b.summary.created_at)
        (readable (decode_session p.mode) p.sessions)

  unfoldable pub device_storage_key : Text → Text
  device_storage_key device_node_id = sha256_tag ++ lib.sha256_hex device_node_id

  unfoldable pub save_device :
      Bool → Bytes → StoredDevice → Persistence → Result StoreError (Unit {0}) × Persistence
  unfolding encode_payload save_payload
  save_device commits nonce device p =
      let payload =
        context not_encoded (lib.devices.encode device) >>= encode_payload p.mode nonce in
      let key = device_storage_key device.device_node_id in
      save_payload commits payload
        (λ bytes. record p { devices = insert key bytes (remove device.device_node_id p.devices) })
        p

  unfoldable pub remove_device :
      Bool → Text → Persistence → Result StoreError (Unit {0}) × Persistence
  unfolding commit
  remove_device commits device_node_id p =
      commit commits
        (record p {
          devices = remove device_node_id (remove (device_storage_key device_node_id) p.devices);
        })
        p

  unfoldable pub load_devices : Persistence → List StoredDevice
  unfolding readable decode_device
  load_devices p =
      sort_by (λ a b. leb a.paired_at b.paired_at) (readable (decode_device p.mode) p.devices)

  -- The row's time of last activity, if the row can be read.
  unfoldable pub last_activity : PersistenceMode → Bytes → Option ℕ
  unfolding decode_session
  last_activity mode bytes = elim (decode_session mode bytes) [
    | ok session ↦ some session.summary.last_activity
    | err e ↦ none
  ]
