-- ===== src/Persistence/Rows.antt =====
-- What the table of devices holds of a device, and how saving and removing one change it.
use shelly.Prelude.{
  ◌≡◌, ◌⊎◌, refl, sym, ap, ◌∙◌, Bool, true, false, Option, none, some, Text, arith, if◌then◌else◌,
  Option-cases, Result-cases, Bool-cases, inl, inr, ok, err, text_eq, text_beq, text_beq_iff,
}
use shelly.Prelude.Dict.{
  IsUnique, lookup, insert, remove, lookup-insert, lookup-remove, insert-IsUnique, remove-IsUnique,
}
use shelly.Signing.{strip_prefix}
use shelly.Persistence.{
  Bytes, Libraries, Persistence, PersistenceMode, plaintext, encrypted, StoredDevice, sha256_tag,
  decode_device, device_storage_key, save_device, remove_device, save_payload, commit,
  encode_payload, decode_payload,
}
use shelly.Persistence.Payload.{
  IsLawful, IsClear, CanRead, decode_payload-encode_payload, strip_prefix-append,
}

abbrev pub read_row : Libraries → PersistenceMode → Option Bytes → Option StoredDevice
read_row lib mode none = none
read_row lib mode (some bytes) = elim (decode_device lib mode bytes) [
  | ok device ↦ some device
  | err e ↦ none
]

-- What a start of the daemon reads of the device, of the row under its key.
abbrev pub stored_device : Libraries → Persistence → Text → Option StoredDevice
stored_device lib p id = read_row lib p.mode (lookup (device_storage_key lib id) p.devices)

CanRead-self : (mode : PersistenceMode) → CanRead mode mode
CanRead-self (plaintext legacy) = tt
CanRead-self (encrypted key) = refl

-- The hash does not collide.
abbrev pub IsInjective : Libraries → Type 0
IsInjective lib = (a b : Text) → lib.sha256_hex a ≡ lib.sha256_hex b → a ≡ b

-- An id that does not look like a key of the table; the ids are hexadecimal.
abbrev pub IsNodeId : Text → Type 0
IsNodeId id = strip_prefix sha256_tag id ≡ none

-- A row is that of the device, or one from before under another key than the two of the id.
abbrev pub IsRow :
    Libraries → Persistence → Text → Option StoredDevice → Text → Bytes → StoredDevice → Type 0
IsRow lib p id device key bytes read =
    ((device ≡ some read) × (key ≡ device_storage_key lib id) × (read.device_node_id ≡ id))
    ⊎ ((text_beq (device_storage_key lib id) key ≡ false)
        × (text_beq id key ≡ false)
        × (lookup key p.devices ≡ some bytes))

-- The row of a device changes, and no other; the row under the plain id, as it was before the ids were
-- hashed, is gone.
abbrev pub IsWritten : Libraries → Persistence → Persistence → Text → Option StoredDevice → Type 0
IsWritten lib p q id device =
    (q.mode ≡ p.mode)
    × IsUnique q.devices
    × ((j : Text)
        → stored_device lib q j ≡ (if text_beq id j then device else stored_device lib p j))
    × ((key : Text) (bytes : Bytes) (read : StoredDevice)
        → lookup key q.devices ≡ some bytes
        → decode_device lib p.mode bytes ≡ ok read
        → IsRow lib p id device key bytes read)

module _ (lib : Libraries) (law : IsLawful lib) (injective : IsInjective lib) where
  strip_prefix-device_storage_key :
      (id : Text) → strip_prefix sha256_tag (device_storage_key lib id) ≡ some (lib.sha256_hex id)
  unfolding device_storage_key
  strip_prefix-device_storage_key id = strip_prefix-append sha256_tag (lib.sha256_hex id)

  device_storage_key-injective :
      (i j : Text) → device_storage_key lib i ≡ device_storage_key lib j → i ≡ j
  device_storage_key-injective i j e =
      let hashes : some (lib.sha256_hex i) ≡ some (lib.sha256_hex j) =
        sym (strip_prefix-device_storage_key i)
        ∙ (ap (strip_prefix sha256_tag) e ∙ strip_prefix-device_storage_key j) in
      injective i j (cc hashes)

  -- A storage key is not the id of a device.
  text_beq-device_storage_key :
      (i j : Text) → IsNodeId i → text_beq i (device_storage_key lib j) ≡ false
  text_beq-device_storage_key i j h = elim (Bool-cases (text_beq i (device_storage_key lib j))) [
    | inr e ↦ e
    | inl e ↦
        let same = (text_beq_iff i (device_storage_key lib j)).0 e in
        absurd
          (cc (sym h ∙ (ap (strip_prefix sha256_tag) same ∙ strip_prefix-device_storage_key j)))
  ]

  text_beq-device_storage_keys :
      (i j : Text) → text_beq (device_storage_key lib i) (device_storage_key lib j) ≡ text_beq i j
  text_beq-device_storage_keys i j = ground (
    arith,
    text_beq_iff i j,
    text_beq_iff (device_storage_key lib i) (device_storage_key lib j),
    device_storage_key-injective i j,
  )

  saved_row :
      (p : Persistence) (bytes : Bytes) (id j : Text)
      → IsNodeId id
      → IsUnique p.devices
      → lookup
          (device_storage_key lib j)
          (insert (device_storage_key lib id) bytes (remove id p.devices))
        ≡ (if text_beq id j then some bytes else lookup (device_storage_key lib j) p.devices)
  saved_row p bytes id j h u = ground (
    arith,
    text_beq-device_storage_keys id j,
    text_beq-device_storage_key id j h,
    lookup-insert (device_storage_key lib id) (device_storage_key lib j) bytes
        (remove id p.devices),
    lookup-remove id (device_storage_key lib j) p.devices u,
  )

  saved-IsWritten :
      (p : Persistence) (nonce encoded bytes : Bytes) (device : StoredDevice)
      → IsNodeId device.device_node_id
      → IsClear p.mode nonce
      → IsUnique p.devices
      → lib.devices.encode device ≡ some encoded
      → encode_payload lib p.mode nonce encoded ≡ ok bytes
      → IsWritten lib p
          (record p {
            devices =
                insert
                  (device_storage_key lib device.device_node_id)
                  bytes
                  (remove device.device_node_id p.devices);
          })
          device.device_node_id
          (some device)
  unfolding decode_device strip_prefix
  saved-IsWritten p nonce encoded bytes device h clear u e f = (
    refl,
    insert-IsUnique _ bytes _ (remove-IsUnique device.device_node_id p.devices u),
    λ j.
        let row = saved_row p bytes device.device_node_id j h u in
        ap (read_row lib p.mode) row ∙ elim (Bool-cases (text_beq device.device_node_id j)) [
          | inl same ↦ rw same (rw read refl)
          | inr other ↦ rw other refl
        ],
    saved_rows,
  )
    where
      opened : decode_payload lib p.mode bytes ≡ ok encoded
      opened =
          decode_payload-encode_payload lib law p.mode p.mode nonce encoded bytes
            (CanRead-self p.mode) clear f

      read : decode_device lib p.mode bytes ≡ ok device
      read = unfold decode_device in rw (opened, law.devices device encoded e) refl

      saved_rows :
          (key : Text) (row : Bytes) (found : StoredDevice)
          → lookup key (
              insert
                (device_storage_key lib device.device_node_id)
                bytes
                (remove device.device_node_id p.devices))
            ≡ some row
          → decode_device lib p.mode row ≡ ok found
          → IsRow lib p device.device_node_id (some device) key row found
      saved_rows key row found there decoded =
          let id : Text = device.device_node_id in
          let at_key = lookup-insert (device_storage_key lib id) key bytes (remove id p.devices) in
          let before = lookup-remove id key p.devices u in
          elim (Bool-cases (text_beq (device_storage_key lib id) key)) [
            | inl e ↦
                let same : bytes ≡ row = cc (sym (rw e at at_key) ∙ there) in
                let both : ok device ≡ ok found =
                  sym read ∙ (ap (decode_device lib p.mode) same ∙ decoded) in
                let one : device ≡ found = cc both in
                inl (
                  ap some one,
                  sym ((text_beq_iff (device_storage_key lib id) key).0 e),
                  ap (λ r. r.device_node_id) (sym one),
                )
            | inr e ↦
                let kept : lookup key (remove id p.devices) ≡ some row =
                  sym (rw e at at_key) ∙ there in
                elim (Bool-cases (text_beq id key)) [
                  | inl f ↦ absurd (cc (sym (rw f at before) ∙ kept))
                  | inr f ↦ inr (e, f, sym (rw f at before) ∙ kept)
                ]
          ]

  pub save_device-IsWritten :
      (commits : Bool) (nonce : Bytes) (device : StoredDevice) (p : Persistence)
      → IsNodeId device.device_node_id
      → IsClear p.mode nonce
      → IsUnique p.devices
      → (save_device lib commits nonce device p).0 ≡ ok tt
      → IsWritten lib p
          (save_device lib commits nonce device p).1
          device.device_node_id
          (some device)
  unfolding save_device save_payload commit
  save_device-IsWritten commits nonce device p h clear u e =
      elim (Option-cases (lib.devices.encode device)) [
        | inl f ↦ absurd (cc (rw f at e))
        | inr (encoded, f) ↦ elim (Result-cases (encode_payload lib p.mode nonce encoded)) [
          | inr (error, g) ↦ absurd (cc (rw (f, g) at e))
          | inl (bytes, g) ↦ elim (Bool-cases commits) [
            | inr c ↦ absurd (cc (rw (f, g, c) at e))
            | inl c ↦ rw (f, g, c) (saved-IsWritten p nonce encoded bytes device h clear u f g)
          ]
        ]
      ]

  removed_row :
      (p : Persistence) (id j : Text)
      → IsNodeId id
      → IsUnique p.devices
      → lookup (device_storage_key lib j) (remove id (remove (device_storage_key lib id) p.devices))
        ≡ (if text_beq id j then none else lookup (device_storage_key lib j) p.devices)
  removed_row p id j h u = ground (
    arith,
    text_beq-device_storage_keys id j,
    text_beq-device_storage_key id j h,
    lookup-remove (device_storage_key lib id) (device_storage_key lib j) p.devices u,
    lookup-remove id (device_storage_key lib j) (remove (device_storage_key lib id) p.devices)
        (remove-IsUnique (device_storage_key lib id) p.devices u),
  )

  removed_rows :
      (p : Persistence) (id key : Text) (row : Bytes)
      → IsUnique p.devices
      → lookup key (remove id (remove (device_storage_key lib id) p.devices)) ≡ some row
      → (text_beq (device_storage_key lib id) key ≡ false)
        × (text_beq id key ≡ false)
        × (lookup key p.devices ≡ some row)
  removed_rows p id key row u there = ground (
    arith,
    lookup-remove id key (remove (device_storage_key lib id) p.devices)
        (remove-IsUnique (device_storage_key lib id) p.devices u),
    lookup-remove (device_storage_key lib id) key p.devices u,
  )

  pub remove_device-IsWritten :
      (commits : Bool) (id : Text) (p : Persistence)
      → IsNodeId id
      → IsUnique p.devices
      → (remove_device lib commits id p).0 ≡ ok tt
      → IsWritten lib p (remove_device lib commits id p).1 id none
  unfolding remove_device commit
  remove_device-IsWritten false id p h u e = absurd (cc e)
  remove_device-IsWritten true id p h u e = (
    refl,
    remove-IsUnique id _ (remove-IsUnique (device_storage_key lib id) p.devices u),
    λ j.
        ap (read_row lib p.mode) (removed_row p id j h u)
        ∙ elim (Bool-cases (text_beq id j)) [ inl same ↦ rw same refl | inr other ↦ rw other refl ],
    λ key row found there decoded. inr (removed_rows p id key row u there),
  )
