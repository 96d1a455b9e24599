-- ===== src/Devices/Durable.antt =====
-- The devices in memory are those that a start of the daemon reads from the store.
use shelly.Prelude.{
  ℕ, List, ◌⊎◌, sym, ap, false, Bool-cases, ◌≡◌, refl, ◌∙◌, Bool, Option, none, some, Text, arith,
  if◌then◌else◌, Result-cases, inl, inr, Result, ok, text_eq, text_beq, text_beq_iff,
}
use shelly.Prelude.Dict.{
  Dict, IsUnique, lookup, insert, remove, lookup-insert, lookup-remove, insert-IsUnique,
  remove-IsUnique,
}
use shelly.Persistence.{
  Libraries, Persistence, decode_device, device_storage_key, StoredDevice, StoreError, mark_seen,
  set_push_token, clear_push_token,
}
use shelly.Persistence
use shelly.Persistence.Payload.{IsLawful, IsClear}
use shelly.Persistence.Rows.{
  IsInjective, IsNodeId, stored_device, IsWritten, save_device-IsWritten, remove_device-IsWritten,
}
use shelly.Devices.{Devices, Call, write_store, save_device, change_device}

-- Every row that can be read is that of a device in memory, under its key or its plain id.
abbrev pub AreRows : Libraries → Dict Text StoredDevice → Persistence → Type 0
AreRows lib devices p =
    (key : Text) (bytes : List ℕ) (read : StoredDevice)
    → lookup key p.devices ≡ some bytes
    → decode_device lib p.mode bytes ≡ ok read
    → ((key ≡ device_storage_key lib read.device_node_id) ⊎ (key ≡ read.device_node_id))
      × (lookup read.device_node_id devices ≡ some read)

-- The store agrees with the devices in memory.
abbrev pub Agrees : Libraries → Dict Text StoredDevice → Option Persistence → Type 0
Agrees lib devices none = Unit {0}
Agrees lib devices (some p) =
    IsUnique p.devices
    × ((id : Text) → stored_device lib p id ≡ lookup id devices)
    × AreRows lib devices p

-- Every device is kept under its own id, once, and the store agrees.
pub record IsDurable (lib : Libraries) (devices : Dict Text StoredDevice)
    (persistence : Option Persistence) : Type 0 where
  pub unique : IsUnique devices
  pub keyed :
      (id : Text) (device : StoredDevice)
      → lookup id devices ≡ some device
      → (device.device_node_id ≡ id) × IsNodeId id
  pub agrees : Agrees lib devices persistence

-- The nonce of the call does not look like the mark of plain text.
abbrev pub IsClearCall : Call → Option Persistence → Type 0
IsClearCall call none = Unit {0}
IsClearCall call (some p) = IsClear p.mode call.nonce

module _ (lib : Libraries) where
  other_id :
      (id key other : Text)
      → text_beq (device_storage_key lib id) key ≡ false
      → text_beq id key ≡ false
      → (key ≡ device_storage_key lib other) ⊎ (key ≡ other)
      → text_beq id other ≡ false
  other_id id key other not_key not_plain place = elim (Bool-cases (text_beq id other)) [
    | inr e ↦ e
    | inl e ↦
        let same : id ≡ other = (text_beq_iff id other).0 e in
        elim place [
          | inl hashed ↦ absurd (
              cc (
                sym not_key
                ∙ (text_beq_iff (device_storage_key lib id) key).1
                    (ap (device_storage_key lib) same ∙ sym hashed)))
          | inr plain ↦ absurd (cc (sym not_plain ∙ (text_beq_iff id key).1 (same ∙ sym plain)))
        ]
  ]

  -- A row of before is not that of the device that changes.
  written-AreRows :
      (p q : Persistence) (id : Text) (device : Option StoredDevice)
      (devices after : Dict Text StoredDevice)
      → IsWritten lib p q id device
      → ((j : Text) → lookup j after ≡ (if text_beq id j then device else lookup j devices))
      → AreRows lib devices p
      → AreRows lib after q
  written-AreRows p q id device devices after (mode, unique, row_of, rows) changed old key bytes
        read there decoded =
      elim (rows key bytes read there (sym (ap (λ m. decode_device lib m bytes) mode) ∙ decoded)) [
        | inl (new, at_key, own) ↦ (
          inl (at_key ∙ ap (device_storage_key lib) (sym own)),
          ground
              (arith, changed read.device_node_id, new, own, text_beq_iff id read.device_node_id),
        )
        | inr (not_key, not_plain, before) ↦
            let (place, held) =
              old key bytes read before
                (sym (ap (λ m. decode_device lib m bytes) mode) ∙ decoded) in
            (
              place,
              changed read.device_node_id
                  ∙ (ap (λ (b : Bool). if b then device else lookup read.device_node_id devices)
                        (other_id id key read.device_node_id not_key not_plain place)
                      ∙ held),
            )
      ]

  -- A write that succeeds, and the change in memory that goes with it.
  write_store-Agrees :
      (write : Persistence → Result StoreError (Unit {0}) × Persistence) (o : Option Persistence)
      (id : Text) (device : Option StoredDevice) (devices after : Dict Text StoredDevice)
      → ((p : Persistence)
          → o ≡ some p
          → IsUnique p.devices
          → (write p).0 ≡ ok tt
          → IsWritten lib p (write p).1 id device)
      → Agrees lib devices o
      → (write_store write o).0 ≡ ok tt
      → ((j : Text) → lookup j after ≡ (if text_beq id j then device else lookup j devices))
      → Agrees lib after (write_store write o).1
  write_store-Agrees write none id device devices after writes agrees e changed = tt
  write_store-Agrees write (some p) id device devices after writes agrees e changed =
      let written = writes p refl agrees.0 e in
      (
        written.1,
        (λ j. written.2 j ∙ ground (arith, agrees.1 j, changed j)),
        written-AreRows p (write p).1 id device devices after written changed agrees.2,
      )

module _ (lib : Libraries) (law : IsLawful lib) (injective : IsInjective lib) where
  pub put-IsDurable :
      (call : Call) (device : StoredDevice) (devices : Dict Text StoredDevice)
      (o : Option Persistence)
      → IsNodeId device.device_node_id
      → IsClearCall call o
      → IsDurable lib devices o
      → (write_store (Persistence.save_device lib call.commits call.nonce device) o).0 ≡ ok tt
      → IsDurable lib
          (insert device.device_node_id device devices)
          (write_store (Persistence.save_device lib call.commits call.nonce device) o).1
  put-IsDurable call device devices o h clear d e = record {
    unique = insert-IsUnique device.device_node_id device devices d.unique;
    keyed = λ id other found. ground (
      arith,
      lookup-insert device.device_node_id id device devices,
      d.keyed id other,
      text_beq_iff device.device_node_id id,
    );
    agrees =
        write_store-Agrees lib (Persistence.save_device lib call.commits call.nonce device) o
          device.device_node_id (some device) devices (insert device.device_node_id device devices)
          (λ p f u saved.
            save_device-IsWritten lib law injective call.commits call.nonce device p h
              (clear_at p f) u saved)
          d.agrees e (λ j. lookup-insert device.device_node_id j device devices);
  }
    where
      clear_at : (p : Persistence) → o ≡ some p → IsClear p.mode call.nonce
      clear_at p f = rw f at clear

  pub drop-IsDurable :
      (call : Call) (id : Text) (devices : Dict Text StoredDevice) (o : Option Persistence)
      → IsNodeId id
      → IsDurable lib devices o
      → (write_store (Persistence.remove_device lib call.commits id) o).0 ≡ ok tt
      → IsDurable lib
          (remove id devices)
          (write_store (Persistence.remove_device lib call.commits id) o).1
  drop-IsDurable call id devices o h d e = record {
    unique = remove-IsUnique id devices d.unique;
    keyed = λ j other found. ground (arith, lookup-remove id j devices d.unique, d.keyed j other);
    agrees =
        write_store-Agrees lib (Persistence.remove_device lib call.commits id) o id none devices
          (remove id devices)
          (λ p f u removed. remove_device-IsWritten lib law injective call.commits id p h u removed)
          d.agrees e (λ j. lookup-remove id j devices d.unique);
  }

  pub save_device-IsDurable :
      (call : Call) (device : StoredDevice) (st : Devices)
      → IsNodeId device.device_node_id
      → IsClearCall call st.persistence
      → IsDurable lib st.devices st.persistence
      → (save_device lib call device st).0 ≡ ok tt
      → IsDurable lib
          (save_device lib call device st).1.devices
          (save_device lib call device st).1.persistence
  unfolding save_device
  save_device-IsDurable call device st h clear d e =
      elim (Result-cases
        (write_store (Persistence.save_device lib call.commits call.nonce device)
          st.persistence).0) [
            | inl (u, f) ↦ rw f (put-IsDurable call device st.devices st.persistence h clear d f)
            | inr (error, f) ↦ absurd (cc (rw f at e))
          ]

  pub change_device-IsDurable :
      (call : Call) (device : StoredDevice) (then_tell : Devices → Devices) (st : Devices)
      {b : Bool}
      → ((s : Devices)
          → ((then_tell s).devices ≡ s.devices) × ((then_tell s).persistence ≡ s.persistence))
      → IsNodeId device.device_node_id
      → IsClearCall call st.persistence
      → IsDurable lib st.devices st.persistence
      → (change_device lib call device.device_node_id device then_tell st).0 ≡ ok b
      → IsDurable lib
          (change_device lib call device.device_node_id device then_tell st).1.devices
          (change_device lib call device.device_node_id device then_tell st).1.persistence
  unfolding change_device
  change_device-IsDurable call device then_tell st same h clear d e =
      elim (Result-cases
        (write_store (Persistence.save_device lib call.commits call.nonce device)
          st.persistence).0) [
            | inl (u, f) ↦
                rw (f, (same _).0, (same _).1)
                  (put-IsDurable call device st.devices st.persistence h clear d f)
            | inr (error, f) ↦ absurd (cc (rw f at e))
          ]
