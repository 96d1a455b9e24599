-- ===== src/Devices.antt =====
-- crates/daemon/src/ipc.rs: the paired devices of the daemon, in memory and in its store, the watchers
-- of their connections, and what the push worker is told about their tokens. A call runs alone.
pub mod Durable
pub mod Restart
pub mod Removal
mod Tests
use shelly.Prelude.{
  ℕ, ◌+◌, ◌-◌, ◌%◌, ◌^◌, ◌≡◌, Bool, true, false, ◌&&◌, ◌||◌, ◌==◌, Option, none, some, List, [],
  ◌∷◌, ◌++◌, Text, if◌then◌else◌, Result, ok, err, text_eq, text_beq,
}
use shelly.Prelude.Dict.{Dict, lookup, insert, remove, contains_key}
use shelly.Prelude.Io.{Io, ◌>>=◌, ◌>>◌, pure, get, modify}
use shelly.Protocol.{PushPlatform, apns, fcm, same_platform}
use shelly.Push.{PushCommand, register_token, unregister_token}
use shelly.Persistence.{
  Bytes, Libraries, Persistence, StoredDevice, StoreError, mark_seen, set_push_token,
  clear_push_token,
}
use shelly.Persistence

-- A channel whose version counts the revocations, and the number of its receivers.
pub record Revocations : Type 0 where
  pub version : ℕ
  pub receivers : ℕ

-- The part of `AppState` that these operations read or change.
pub record Devices : Type 0 where
  pub devices : Dict Text StoredDevice
  pub persistence : Option Persistence
  pub device_revocations : Dict Text Revocations
  pub push : List PushCommand

-- What a call finds: the clock, whether its transaction is committed, and the random source.
pub record Call : Type 0 where
  pub now : ℕ
  pub commits : Bool
  pub nonce : Bytes

abbrev pub put_device : Text → StoredDevice → Devices → Devices
put_device id device st = record st { devices = insert id device st.devices }

abbrev pub tell : PushCommand → Devices → Devices
tell command st = record st { push = st.push ++ command ∷ [] }

-- With no store there is nothing to write.
abbrev pub write_store :
    (Persistence → Result StoreError (Unit {0}) × Persistence)
    → Option Persistence
    → Result StoreError (Unit {0}) × Option Persistence
write_store write none = (ok tt, none)
write_store write (some p) = ((write p).0, some (write p).1)

abbrev pub persisting :
    (Persistence → Result StoreError (Unit {0}) × Persistence) → Io Devices StoreError (Unit {0})
persisting write st = (
  (write_store write st.persistence).0,
  record st { persistence = (write_store write st.persistence).1 },
)

unfoldable pub is_device_paired : Text → Devices → Bool
is_device_paired device_node_id st = contains_key device_node_id st.devices

-- `find` over the map, in the order of its iteration.
unfoldable pub find_device : Text → Dict Text StoredDevice → Option Text
find_device name [] = none
find_device name ((id, device) ∷ devices) =
    if text_beq device.name name || text_beq device.device_node_id name
    then some device.device_node_id
    else find_device name devices

unfoldable pub has_token : PushPlatform → Text → StoredDevice → Bool
has_token platform token device =
    elim device.push_platform [ none ↦ false | some p ↦ same_platform p platform ]
    && elim device.push_token [ none ↦ false | some t ↦ text_beq t token ]

unfoldable pub subscribe_device_revocation : Text → Devices → Devices
subscribe_device_revocation id st =
    let channel : Revocations = elim (lookup id st.device_revocations) [
      | none ↦ record { version = 0; receivers = 0 }
      | some channel ↦ channel
    ] in
    record st {
      device_revocations =
          insert id (record channel { receivers = channel.receivers + 1 }) st.device_revocations;
    }

-- `Drop` of a watcher: the channel goes with its last receiver.
unfoldable pub drop_watcher : Text → Devices → Devices
drop_watcher id st = elim (lookup id st.device_revocations) [
  | none ↦ st
  | some channel ↦
      if channel.receivers - 1 == 0
      then record st { device_revocations = remove id st.device_revocations }
      else record st {
        device_revocations =
            insert id (record channel { receivers = channel.receivers - 1 }) st.device_revocations;
      }
]

unfoldable pub revoke_device_connections : Text → Devices → Devices
revoke_device_connections id st = elim (lookup id st.device_revocations) [
  | none ↦ st
  | some channel ↦ record st {
    device_revocations =
        insert id (record channel { version = (channel.version + 1) % 2 ^ 64 })
          st.device_revocations;
  }
]

abbrev pub unregister : Option Text → Devices → Devices
unregister none st = st
unregister (some token) st = tell (unregister_token token) st

-- The part of `remove_device_by_node_id` behind the store.
unfoldable pub forget_device : Text → StoredDevice → Io Devices StoreError (Option StoredDevice)
unfolding revoke_device_connections
forget_device id device st = (
  ok (some device),
  unregister device.push_token
      (revoke_device_connections id (record st { devices = remove id st.devices })),
)

module _ (lib : Libraries) where
  unfoldable pub save_device : Call → StoredDevice → Io Devices StoreError (Unit {0})
  save_device call device =
      persisting (Persistence.save_device lib call.commits call.nonce device)
      >> modify (put_device device.device_node_id device)

  unfoldable pub remove_device_by_node_id :
      Call → Text → Io Devices StoreError (Option StoredDevice)
  unfolding forget_device
  remove_device_by_node_id call id st = elim (lookup id st.devices) [
    | none ↦ (ok none, st)
    | some device ↦
        (persisting (Persistence.remove_device lib call.commits id) >> forget_device id device) st
  ]

  unfoldable pub remove_device : Call → Text → Io Devices StoreError (Option StoredDevice)
  unfolding remove_device_by_node_id
  remove_device call name st = elim (find_device name st.devices) [
    | none ↦ (ok none, st)
    | some id ↦ remove_device_by_node_id call id st
  ]

  unfoldable pub unpair_self : Call → Text → Io Devices StoreError (Option StoredDevice)
  unfolding remove_device_by_node_id
  unpair_self call id = remove_device_by_node_id call id

  -- The device in memory is changed first, and stays so if the store fails.
  unfoldable pub change_device :
      Call → Text → StoredDevice → (Devices → Devices) → Io Devices StoreError Bool
  change_device call id device then_tell =
      modify (put_device id device)
      >> persisting (Persistence.save_device lib call.commits call.nonce device)
      >> modify then_tell
      >> pure (ok true)

  unfoldable pub update_device_push : Call → Text → PushPlatform → Text → Io Devices StoreError Bool
  unfolding change_device
  update_device_push call id platform token st = elim (lookup id st.devices) [
    | none ↦ (ok false, st)
    | some device ↦
        change_device call id (set_push_token call.now platform token device)
          (tell (register_token platform token)) st
  ]

  unfoldable pub clear_device_push : Call → Text → PushPlatform → Text → Io Devices StoreError Bool
  unfolding change_device has_token
  clear_device_push call id platform token st = elim (lookup id st.devices) [
    | none ↦ (ok false, st)
    | some device ↦
        if has_token platform token device
        then change_device call id (clear_push_token call.now device)
            (tell (unregister_token token)) st
        else (ok true, st)
  ]

  unfoldable pub mark_device_seen : Call → Text → Io Devices StoreError Bool
  unfolding change_device
  mark_device_seen call id st = elim (lookup id st.devices) [
    | none ↦ (ok false, st)
    | some device ↦ change_device call id (mark_seen call.now device) (λ st. st) st
  ]
