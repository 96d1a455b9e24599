-- ===== src/Devices/Restart.antt =====
-- Every operation on the devices that succeeds keeps the store in step with the memory.
use mathlib.Core.List.{Mem}
use shelly.Prelude.{
  ℕ, ◌-◌, ◌==◌, ◌≡◌, refl, sym, ◌∙◌, Bool, Option, none, some, Text, Option-cases, Result-cases,
  All, Bool-cases, inl, inr, ok, text_eq,
}
use shelly.Prelude.Dict.{Dict, lookup, remove}
use shelly.Protocol.{PushPlatform}
use shelly.Persistence.{
  Libraries, Persistence, load_devices, StoredDevice, StoreError, mark_seen, set_push_token,
  clear_push_token,
}
use shelly.Persistence
use shelly.Persistence.Loading.{load_devices-All, load_devices-Mem}
use shelly.Persistence.Payload.{IsLawful}
use shelly.Persistence.Rows.{IsInjective, IsNodeId}
use shelly.Push.{register_token, unregister_token}
use shelly.Devices.{
  Devices, Call, tell, find_device, has_token, write_store, subscribe_device_revocation,
  drop_watcher, revoke_device_connections, unregister, forget_device, save_device,
  remove_device_by_node_id, remove_device, unpair_self, change_device, update_device_push,
  clear_device_push, mark_device_seen,
}
use shelly.Devices.Durable.{
  IsDurable, IsClearCall, drop-IsDurable, save_device-IsDurable, change_device-IsDurable,
}

-- An operation that answers without an error.
pub data Step (lib : Libraries) : Devices → Devices → Type 0 where
  saves :
      (call : Call) (device : StoredDevice) (st : Devices)
      → IsNodeId device.device_node_id
      → IsClearCall call st.persistence
      → (save_device lib call device st).0 ≡ ok tt
      → Step lib st (save_device lib call device st).1
  removes :
      (call : Call) (name : Text) (st : Devices) (removed : Option StoredDevice)
      → (remove_device lib call name st).0 ≡ ok removed
      → Step lib st (remove_device lib call name st).1
  unpairs :
      (call : Call) (id : Text) (st : Devices) (removed : Option StoredDevice)
      → (unpair_self lib call id st).0 ≡ ok removed
      → Step lib st (unpair_self lib call id st).1
  updates :
      (call : Call) (id : Text) (platform : PushPlatform) (token : Text) (st : Devices)
      (known : Bool)
      → IsClearCall call st.persistence
      → (update_device_push lib call id platform token st).0 ≡ ok known
      → Step lib st (update_device_push lib call id platform token st).1
  clears :
      (call : Call) (id : Text) (platform : PushPlatform) (token : Text) (st : Devices)
      (known : Bool)
      → IsClearCall call st.persistence
      → (clear_device_push lib call id platform token st).0 ≡ ok known
      → Step lib st (clear_device_push lib call id platform token st).1
  sees :
      (call : Call) (id : Text) (st : Devices) (known : Bool)
      → IsClearCall call st.persistence
      → (mark_device_seen lib call id st).0 ≡ ok known
      → Step lib st (mark_device_seen lib call id st).1
  subscribes : (id : Text) (st : Devices) → Step lib st (subscribe_device_revocation id st)
  drops : (id : Text) (st : Devices) → Step lib st (drop_watcher id st)

pub data Steps (lib : Libraries) (s : Devices) : Devices → Type 0 where
  done : Steps lib s s
  then_step : {t u : Devices} → Steps lib s t → Step lib t u → Steps lib s u

-- Only the devices and the store count.
abbrev Same : Devices → Devices → Type 0
Same s t = (s.devices ≡ t.devices) × (s.persistence ≡ t.persistence)

abbrev pub IsKnown : Dict Text StoredDevice → StoredDevice → Type 0
IsKnown devices device = lookup device.device_node_id devices ≡ some device

-- What a start loads is what there is in memory.
abbrev pub Loads : Libraries → Dict Text StoredDevice → Option Persistence → Type 0
Loads lib devices none = Unit {0}
Loads lib devices (some p) =
    All (IsKnown devices) (load_devices lib p)
    × ((id : Text) (device : StoredDevice)
        → lookup id devices ≡ some device
        → Mem device (load_devices lib p))

abbrev Durable : Libraries → Devices → Type 0
Durable lib st = IsDurable lib st.devices st.persistence

revoke-Same : (id : Text) (st : Devices) → Same (revoke_device_connections id st) st
unfolding revoke_device_connections
revoke-Same id st = elim (Option-cases (lookup id st.device_revocations)) [
  | inl e ↦ rw (e, revoke_device_connections) (refl, refl)
  | inr (channel, e) ↦ rw (e, revoke_device_connections) (refl, refl)
]

unregister-Same : (token : Option Text) (st : Devices) → Same (unregister token st) st
unregister-Same none st = (refl, refl)
unregister-Same (some token) st = (refl, refl)

drop_watcher-Same : (id : Text) (st : Devices) → Same (drop_watcher id st) st
unfolding drop_watcher
drop_watcher-Same id st = elim (Option-cases (lookup id st.device_revocations)) [
  | inl e ↦ rw (e, drop_watcher) (refl, refl)
  | inr (channel, e) ↦ elim (Bool-cases (channel.receivers - 1 == 0)) [
    | inl f ↦ rw (e, f, drop_watcher) (refl, refl)
    | inr f ↦ rw (e, f, drop_watcher) (refl, refl)
  ]
]

Same-Durable : (lib : Libraries) (s t : Devices) → Same s t → Durable lib t → Durable lib s
Same-Durable lib s t (e, f) d = rw (e, f) d

forget_device-Durable :
    (lib : Libraries) (id : Text) (device : StoredDevice) (st : Devices)
    → IsDurable lib (remove id st.devices) st.persistence
    → Durable lib (forget_device id device st).1
unfolding forget_device
forget_device-Durable lib id device st d =
    let less : Devices = record st { devices = remove id st.devices } in
    let revoked : Devices = revoke_device_connections id less in
    Same-Durable lib (unregister device.push_token revoked) revoked
      (unregister-Same device.push_token revoked)
      (Same-Durable lib revoked less (revoke-Same id less) d)

module _ (lib : Libraries) (law : IsLawful lib) (injective : IsInjective lib) where
  remove_device_by_node_id-IsDurable :
      (call : Call) (id : Text) (st : Devices) {removed : Option StoredDevice}
      → Durable lib st
      → (remove_device_by_node_id lib call id st).0 ≡ ok removed
      → Durable lib (remove_device_by_node_id lib call id st).1
  unfolding remove_device_by_node_id forget_device
  remove_device_by_node_id-IsDurable call id st d e = elim (Option-cases (lookup id st.devices)) [
    | inl f ↦ rw (f, remove_device_by_node_id) d
    | inr (device, f) ↦
        elim (Result-cases
          (write_store (Persistence.remove_device lib call.commits id) st.persistence).0) [
            | inr (error, g) ↦ absurd (cc (rw (f, g, remove_device_by_node_id) at e))
            | inl (u, g) ↦
                let written : Devices = record st {
                  persistence =
                      (write_store (Persistence.remove_device lib call.commits id)
                        st.persistence).1;
                } in
                rw (f, g, remove_device_by_node_id)
                  (forget_device-Durable lib id device written (
                    drop-IsDurable lib law injective call id st.devices st.persistence
                      (d.keyed id device f).1 d g))
          ]
  ]

  -- A device that is there is changed.
  found-IsDurable :
      (call : Call) (id : Text) (device changed : StoredDevice) (then_tell : Devices → Devices)
      (st : Devices) {known : Bool}
      → changed.device_node_id ≡ device.device_node_id
      → ((s : Devices) → Same (then_tell s) s)
      → IsClearCall call st.persistence
      → Durable lib st
      → lookup id st.devices ≡ some device
      → (change_device lib call id changed then_tell st).0 ≡ ok known
      → Durable lib (change_device lib call id changed then_tell st).1
  found-IsDurable call id device changed then_tell st kept same clear d f e =
      let (own, node) = d.keyed id device f in
      let at_id : id ≡ changed.device_node_id = sym (kept ∙ own) in
      rw at_id (
        change_device-IsDurable lib law injective call changed then_tell st same (rw at_id at node)
          clear d (rw at_id at e))

  set_push_token-id :
      (now : ℕ) (platform : PushPlatform) (token : Text) (device : StoredDevice)
      → (set_push_token now platform token device).device_node_id ≡ device.device_node_id
  unfolding set_push_token
  set_push_token-id now platform token device = refl

  clear_push_token-id :
      (now : ℕ) (device : StoredDevice)
      → (clear_push_token now device).device_node_id ≡ device.device_node_id
  unfolding clear_push_token
  clear_push_token-id now device = refl

  Step-Durable : {s t : Devices} → Step lib s t → Durable lib s → Durable lib t
  unfolding remove_device update_device_push clear_device_push mark_device_seen
  Step-Durable (saves call device st h clear e) d =
      save_device-IsDurable lib law injective call device st h clear d e
  Step-Durable (removes call name st removed e) d =
      elim (Option-cases (find_device name st.devices)) [
        | inl f ↦ rw (f, remove_device) d
        | inr (id, f) ↦
            rw (f, remove_device)
              (remove_device_by_node_id-IsDurable call id st d (rw (f, remove_device) at e))
      ]
  Step-Durable (unpairs call id st removed e) d =
      unfold unpair_self in remove_device_by_node_id-IsDurable call id st d e
  Step-Durable (updates call id platform token st known clear e) d =
      elim (Option-cases (lookup id st.devices)) [
        | inl f ↦ rw (f, update_device_push) d
        | inr (device, f) ↦
            rw (f, update_device_push)
              (found-IsDurable call id device (set_push_token call.now platform token device)
                (tell (register_token platform token)) st
                (set_push_token-id call.now platform token device) (λ s. (refl, refl)) clear d f
                (rw (f, update_device_push) at e))
      ]
  Step-Durable (clears call id platform token st known clear e) d =
      elim (Option-cases (lookup id st.devices)) [
        | inl f ↦ rw (f, clear_device_push) d
        | inr (device, f) ↦ elim (Bool-cases (has_token platform token device)) [
          | inr g ↦ rw (f, g, clear_device_push) d
          | inl g ↦
              rw (f, g, clear_device_push)
                (found-IsDurable call id device (clear_push_token call.now device)
                  (tell (unregister_token token)) st (clear_push_token-id call.now device)
                  (λ s. (refl, refl)) clear d f (rw (f, g, clear_device_push) at e))
        ]
      ]
  Step-Durable (sees call id st known clear e) d = elim (Option-cases (lookup id st.devices)) [
    | inl f ↦ rw (f, mark_device_seen) d
    | inr (device, f) ↦
        rw (f, mark_device_seen)
          (found-IsDurable call id device (mark_seen call.now device) (λ s. s) st refl
            (λ s. (refl, refl)) clear d f (rw (f, mark_device_seen) at e))
  ]
  Step-Durable (subscribes id st) d = unfold subscribe_device_revocation in d
  Step-Durable (drops id st) d =
      Same-Durable lib (drop_watcher id st) st (drop_watcher-Same id st) d

  Steps-Durable : {s t : Devices} → Steps lib s t → Durable lib s → Durable lib t
  Steps-Durable done d = d
  Steps-Durable (then_step steps step) d = Step-Durable step (Steps-Durable steps d)

  Durable-Loads :
      (devices : Dict Text StoredDevice) (o : Option Persistence)
      → IsDurable lib devices o
      → Loads lib devices o
  Durable-Loads devices none d = tt
  Durable-Loads devices (some p) d = (
    load_devices-All lib (IsKnown devices) p d.agrees.0
        (λ key bytes device found decoded. (d.agrees.2 key bytes device found decoded).1),
    (λ id device found. load_devices-Mem lib p id device (d.agrees.1 id ∙ found)),
  )

  -- Through every sequence of operations that answer without an error, each device is kept once, under
  -- its own id, and a start of the daemon reads the devices that the memory holds and no others: each
  -- device that `load_devices` gives is in memory under its id, and each in memory is given. No row that
  -- can be read is left behind of another device, neither under a hashed key nor under the plain id of
  -- before, nor with other data of a device that is known. The libraries do what
  -- they document, the hash does not collide, an id does not look like a key of the table and a nonce
  -- not like the mark of plain text; the store agrees with the memory at the outset.
  pub Steps-IsDurable :
      {s t : Devices}
      → Steps lib s t
      → IsDurable lib s.devices s.persistence
      → IsDurable lib t.devices t.persistence × Loads lib t.devices t.persistence
  Steps-IsDurable {s} {t} steps d =
      let after : Durable lib t = Steps-Durable steps d in
      (after, Durable-Loads t.devices t.persistence after)
