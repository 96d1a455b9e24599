-- ===== src/Dispatch/Others.antt =====
-- A phone reaches its own device only.
use shelly.Prelude.{
  ◌≡◌, refl, ap, false, Option, none, some, Text, arith, Bool-cases, Option-cases, Result-cases,
  inl, inr, Result, ok, err, text_eq, text_beq,
}
use shelly.Prelude.Dict.{Dict, lookup, insert, IsUnique, lookup-insert}
use shelly.Protocol.{PushPlatform}
use shelly.Persistence.{Libraries, StoredDevice, StoreError}
use shelly.Persistence
use shelly.Devices.{
  Devices, Call, write_store, has_token, drop_watcher, change_device, save_device,
  update_device_push, clear_device_push, mark_device_seen, unpair_self,
}
use shelly.Devices.Removal.{IsOutcome, remove_device_by_node_id-IsOutcome}

-- Every entry but the one of `id` is as before.
abbrev pub Spares : Text → (before after : Dict Text StoredDevice) → Type 0
Spares id s t = (j : Text) → text_beq id j ≡ false → lookup j t ≡ lookup j s

Spares-insert :
    (id : Text) (device : StoredDevice) (s t : Dict Text StoredDevice)
    → t ≡ insert id device s
    → Spares id s t
Spares-insert id device s t e j other = rw (e, lookup-insert id j device s, other) refl

pub Spares-eq : (id : Text) (s t : Dict Text StoredDevice) → t ≡ s → Spares id s t
Spares-eq id s t e j other = ap (lookup j) e

module _ (lib : Libraries) where
  change_device-devices :
      (call : Call) (id : Text) (device : StoredDevice) (told : Devices → Devices) (st : Devices)
      → ((s : Devices) → (told s).devices ≡ s.devices)
      → (change_device lib call id device told st).1.devices ≡ insert id device st.devices
  unfolding change_device
  change_device-devices call id device told st quiet =
      elim (Result-cases
        (write_store (Persistence.save_device lib call.commits call.nonce device)
          st.persistence).0) [
            | inl (u, e) ↦ rw (e, change_device) (quiet _)
            | inr (error, e) ↦ rw (e, change_device) refl
          ]

  pub save_device-Spares :
      (call : Call) (device : StoredDevice) (st : Devices)
      → Spares device.device_node_id st.devices (save_device lib call device st).1.devices
  unfolding save_device
  save_device-Spares call device st =
      elim (Result-cases
        (write_store (Persistence.save_device lib call.commits call.nonce device)
          st.persistence).0) [
            | inl (u, e) ↦
                rw (e, save_device) (Spares-insert device.device_node_id device st.devices _ refl)
            | inr (error, e) ↦
                rw (e, save_device) (Spares-eq device.device_node_id st.devices _ refl)
          ]

  pub update_device_push-Spares :
      (call : Call) (id : Text) (platform : PushPlatform) (token : Text) (st : Devices)
      → Spares id st.devices (update_device_push lib call id platform token st).1.devices
  unfolding update_device_push
  update_device_push-Spares call id platform token st = elim (Option-cases (lookup id st.devices)) [
    | inl e ↦ rw (e, update_device_push) (Spares-eq id st.devices st.devices refl)
    | inr (device, e) ↦
        rw (e, update_device_push)
          (Spares-insert id _ st.devices _ (change_device-devices call id _ _ st (λ s. refl)))
  ]

  pub mark_device_seen-Spares :
      (call : Call) (id : Text) (st : Devices)
      → Spares id st.devices (mark_device_seen lib call id st).1.devices
  unfolding mark_device_seen
  mark_device_seen-Spares call id st = elim (Option-cases (lookup id st.devices)) [
    | inl e ↦ rw (e, mark_device_seen) (Spares-eq id st.devices st.devices refl)
    | inr (device, e) ↦
        rw (e, mark_device_seen)
          (Spares-insert id _ st.devices _ (change_device-devices call id _ _ st (λ s. refl)))
  ]

  pub clear_device_push-Spares :
      (call : Call) (id : Text) (platform : PushPlatform) (token : Text) (st : Devices)
      → Spares id st.devices (clear_device_push lib call id platform token st).1.devices
  unfolding clear_device_push
  clear_device_push-Spares call id platform token st = elim (Option-cases (lookup id st.devices)) [
    | inl e ↦ rw (e, clear_device_push) (Spares-eq id st.devices st.devices refl)
    | inr (device, e) ↦ elim (Bool-cases (has_token platform token device)) [
      | inl f ↦
          rw (e, f, clear_device_push)
            (Spares-insert id _ st.devices _ (change_device-devices call id _ _ st (λ s. refl)))
      | inr f ↦ rw (e, f, clear_device_push) (Spares-eq id st.devices st.devices refl)
    ]
  ]

  IsOutcome-Spares :
      (id : Text) (s t : Devices) (r : Result StoreError (Option StoredDevice))
      → IsOutcome id s r t
      → Spares id s.devices t.devices
  IsOutcome-Spares id s t (ok none) h = rw h.1 (Spares-eq id s.devices s.devices refl)
  IsOutcome-Spares id s t (ok (some device)) h = λ j other. rw (h.1.others j, other) refl
  IsOutcome-Spares id s t (err e) h = Spares-eq id s.devices t.devices h.0

  pub unpair_self-Spares :
      (call : Call) (id : Text) (st : Devices)
      → IsUnique st.devices
      → Spares id st.devices (unpair_self lib call id st).1.devices
  unfolding unpair_self
  unpair_self-Spares call id st u =
      IsOutcome-Spares id st _ _ (remove_device_by_node_id-IsOutcome lib call id st u)

pub drop_watcher-devices : (id : Text) (st : Devices) → (drop_watcher id st).devices ≡ st.devices
unfolding drop_watcher
drop_watcher-devices id st = ground arith
