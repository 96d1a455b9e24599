-- ===== src/Devices/Removal.antt =====
-- The removal of a device, and the removal of its token.
use shelly.Prelude.{
  ℕ, ◌+◌, ◌%◌, ◌^◌, ◌≡◌, refl, sym, ap, ◌∙◌, Bool, true, false, Option, none, some, List, [], ◌∷◌,
  ◌++◌, Text, arith, if◌then◌else◌, Option-cases, Result-cases, Bool-cases, inl, inr, Result, ok,
  err, text_eq, text_beq, text_beq_iff,
}
use shelly.Prelude.Dict.{
  IsUnique, lookup, insert, remove, lookup-insert, lookup-insert_self, lookup-remove, beq_refl,
}
use mathlib.Core.List.{append-nil}
use shelly.Protocol.{PushPlatform}
use shelly.Persistence.{
  Bytes, Libraries, Persistence, StoredDevice, StoreError, clear_push_token, database, save_payload,
  commit,
}
use shelly.Persistence
use shelly.Push.{PushCommand, unregister_token}
use shelly.Devices.{
  Devices, Call, Revocations, has_token, write_store, is_device_paired, revoke_device_connections,
  unregister, forget_device, remove_device_by_node_id, change_device, clear_device_push,
}

-- The channel after the revocation of its receivers.
abbrev pub revoked : Option Revocations → Option Revocations
revoked none = none
revoked (some channel) = some (record channel { version = (channel.version + 1) % 2 ^ 64 })

-- What the push worker is told of the token of a device.
abbrev pub told : Option Text → List PushCommand
told none = []
told (some token) = unregister_token token ∷ []

-- The device is gone, its connections are revoked and its token is given up; nothing else changes.
pub record IsRemoved (id : Text) (device : StoredDevice) (s t : Devices) : Type 0 where
  pub unpaired : is_device_paired id t ≡ false
  pub others :
      (j : Text) → lookup j t.devices ≡ (if text_beq id j then none else lookup j s.devices)
  pub revocations :
      (j : Text)
      → lookup j t.device_revocations ≡ (
          if text_beq id j
          then revoked (lookup j s.device_revocations)
          else lookup j s.device_revocations)
  pub push : t.push ≡ s.push ++ told device.push_token

revoked-lookup :
    (id j : Text) (st : Devices)
    → lookup j (revoke_device_connections id st).device_revocations ≡ (
        if text_beq id j
        then revoked (lookup j st.device_revocations)
        else lookup j st.device_revocations)
unfolding revoke_device_connections
revoked-lookup id j st = elim (Option-cases (lookup id st.device_revocations)) [
  | inl e ↦ rw (e, revoke_device_connections) (ground (arith, text_beq_iff id j))
  | inr (channel, e) ↦
      rw (e, revoke_device_connections)
        (ground (
          arith,
          text_beq_iff id j,
          lookup-insert id j (record channel { version = (channel.version + 1) % 2 ^ 64 })
              st.device_revocations,
        ))
]

revoke-rest :
    (id : Text) (st : Devices)
    → ((revoke_device_connections id st).devices ≡ st.devices)
      × ((revoke_device_connections id st).push ≡ st.push)
unfolding revoke_device_connections
revoke-rest id st = elim (Option-cases (lookup id st.device_revocations)) [
  | inl e ↦ rw (e, revoke_device_connections) (refl, refl)
  | inr (channel, e) ↦ rw (e, revoke_device_connections) (refl, refl)
]

unregister-push :
    (token : Option Text) (st : Devices)
    → ((unregister token st).push ≡ st.push ++ told token)
      × ((unregister token st).devices ≡ st.devices)
      × ((unregister token st).device_revocations ≡ st.device_revocations)
unregister-push none st = (sym (append-nil st.push), refl, refl)
unregister-push (some token) st = (refl, refl, refl)

forget_device-IsRemoved :
    (id : Text) (device : StoredDevice) (st : Devices)
    → IsUnique st.devices
    → IsRemoved id device st (forget_device id device st).1
unfolding forget_device is_device_paired
forget_device-IsRemoved id device st u = record {
  unpaired = rw (devices_after, lookup-remove id id st.devices u, beq_refl id) refl;
  others = λ j. rw devices_after (lookup-remove id j st.devices u);
  revocations = λ j. rw (unregister-push device.push_token gone).2 (revoked-lookup id j less);
  push =
      (unregister-push device.push_token gone).0
      ∙ ap (λ p. p ++ told device.push_token) (revoke-rest id less).1;
}
  where
    less : Devices
    less = record st { devices = remove id st.devices }

    gone : Devices
    gone = revoke_device_connections id less

    devices_after : (unregister device.push_token gone).devices ≡ remove id st.devices
    devices_after = (unregister-push device.push_token gone).1 ∙ (revoke-rest id less).0

-- What each answer of a removal says of the state after it.
abbrev pub IsOutcome : Text → Devices → Result StoreError (Option StoredDevice) → Devices → Type 0
IsOutcome id s (ok none) t = (lookup id s.devices ≡ none) × (t ≡ s)
IsOutcome id s (ok (some device)) t = (lookup id s.devices ≡ some device) × IsRemoved id device s t
IsOutcome id s (err e) t =
    (t.devices ≡ s.devices) × (t.device_revocations ≡ s.device_revocations) × (t.push ≡ s.push)

module _ (lib : Libraries) where
  -- A removal is whole or is not: where it answers with the device, that device was paired and is no
  -- longer, its connections are revoked, the push worker is told to give up its token, and nothing else
  -- changes; where it answers with no device, there was none and nothing changes; where the store
  -- fails, the memory, the channels and the push worker's queue are as before. The map has one entry
  -- for an id.
  pub remove_device_by_node_id-IsOutcome :
      (call : Call) (id : Text) (st : Devices)
      → IsUnique st.devices
      → IsOutcome id st
          (remove_device_by_node_id lib call id st).0
          (remove_device_by_node_id lib call id st).1
  unfolding remove_device_by_node_id
  remove_device_by_node_id-IsOutcome call id st u = elim (Option-cases (lookup id st.devices)) [
    | inl f ↦ rw (f, remove_device_by_node_id) (f, refl)
    | inr (device, f) ↦
        elim (Result-cases
          (write_store (Persistence.remove_device lib call.commits id) st.persistence).0) [
            | inr (error, g) ↦ rw (f, g, remove_device_by_node_id) (refl, refl, refl)
            | inl (done, g) ↦
                let written : Devices = record st {
                  persistence =
                      (write_store (Persistence.remove_device lib call.commits id)
                        st.persistence).1;
                } in
                let r = forget_device-IsRemoved id device written u in
                rw (f, g, remove_device_by_node_id)
                  (
                    f,
                    record {
                      unpaired = r.unpaired;
                      others = r.others;
                      revocations = r.revocations;
                      push = r.push;
                    },
                  )
          ]
  ]

  save_payload-err :
      (commits : Bool) (payload : Result StoreError Bytes) (write : Bytes → Persistence)
      (p : Persistence) {e : StoreError}
      → (save_payload commits payload write p).0 ≡ err e
      → (save_payload commits payload write p).1 ≡ p
  unfolding save_payload commit
  save_payload-err commits (err e) write p h = refl
  save_payload-err false (ok payload) write p h = refl
  save_payload-err true (ok payload) write p h = absurd (cc h)

  save_device-err :
      (commits : Bool) (nonce : Bytes) (device : StoredDevice) (o : Option Persistence)
      {e : StoreError}
      → (write_store (Persistence.save_device lib commits nonce device) o).0 ≡ err e
      → (write_store (Persistence.save_device lib commits nonce device) o).1 ≡ o
  unfolding Persistence.save_device
  save_device-err commits nonce device none h = absurd (cc h)
  save_device-err commits nonce device (some p) h = ap some (save_payload-err commits _ _ p h)

  cleared-has_token :
      (now : ℕ) (platform : PushPlatform) (token : Text) (device : StoredDevice)
      → has_token platform token (clear_push_token now device) ≡ false
  unfolding clear_push_token has_token
  cleared-has_token now platform token device = refl

  clear_device_push_unmatched :
      (call : Call) (id : Text) (platform : PushPlatform) (token : Text) (device : StoredDevice)
      (st : Devices)
      → lookup id st.devices ≡ some device
      → has_token platform token device ≡ false
      → clear_device_push lib call id platform token st ≡ (ok true, st)
  unfolding clear_device_push
  clear_device_push_unmatched call id platform token device st f g =
      rw (f, g, clear_device_push) refl

  -- Where the removal of a token fails in the store, the device in memory has no token any more: the
  -- same call, tried again right after the failure, answers that all is done, while the push worker was
  -- not told and the store keeps its row.
  pub clear_device_push_retry :
      (call retry : Call) (id : Text) (platform : PushPlatform) (token : Text) (st : Devices)
      (e : StoreError)
      → (clear_device_push lib call id platform token st).0 ≡ err e
      → (clear_device_push lib retry id platform token
            (clear_device_push lib call id platform token st).1
          ≡ (ok true, (clear_device_push lib call id platform token st).1))
        × ((clear_device_push lib call id platform token st).1.push ≡ st.push)
        × ((clear_device_push lib call id platform token st).1.persistence ≡ st.persistence)
  unfolding clear_device_push change_device
  clear_device_push_retry call retry id platform token st e h =
      elim (Option-cases (lookup id st.devices)) [
        | inl f ↦ absurd (cc (rw (f, clear_device_push) at h))
        | inr (device, f) ↦ elim (Bool-cases (has_token platform token device)) [
          | inr g ↦ absurd (cc (rw (f, g, clear_device_push) at h))
          | inl g ↦
              elim (Result-cases
                (write_store
                  (Persistence.save_device lib call.commits call.nonce
                    (clear_push_token call.now device))
                  st.persistence).0) [
                    | inl (done, k) ↦ absurd (cc (rw (f, g, k, clear_device_push) at h))
                    | inr (error, k) ↦
                        let cleared : StoredDevice = clear_push_token call.now device in
                        let failed : Devices = record st {
                          devices = insert id cleared st.devices;
                        } in
                        let state : (clear_device_push lib call id platform token st).1 ≡ failed =
                          rw (f, g, k, clear_device_push)
                            (ap (λ o. record failed { persistence = o })
                              (save_device-err call.commits call.nonce cleared st.persistence k)) in
                        rw state (
                          clear_device_push_unmatched retry id platform token cleared failed
                              (lookup-insert_self id cleared st.devices)
                              (cleared-has_token call.now platform token device),
                          refl,
                          refl,
                        )
                  ]
        ]
      ]
