-- ===== src/Dispatch/Approved.antt =====
-- A device is paired over a phone's connection only where the desktop has approved it.
use shelly.Prelude.{
  ◌≡◌, refl, sym, ap, Bool, true, false, not, ◌&&◌, Option, none, some, Text, Bool-cases,
  Option-cases, Result-cases, ◌⊎◌, inl, inr, Result, ok, err, text_eq, text_beq, text_beq_iff,
}
use shelly.Prelude.Dict.{Dict, lookup, insert, IsUnique, lookup-insert}
use shelly.Persistence.{StoredDevice, StoreError, Libraries}
use shelly.Persistence
use shelly.Pairing.{
  PairingManager, PendingPairingApproval, Ending, answered, sender_dropped, timed_out, wait,
}
use shelly.Devices
use shelly.Devices.{
  Devices, Call, write_store, is_device_paired, save_device, update_device_push, clear_device_push,
  remove_device_by_node_id,
}
use shelly.Dispatch.{Daemon, World, Linked, new_device, iroh_node_id}
use shelly.Dispatch.Local.{call_of}
use shelly.Dispatch.Peer.{Remote, RemoteInput, received, decided, revoked}
use shelly.Dispatch.Answers.{paired_reply, decided_reply}
use shelly.Dispatch.Remote.{remote_round}
use shelly.Dispatch.Effects.{IsKept, handle_remote-kept, watch-devices}
use shelly.Dispatch.Others.{
  Spares, update_device_push-Spares, clear_device_push-Spares, unpair_self-Spares,
}

-- What stands behind a new device: the desktop's approval of the request that the connection waits
-- with.
abbrev pub IsApproved : {T : Type 0} → World T → Remote → RemoteInput → Text → StoredDevice → Type 0
IsApproved w c happened id device =
    (pending : PendingPairingApproval) × (name : Text) × (c.waiting ≡ some (pending, name))
    × (happened ≡ decided (answered true))
    × (id ≡ c.remote_node_id)
    × (device ≡ new_device w.now name c.remote_node_id)

absent-Spares :
    (id j : Text) (before after : Dict Text StoredDevice)
    → lookup j before ≡ none
    → Spares id before after
    → (lookup id before ≡ none → after ≡ before)
    → lookup j after ≡ none
absent-Spares id j before after absent spares idle = elim (Bool-cases (text_beq id j)) [
  | inr other ↦ rw (spares j other) absent
  | inl same ↦ let e : id ≡ j = (text_beq_iff id j).0 same in rw (idle (rw e absent)) absent
]

module _ {T : Type 0} (linked : Linked T) where
  absent-IsKept :
      (w : World T) (c : Remote) (d : Daemon T) (j : Text)
      → IsUnique d.devices.devices
      → lookup j d.devices.devices ≡ none
      → IsKept linked w c d (λ after. lookup j after ≡ none)
  unfolding update_device_push clear_device_push Devices.unpair_self remove_device_by_node_id
  absent-IsKept w c d j u absent =
      let id = c.remote_node_id in
      let before = d.devices.devices in
      record {
        same = absent;
        updated = λ platform token.
            absent-Spares id j before _ absent
              (update_device_push-Spares linked.store (call_of w) id platform token d.devices)
              (λ e. rw (e, update_device_push) refl);
        cleared = λ platform token.
            absent-Spares id j before _ absent
              (clear_device_push-Spares linked.store (call_of w) id platform token d.devices)
              (λ e. rw (e, clear_device_push) refl);
        unpaired =
            absent-Spares id j before _ absent
              (unpair_self-Spares linked.store (call_of w) id d.devices u)
              (λ e. rw (e, remove_device_by_node_id) refl);
      }

  paired_reply-devices :
      (node_id : Option Text) (r : Result StoreError (Unit {0}) × Devices) (c : Remote)
      (d : Daemon T)
      → (paired_reply node_id r c d).daemon.devices.devices ≡ r.1.devices
  paired_reply-devices node_id (ok u, devices) c d = watch-devices c devices
  paired_reply-devices node_id (err e, devices) c d = refl

save_device-devices :
    (lib : Libraries) (call : Call) (device : StoredDevice) (st : Devices)
    → ((save_device lib call device st).1.devices ≡ st.devices)
      ⊎ ((save_device lib call device st).1.devices
          ≡ insert device.device_node_id device st.devices)
unfolding save_device
save_device-devices lib call device st =
    elim (Result-cases
      (write_store (Persistence.save_device lib call.commits call.nonce device) st.persistence).0) [
        | inl (u, e) ↦ rw (e, save_device) (inr refl)
        | inr (error, e) ↦ rw (e, save_device) (inl refl)
      ]

-- The entry of a device that was not there and is, behind at most one insertion.
inserted :
    (id j : Text) (added device : StoredDevice) (before after : Dict Text StoredDevice)
    → (after ≡ before) ⊎ (after ≡ insert id added before)
    → lookup j before ≡ none
    → lookup j after ≡ some device
    → (j ≡ id) × (device ≡ added)
inserted id j added device before after (inl e) absent found = absurd (cc (rw (e, absent) at found))
inserted id j added device before after (inr e) absent found =
    let found' = rw (e, lookup-insert id j added before) at found in
    elim (Bool-cases (text_beq id j)) [
      | inl same ↦ (sym ((text_beq_iff id j).0 same), cc (rw same at found'))
      | inr other ↦ absurd (cc (rw (other, absent) at found'))
    ]

module _ {T : Type 0} (linked : Linked T) where
  decided_reply-devices :
      (w : World T) (name : Text) (decision : Bool × PairingManager) (c : Remote) (d : Daemon T)
      (j : Text) (device : StoredDevice)
      → lookup j d.devices.devices ≡ none
      → lookup j (decided_reply linked w name decision c d).daemon.devices.devices ≡ some device
      → (decision.0 ≡ true)
        × (j ≡ c.remote_node_id)
        × (device ≡ new_device w.now name c.remote_node_id)
  unfolding new_device
  decided_reply-devices w name (false, pairing) c d j device absent found =
      absurd (cc (rw absent at found))
  decided_reply-devices w name (true, pairing) c d j device absent found =
      let added = new_device w.now name c.remote_node_id in
      let saved = save_device linked.store (call_of w) added d.devices in
      let stored =
        rw
          (paired_reply-devices linked (iroh_node_id d.iroh_endpoint) saved c
            (record d { pairing = pairing }))
          at found in
      let r =
        inserted c.remote_node_id j added device d.devices.devices saved.1.devices
          (save_device-devices linked.store (call_of w) added d.devices) absent stored in
      (refl, r.0, r.1)

  wait-approved :
      (pending : PendingPairingApproval) (ending : Ending) (m : PairingManager)
      → (wait pending ending m).0 ≡ true
      → ending ≡ answered true
  unfolding wait
  wait-approved pending (answered true) m e = refl
  wait-approved pending (answered false) m e = absurd (cc e)
  wait-approved pending sender_dropped m e = absurd (cc e)
  wait-approved pending timed_out m e = absurd (cc e)

  -- A device that is paired behind a round of a phone's connection and was not paired before is the
  -- phone itself, with the name that it has given, and the round is the desktop's approval of the
  -- request that the connection was waiting with: no message alone, and no other end of the wait, pairs
  -- a device. The map of the devices has one entry for an id.
  pub remote_round-IsApproved :
      (w : World T) (c : Remote) (happened : RemoteInput) (d : Daemon T) (j : Text)
      (device : StoredDevice)
      → IsUnique d.devices.devices
      → lookup j d.devices.devices ≡ none
      → lookup j (remote_round linked w c happened d).daemon.devices.devices ≡ some device
      → IsApproved w c happened j device
  unfolding remote_round
  remote_round-IsApproved w c (received message) d j device u absent found =
      let still : lookup j (remote_round linked w c (received message) d).daemon.devices.devices
          ≡ none =
        elim (Option-cases c.waiting) [
          | inr (pending, e) ↦ simp (e, remote_round) absent
          | inl e ↦
              elim (Bool-cases (c.paired && not (is_device_paired c.remote_node_id d.devices))) [
                | inl f ↦ simp (e, f, remote_round) absent
                | inr f ↦
                    simp (e, f, remote_round)
                      (handle_remote-kept linked (λ after. lookup j after ≡ none) w c message d
                        (absent-IsKept linked w c d j u absent))
              ]
        ] in
      absurd (cc (rw still at found))
  remote_round-IsApproved w c revoked d j device u absent found = elim (Option-cases c.waiting) [
    | inl e ↦ absurd (cc (rw absent at (simp (e, remote_round) at found)))
    | inr (pending, e) ↦ absurd (cc (rw absent at (simp (e, remote_round) at found)))
  ]
  remote_round-IsApproved w c (decided ending) d j device u absent found =
      elim (Option-cases c.waiting) [
        | inl e ↦ absurd (cc (rw absent at (simp (e, remote_round) at found)))
        | inr ((pending, name), e) ↦
            let r =
              decided_reply-devices w name (wait pending ending d.pairing)
                (record c { waiting = none }) d j device absent (simp (e, remote_round) at found) in
            (pending, name, e, ap decided (wait-approved pending ending d.pairing r.0), r.1, r.2)
      ]
