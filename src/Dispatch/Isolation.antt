-- ===== src/Dispatch/Isolation.antt =====
-- A round of the loop over the messages of a phone changes no device but the phone's own.
use shelly.Prelude.{
  refl, sym, subst, Bool, true, false, not, ◌&&◌, Option, Text, Bool-cases, Option-cases, inl, inr,
  Result, ok, err, text_eq,
}
use shelly.Prelude.Dict.{Dict, IsUnique}
use shelly.Persistence.{StoredDevice, StoreError}
use shelly.Pairing.{PairingManager, wait}
use shelly.Devices.{Devices, is_device_paired}
use shelly.Dispatch.{Daemon, World, Linked, new_device, iroh_node_id}
use shelly.Dispatch.Local.{call_of}
use shelly.Dispatch.Peer.{Remote, RemoteInput, received, decided, revoked}
use shelly.Dispatch.Answers.{paired_reply, decided_reply}
use shelly.Dispatch.Remote.{remote_round}
use shelly.Dispatch.Effects.{IsKept, handle_remote-kept, watch-devices}
use shelly.Dispatch.Others.{
  Spares, Spares-eq, save_device-Spares, update_device_push-Spares, clear_device_push-Spares,
  unpair_self-Spares,
}

module _ {T : Type 0} (linked : Linked T) where
  own-IsKept :
      (w : World T) (c : Remote) (d : Daemon T)
      → IsUnique d.devices.devices
      → IsKept linked w c d (Spares c.remote_node_id d.devices.devices)
  own-IsKept w c d u = record {
    same = Spares-eq c.remote_node_id d.devices.devices d.devices.devices refl;
    updated = λ platform token.
        update_device_push-Spares linked.store (call_of w) c.remote_node_id platform token
          d.devices;
    cleared = λ platform token.
        clear_device_push-Spares linked.store (call_of w) c.remote_node_id platform token d.devices;
    unpaired = unpair_self-Spares linked.store (call_of w) c.remote_node_id d.devices u;
  }

  paired_reply-Spares :
      (node_id : Option Text) (r : Result StoreError (Unit {0}) × Devices) (c : Remote)
      (d : Daemon T) (before : Dict Text StoredDevice)
      → Spares c.remote_node_id before r.1.devices
      → Spares c.remote_node_id before (paired_reply node_id r c d).daemon.devices.devices
  paired_reply-Spares node_id (ok u, devices) c d before h =
      subst (Spares c.remote_node_id before) (sym (watch-devices c devices)) h
  paired_reply-Spares node_id (err e, devices) c d before h = h

  decided_reply-Spares :
      (w : World T) (name : Text) (decision : Bool × PairingManager) (c : Remote) (d : Daemon T)
      → Spares c.remote_node_id d.devices.devices
          (decided_reply linked w name decision c d).daemon.devices.devices
  unfolding new_device
  decided_reply-Spares w name (false, pairing) c d =
      Spares-eq c.remote_node_id d.devices.devices d.devices.devices refl
  decided_reply-Spares w name (true, pairing) c d =
      paired_reply-Spares (iroh_node_id d.iroh_endpoint) _ c (record d { pairing = pairing })
        d.devices.devices
        (save_device-Spares linked.store (call_of w) (new_device w.now name c.remote_node_id)
          d.devices)

  -- Whatever a phone sends, and however the desktop answers, a round of its connection changes no
  -- paired device but the one with the peer's own id: no device of another id is added, removed or
  -- altered. The map of the devices has one entry for an id.
  pub remote_round-Spares :
      (w : World T) (c : Remote) (happened : RemoteInput) (d : Daemon T)
      → IsUnique d.devices.devices
      → Spares c.remote_node_id d.devices.devices
          (remote_round linked w c happened d).daemon.devices.devices
  unfolding remote_round
  remote_round-Spares w c (received message) d u = elim (Option-cases c.waiting) [
    | inr (pending, e) ↦ simp (e, remote_round) (own-IsKept w c d u).same
    | inl e ↦ elim (Bool-cases (c.paired && not (is_device_paired c.remote_node_id d.devices))) [
      | inl f ↦ simp (e, f, remote_round) (own-IsKept w c d u).same
      | inr f ↦
          simp (e, f, remote_round)
            (handle_remote-kept linked (Spares c.remote_node_id d.devices.devices) w c message d
              (own-IsKept w c d u))
    ]
  ]
  remote_round-Spares w c (decided ending) d u = elim (Option-cases c.waiting) [
    | inl e ↦ simp (e, remote_round) (own-IsKept w c d u).same
    | inr ((pending, name), e) ↦
        simp (e, remote_round) (decided_reply-Spares w name (wait pending ending d.pairing) _ d)
  ]
  remote_round-Spares w c revoked d u = elim (Option-cases c.waiting) [
    | inl e ↦ simp (e, remote_round) (own-IsKept w c d u).same
    | inr (pending, e) ↦ simp (e, remote_round) (own-IsKept w c d u).same
  ]
