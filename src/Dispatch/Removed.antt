-- ===== src/Dispatch/Removed.antt =====
-- The removal of a device at the desktop, and the connection that the device has.
use shelly.Prelude.{
  ◌≡◌, refl, true, false, Option, none, some, [], ◌∷◌, Text, Result, ok, err, text_eq,
}
use shelly.Prelude.Dict.{lookup, IsUnique, beq_refl}
use shelly.Persistence.{StoredDevice, StoreError}
use shelly.Devices
use shelly.Devices.{Devices, is_device_paired, find_device, remove_device_by_node_id}
use shelly.Devices.Removal.{IsRemoved, revoked, remove_device_by_node_id-IsOutcome}
use shelly.Dispatch.Messages.{ClientToServerMsg, remove_device, device_list}
use shelly.Dispatch.{Daemon, World, Linked, Connection, reply, is_local_cli, device_summaries}
use shelly.Dispatch.Local.{handle_local, removed_reply, call_of}
use shelly.Dispatch.Peer.{Remote, received}
use shelly.Dispatch.Remote.{remote_round}

module _ {T : Type 0} (linked : Linked T) where
  removed :
      (w : World T) (name id : Text) (st : Devices) (device : StoredDevice)
      → IsUnique st.devices
      → find_device name st.devices ≡ some id
      → (Devices.remove_device linked.store (call_of w) name st).0 ≡ ok (some device)
      → IsRemoved id device st (Devices.remove_device linked.store (call_of w) name st).1
  unfolding Devices.remove_device
  removed w name id st device u found e =
      let outcome = remove_device_by_node_id-IsOutcome linked.store (call_of w) id st u in
      let answer : (remove_device_by_node_id linked.store (call_of w) id st).0 ≡ ok (some device) =
        rw (found, Devices.remove_device) at e in
      rw (found, Devices.remove_device) ((rw answer at outcome).1)

  removed_reply-daemon :
      (c : Connection) (d : Daemon T) (r : Result StoreError (Option StoredDevice) × Devices)
      (device : StoredDevice)
      → r.0 ≡ ok (some device)
      → removed_reply r c d
        ≡ reply (device_list (device_summaries r.1) ∷ []) c (record d { devices = r.1 })
  removed_reply-daemon c d (ok (some other), devices) device e = refl
  removed_reply-daemon c d (ok none, devices) device e = absurd (cc e)
  removed_reply-daemon c d (err error, devices) device e = absurd (cc e)

  -- Where the desktop removes a device and is told that it is done, the watchers of the device's
  -- connections are woken, and the next message that one of these connections reads ends it and has no
  -- effect, whatever the message is: it is not answered and the daemon stays as the removal left it.
  -- The name stands for the peer's device, the map of the devices has one entry for an id, and the
  -- connection counts as paired and is not waiting for the desktop.
  pub remove_device-remote_round :
      (w later : World T) (c : Connection) (r : Remote) (name : Text) (message : ClientToServerMsg)
      (d : Daemon T) (device : StoredDevice)
      → IsUnique d.devices.devices
      → is_local_cli c.client_kind ≡ true
      → find_device name d.devices.devices ≡ some r.remote_node_id
      → (Devices.remove_device linked.store (call_of w) name d.devices).0 ≡ ok (some device)
      → r.paired ≡ true
      → r.waiting ≡ none
      → (lookup r.remote_node_id
            (handle_local linked w c (remove_device name) d).daemon.devices.device_revocations
          ≡ revoked (lookup r.remote_node_id d.devices.device_revocations))
        × (remote_round linked later r
              (received message)
              (handle_local linked w c (remove_device name) d).daemon
            ≡ record {
              sent = [];
              connection = r;
              daemon = (handle_local linked w c (remove_device name) d).daemon;
              goes_on = false;
            })
  unfolding handle_local remote_round
  remove_device-remote_round w later c r name message d device u desktop found answer paired idle =
      let gone = removed w name r.remote_node_id d.devices device u found answer in
      let after = Devices.remove_device linked.store (call_of w) name d.devices in
      let done = removed_reply-daemon c d after device answer in
      simp (desktop, done)
        (
          simp (beq_refl r.remote_node_id) at (gone.revocations r.remote_node_id),
          simp (idle, paired, gone.unpaired, remote_round) refl,
        )
