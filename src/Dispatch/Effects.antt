-- ===== src/Dispatch/Effects.antt =====
-- What a message of a phone can do to the devices: nothing, or one of the three operations on the
-- phone's own device.
use shelly.Prelude.{
  ℕ, ◌≡◌, refl, sym, ap, subst, Bool, true, false, Option, none, some, Text, Bool-cases,
  Option-cases, inl, inr, Result, ok, err, ltb, text_eq,
}
use shelly.Prelude.Dict.{Dict}
use shelly.Persistence.{StoredDevice, StoreError}
use shelly.Pairing.{PairingError, PendingPairingApproval}
use shelly.Devices
use shelly.Protocol.{PushPlatform}
use shelly.Devices.{
  Devices, is_device_paired, subscribe_device_revocation, save_device, update_device_push,
  clear_device_push,
}
use shelly.Dispatch.Messages.{
  ClientToServerMsg, hello, list_sessions, create_session, attach_session, detach_session,
  kill_session, input, resize, ping, begin_pairing, approve_pairing, pair_with_code, list_devices,
  remove_device, register_push_token, agent_state_event, subscribe_sessions, unregister_push_token,
  unpair_self, contract_version,
}
use shelly.Dispatch.{Daemon, World, Linked, Connection, Reply}
use shelly.Dispatch.Requests.{list_sessions_reply, subscribe_sessions_reply}
use shelly.Dispatch.Local.{call_of}
use shelly.Dispatch.Peer.{Remote, unwatch, watch, require_paired, shared_reply}
use shelly.Dispatch.Answers.{
  approval_reply, pair_under, pair_with_code_reply, unpaired_reply, token_reply,
  pairing_peer_identity_error,
}
use shelly.Dispatch.Remote.{handle_remote}
use shelly.Dispatch.Kept.{
  Keeps, attach_session_reply-Keeps, create_session_reply-Keeps, kill_session_reply-Keeps,
  materialize-Keeps, input_session-Keeps, resize_session-Keeps,
}
use shelly.Dispatch.Others.{drop_watcher-devices}

unwatch-devices :
    (seen : Option ℕ) (id : Text) (st : Devices) → (unwatch seen id st).devices ≡ st.devices
unwatch-devices none id st = refl
unwatch-devices (some seen) id st = drop_watcher-devices id st

pub watch-devices : (c : Remote) (st : Devices) → (watch c st).1.devices ≡ st.devices
unfolding watch subscribe_device_revocation
watch-devices c st = unwatch-devices c.revocation c.remote_node_id _

-- A property of the devices that holds before a message, and behind each of the operations.
pub record IsKept {T : Type 0} (linked : Linked T) (w : World T) (c : Remote) (d : Daemon T)
    (P : Dict Text StoredDevice → Type 0) : Type 0 where
  pub same : P d.devices.devices
  pub updated :
      (platform : PushPlatform) (token : Text)
      → P
          (update_device_push linked.store
            (call_of w)
            c.remote_node_id
            platform
            token
            d.devices).1.devices
  pub cleared :
      (platform : PushPlatform) (token : Text)
      → P
          (clear_device_push linked.store
            (call_of w)
            c.remote_node_id
            platform
            token
            d.devices).1.devices
  pub unpaired :
      P (Devices.unpair_self linked.store (call_of w) c.remote_node_id d.devices).1.devices

module _ {T : Type 0} (P : Dict Text StoredDevice → Type 0) where
  require_paired-kept :
      (b : Bool) (c : Remote) (d : Daemon T) (r : Reply T Remote)
      → P d.devices.devices
      → P r.daemon.devices.devices
      → P (require_paired b c d r).daemon.devices.devices
  require_paired-kept true c d r p h = h
  require_paired-kept false c d r p h = p

  -- A request on sessions.
  shared-kept :
      (b : Bool) (c : Remote) (d : Daemon T) (r : Reply T Connection)
      → P d.devices.devices
      → Keeps d r.daemon
      → P (require_paired b c d (shared_reply c r)).daemon.devices.devices
  shared-kept b c d r p h =
      require_paired-kept b c d (shared_reply c r) p (subst P (sym (ap (λ st. st.devices) h.0)) p)

  token_reply-kept :
      (r : Result StoreError Bool × Devices) (c : Remote) (d : Daemon T)
      → P r.1.devices
      → P (token_reply r c d).daemon.devices.devices
  token_reply-kept (ok true, devices) c d h = h
  token_reply-kept (ok false, devices) c d h = h
  token_reply-kept (err e, devices) c d h = h

  unpaired_reply-kept :
      (r : Result StoreError (Option StoredDevice) × Devices) (c : Remote) (d : Daemon T)
      → P r.1.devices
      → P (unpaired_reply r c d).daemon.devices.devices
  unpaired_reply-kept (ok device, devices) c d h =
      subst P (sym (unwatch-devices c.revocation c.remote_node_id devices)) h
  unpaired_reply-kept (err e, devices) c d h = h

  approval_reply-kept :
      (sas name : Text) (answer : Result PairingError PendingPairingApproval) (c : Remote)
      (d : Daemon T)
      → P d.devices.devices
      → P (approval_reply sas name answer c d).daemon.devices.devices
  approval_reply-kept sas name (ok pending) c d p = p
  approval_reply-kept sas name (err e) c d p = p

  pair_under-kept :
      (w : World T) (code name : Text) (sas : Option Text) (c : Remote) (d : Daemon T)
      → P d.devices.devices
      → P (pair_under w code name sas c d).daemon.devices.devices
  pair_under-kept w code name none c d p = p
  pair_under-kept w code name (some sas) c d p = approval_reply-kept sas name _ c _ p

module _ {T : Type 0} (linked : Linked T) (P : Dict Text StoredDevice → Type 0) where
  pair_with_code_reply-kept :
      (w : World T) (code name claimed : Text) (c : Remote) (d : Daemon T)
      → P d.devices.devices
      → P (pair_with_code_reply linked w code name claimed c d).daemon.devices.devices
  unfolding pair_with_code_reply
  pair_with_code_reply-kept w code name claimed c d p =
      elim (Bool-cases (ltb c.protocol_version contract_version)) [
        | inl e ↦ rw (e, pair_with_code_reply) p
        | inr e ↦ elim (Option-cases (pairing_peer_identity_error c.remote_node_id claimed)) [
          | inr (message, f) ↦ rw (e, f, pair_with_code_reply) p
          | inl f ↦ rw (e, f, pair_with_code_reply) (pair_under-kept P w _ name _ c d p)
        ]
      ]

  pub handle_remote-kept :
      (w : World T) (c : Remote) (message : ClientToServerMsg) (d : Daemon T)
      → IsKept linked w c d P
      → P (handle_remote linked w c message d).daemon.devices.devices
  unfolding handle_remote list_sessions_reply subscribe_sessions_reply
  handle_remote-kept w c (hello kind version protocol_version) d k =
      require_paired-kept P c.paired c d _ k.same k.same
  handle_remote-kept w c (pair_with_code code name claimed) d k =
      pair_with_code_reply-kept w code name claimed c d k.same
  handle_remote-kept w c unpair_self d k =
      elim (Bool-cases (ltb c.protocol_version contract_version)) [
        | inl e ↦ rw (e, handle_remote) k.same
        | inr e ↦ rw (e, handle_remote) (unpaired_reply-kept P _ c d k.unpaired)
      ]
  handle_remote-kept w c list_sessions d k =
      shared-kept P c.paired c d _ k.same (materialize-Keeps linked.terminal d)
  handle_remote-kept w c subscribe_sessions d k = shared-kept P c.paired c d _ k.same (refl, refl)
  handle_remote-kept w c (attach_session id size last_seen) d k =
      shared-kept P c.paired c d _ k.same
        (attach_session_reply-Keeps linked w id size last_seen c.shared d)
  handle_remote-kept w c (input id bytes) d k =
      shared-kept P c.paired c d _ k.same (input_session-Keeps w id bytes c.shared d)
  handle_remote-kept w c (resize id size) d k =
      shared-kept P c.paired c d _ k.same (resize_session-Keeps id size c.shared d)
  handle_remote-kept w c (register_push_token platform token) d k =
      require_paired-kept P c.paired c d _ k.same
        (token_reply-kept P _ c d (k.updated platform token))
  handle_remote-kept w c (unregister_push_token platform token) d k =
      require_paired-kept P c.paired c d _ k.same
        (token_reply-kept P _ c d (k.cleared platform token))
  handle_remote-kept w c (ping seq) d k = require_paired-kept P c.paired c d _ k.same k.same
  handle_remote-kept w c detach_session d k = require_paired-kept P c.paired c d _ k.same k.same
  handle_remote-kept w c (create_session name command cwd env size) d k =
      shared-kept P c.paired c d _ k.same
        (create_session_reply-Keeps linked.terminal w name command cwd env size c.shared d)
  handle_remote-kept w c (kill_session id) d k =
      shared-kept P c.paired c d _ k.same (kill_session_reply-Keeps linked.terminal w id c.shared d)
  handle_remote-kept w c (begin_pairing device_name) d k =
      require_paired-kept P c.paired c d _ k.same k.same
  handle_remote-kept w c (approve_pairing request_id approved) d k =
      require_paired-kept P c.paired c d _ k.same k.same
  handle_remote-kept w c list_devices d k = require_paired-kept P c.paired c d _ k.same k.same
  handle_remote-kept w c (remove_device name) d k =
      require_paired-kept P c.paired c d _ k.same k.same
  handle_remote-kept w c (agent_state_event id source state line) d k =
      require_paired-kept P c.paired c d _ k.same k.same
