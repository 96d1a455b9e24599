-- ===== src/Dispatch/Remote.antt =====
-- crates/daemon/src/transport_iroh.rs, handle_connection: the loop over the messages of a phone.
use shelly.Prelude.{false, not, ◌&&◌, ltb, none, some, [], ◌∷◌, if◌then◌else◌, text_eq}
use shelly.Pairing.{wait}
use shelly.Devices.{
  Devices, Revocations, is_device_paired, subscribe_device_revocation, drop_watcher,
  mark_device_seen, save_device, update_device_push, clear_device_push,
}
use shelly.Devices
use shelly.Dispatch.Messages.{
  ClientToServerMsg, hello, list_sessions, create_session, attach_session, detach_session,
  kill_session, input, resize, ping, begin_pairing, approve_pairing, pair_with_code, list_devices,
  remove_device, register_push_token, agent_state_event, subscribe_sessions, unregister_push_token,
  unpair_self, pong, error, version_mismatch, forbidden, contract_version,
}
use shelly.Dispatch.{Daemon, World, Linked, Reply, reply}
use shelly.Dispatch.Requests.{
  release, list_sessions_reply, subscribe_sessions_reply, resize_session, create_session_reply,
  kill_session_reply, input_session,
}
use shelly.Dispatch.Attaching.{attach_session_reply}
use shelly.Dispatch.Local.{call_of}
use shelly.Dispatch.Peer.{
  Remote, RemoteInput, received, decided, revoked, unwatch, require_paired, shared_reply,
}
use shelly.Dispatch.Answers.{pair_with_code_reply, decided_reply, unpaired_reply, token_reply}

module _ {T : Type 0} where
  module _ (linked : Linked T) where
    -- A message of a connection whose pairing still stands, if it had one.
    unfoldable pub handle_remote : World T → Remote → ClientToServerMsg → Daemon T → Reply T Remote
    unfolding list_sessions_reply subscribe_sessions_reply resize_session create_session_reply
        kill_session_reply input_session attach_session_reply pair_with_code_reply
    handle_remote w c (hello kind version protocol_version) d =
        require_paired c.paired c d (reply [] c d)
    handle_remote w c (pair_with_code code device_name device_node_id) d =
        pair_with_code_reply linked w code device_name device_node_id c d
    handle_remote w c unpair_self d =
        if ltb c.protocol_version contract_version
        then reply (error version_mismatch ∷ []) c d
        else unpaired_reply
            (Devices.unpair_self linked.store (call_of w) c.remote_node_id d.devices) c d
    handle_remote w c list_sessions d =
        require_paired c.paired c d
          (shared_reply c (list_sessions_reply linked.terminal c.shared d))
    handle_remote w c subscribe_sessions d =
        require_paired c.paired c d (shared_reply c (subscribe_sessions_reply c.shared d))
    handle_remote w c (attach_session id size last_seen) d =
        require_paired c.paired c d
          (shared_reply c (attach_session_reply linked w id size last_seen c.shared d))
    handle_remote w c (input id bytes) d =
        require_paired c.paired c d (shared_reply c (input_session w id bytes c.shared d))
    handle_remote w c (resize id size) d =
        require_paired c.paired c d (shared_reply c (resize_session id size c.shared d))
    handle_remote w c (register_push_token platform token) d = require_paired c.paired c d (
        token_reply
          (update_device_push linked.store (call_of w) c.remote_node_id platform token d.devices) c
          d)
    handle_remote w c (unregister_push_token platform token) d = require_paired c.paired c d (
        token_reply
          (clear_device_push linked.store (call_of w) c.remote_node_id platform token d.devices) c
          d)
    handle_remote w c (ping seq) d = require_paired c.paired c d (reply (pong seq ∷ []) c d)
    handle_remote w c detach_session d =
        require_paired c.paired c d
          (record { sent = []; connection = c; daemon = d; goes_on = false })
    handle_remote w c (create_session name command cwd env size) d = require_paired c.paired c d (
        shared_reply c
          (create_session_reply linked.terminal w name command cwd env size c.shared d))
    handle_remote w c (kill_session id) d =
        require_paired c.paired c d
          (shared_reply c (kill_session_reply linked.terminal w id c.shared d))
    handle_remote w c (begin_pairing device_name) d =
        require_paired c.paired c d (reply (error forbidden ∷ []) c d)
    handle_remote w c (approve_pairing request_id approved) d =
        require_paired c.paired c d (reply (error forbidden ∷ []) c d)
    handle_remote w c list_devices d =
        require_paired c.paired c d (reply (error forbidden ∷ []) c d)
    handle_remote w c (remove_device name) d =
        require_paired c.paired c d (reply (error forbidden ∷ []) c d)
    handle_remote w c (agent_state_event id source state line) d =
        require_paired c.paired c d (reply (error forbidden ∷ []) c d)

    -- A round of the loop. Nothing is read while the desktop has not answered; a revocation is
    -- noticed where the connection counts as paired.
    unfoldable pub remote_round : World T → Remote → RemoteInput → Daemon T → Reply T Remote
    unfolding handle_remote wait
    remote_round w c (received message) d = elim c.waiting [
      | some pending ↦ reply [] c d
      | none ↦
          if c.paired && not (is_device_paired c.remote_node_id d.devices)
          then record { sent = []; connection = c; daemon = d; goes_on = false }
          else handle_remote w c message d
    ]
    remote_round w c (decided ending) d = elim c.waiting [
      | none ↦ reply [] c d
      | some (pending, device_name) ↦
          decided_reply linked w device_name (wait pending ending d.pairing)
            (record c { waiting = none }) d
    ]
    remote_round w c revoked d = elim c.waiting [
      | some pending ↦ reply [] c d
      | none ↦ record { sent = []; connection = c; daemon = d; goes_on = not c.paired }
    ]

-- The end of a connection.
unfoldable pub end_remote : {T : Type 0} → Remote → Daemon T → Daemon T
unfolding release
end_remote c d =
    let free = release c.shared d in
    record free { devices = unwatch c.revocation c.remote_node_id free.devices }
