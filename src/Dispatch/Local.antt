-- ===== src/Dispatch/Local.antt =====
-- crates/daemon/src/ipc.rs, handle_client_io: a connection over the socket of the desktop.
use shelly.Prelude.{
  ℕ, Bool, true, false, ◌==◌, Option, none, some, List, [], ◌∷◌, ◌++◌, Text, Result, ok, err,
  if◌then◌else◌, text_eq,
}
use shelly.Prelude.Dict.{lookup}
use shelly.Session.{Session, AgentState, AgentSource, EventError, apply_agent_state_event}
use shelly.Persistence.{StoredDevice, StoreError}
use shelly.Push.{publish_pairing_rendezvous}
use shelly.Pairing
use shelly.Pairing.{PairingError, PairingManager, approve}
use shelly.Ticket.{PairingTicket, rendezvous}
use shelly.Devices.{Devices, Call, tell}
use shelly.Devices
use shelly.Dispatch.Messages.{
  ClientToServerMsg, hello, list_sessions, create_session, attach_session, detach_session,
  kill_session, input, resize, ping, begin_pairing, approve_pairing, pair_with_code, list_devices,
  remove_device, register_push_token, agent_state_event, subscribe_sessions, unregister_push_token,
  unpair_self, ServerToClientMsg, welcome, agent_state_changed, pairing_started, device_list, pong,
  error, version_mismatch, forbidden, not_found, invalid_request, internal, contract_version,
}
use shelly.Dispatch.{
  Live, Daemon, World, Linked, Connection, Reply, reply, connected, may_create_or_kill_session,
  may_emit_agent_state_event, is_local_cli, wait_pairing_ticket, device_summaries,
}
use shelly.Dispatch.Sas.{pairing_code_locator}
use shelly.Dispatch.Requests.{
  put_live, release, list_sessions_reply, subscribe_sessions_reply, resize_session,
  create_session_reply, kill_session_reply, input_session,
}
use shelly.Dispatch.Attaching.{attach_session_reply}

-- A handshake: what is sent, and the connection where the loop is entered.
pub record Handshake (C : Type 0) : Type 0 where
  pub sent : List ServerToClientMsg
  pub connection : Option C

unfoldable pub hello_local : (client_id : Text) → Bool → ClientToServerMsg → Handshake Connection
hello_local client_id push_enabled (hello kind version protocol_version) =
    if protocol_version == contract_version
    then record {
      sent = welcome client_id push_enabled ∷ [];
      connection = some (connected client_id kind);
    }
    else record { sent = error version_mismatch ∷ []; connection = none }
hello_local client_id push_enabled _ = record {
  sent = error invalid_request ∷ [];
  connection = none;
}

abbrev pub call_of : {T : Type 0} → World T → Call
call_of w = record { now = w.now; commits = w.commits; nonce = w.nonce }

abbrev pub if_allowed : {T C : Type 0} → Bool → C → Daemon T → Reply T C → Reply T C
if_allowed true c d allowed = allowed
if_allowed false c d allowed = reply (error forbidden ∷ []) c d

module _ {T : Type 0} where
  abbrev pub started_reply :
      (locator : Text → Text)
      → ℕ
      → Option PairingTicket
      → Connection
      → Daemon T
      → Reply T Connection
  started_reply locator request_tx none c d = reply (error internal ∷ []) c d
  started_reply locator request_tx (some ticket) c d =
      reply (pairing_started ticket ∷ []) (record c { listens = c.listens ++ request_tx ∷ [] })
        (record d {
          devices =
              tell (publish_pairing_rendezvous (locator ticket.code) (rendezvous ticket)) d.devices;
        })

  -- The clock is read once for the code and its deadline.
  unfoldable pub begin_pairing_reply :
      (locator : Text → Text) → World T → Connection → Daemon T → Reply T Connection
  unfolding rendezvous
  begin_pairing_reply locator w c d =
      let begun = Pairing.begin_pairing w.now w.now w.code w.request_tx d.pairing in
      started_reply locator w.request_tx (wait_pairing_ticket w.polled w.code begun.1) c
        (record d { pairing = begun.0 })

  abbrev pub approved_reply :
      Result PairingError (ℕ × Bool) × PairingManager → Connection → Daemon T → Reply T Connection
  approved_reply (ok told, pairing) c d = reply [] c (record d { pairing = pairing })
  approved_reply (err e, pairing) c d =
      reply (error not_found ∷ []) c (record d { pairing = pairing })

  abbrev pub removed_reply :
      Result StoreError (Option StoredDevice) × Devices → Connection → Daemon T → Reply T Connection
  removed_reply (ok (some device), devices) c d =
      reply (device_list (device_summaries devices) ∷ []) c (record d { devices = devices })
  removed_reply (ok none, devices) c d =
      reply (error not_found ∷ []) c (record d { devices = devices })
  removed_reply (err e, devices) c d =
      reply (error internal ∷ []) c (record d { devices = devices })

  abbrev pub event_reply :
      Text
      → AgentState
      → Live T
      → Result EventError (Option Text) × Session
      → Connection
      → Daemon T
      → Reply T Connection
  event_reply id state live (ok line, s) c d =
      reply (agent_state_changed id state line ∷ []) c
        (record (put_live id (record live { shown = record live.shown { shown = s } }) d) {
          list_scheduled = true;
        })
  event_reply id state live (err e, s) c d = reply (error invalid_request ∷ []) c d

  unfoldable pub agent_event_reply :
      World T
      → Text
      → AgentSource
      → AgentState
      → Option Text
      → Connection
      → Daemon T
      → Reply T Connection
  unfolding put_live
  agent_event_reply w id source state line c d = elim (lookup id d.live) [
    | none ↦ reply (error not_found ∷ []) c d
    | some live ↦
        event_reply id state live (apply_agent_state_event w.now source state line live.shown.shown)
          c d
  ]

  module _ (linked : Linked T) where
    -- The loop's body for a message that was read; a message that is not read ends the loop.
    unfoldable pub handle_local :
        World T → Connection → ClientToServerMsg → Daemon T → Reply T Connection
    unfolding list_sessions_reply subscribe_sessions_reply resize_session create_session_reply
        kill_session_reply input_session attach_session_reply begin_pairing_reply agent_event_reply
        may_create_or_kill_session may_emit_agent_state_event
    handle_local w c (hello kind version protocol_version) d = reply [] c d
    handle_local w c list_sessions d = list_sessions_reply linked.terminal c d
    handle_local w c subscribe_sessions d = subscribe_sessions_reply c d
    handle_local w c (create_session name command cwd env size) d =
        if_allowed (may_create_or_kill_session c.client_kind) c d
          (create_session_reply linked.terminal w name command cwd env size c d)
    handle_local w c (attach_session id size last_seen) d =
        attach_session_reply linked w id size last_seen c d
    handle_local w c detach_session d = record {
      sent = [];
      connection = c;
      daemon = d;
      goes_on = false;
    }
    handle_local w c (kill_session id) d =
        if_allowed (may_create_or_kill_session c.client_kind) c d
          (kill_session_reply linked.terminal w id c d)
    handle_local w c (input id bytes) d = input_session w id bytes c d
    handle_local w c (resize id size) d = resize_session id size c d
    handle_local w c (ping seq) d = reply (pong seq ∷ []) c d
    handle_local w c (begin_pairing device_name) d =
        if_allowed (is_local_cli c.client_kind) c d
          (begin_pairing_reply (pairing_code_locator linked.sha256) w c d)
    handle_local w c (approve_pairing request_id approved) d =
        if_allowed (is_local_cli c.client_kind) c d
          (approved_reply (approve request_id approved d.pairing) c d)
    handle_local w c (pair_with_code code device_name device_node_id) d =
        reply (error forbidden ∷ []) c d
    handle_local w c list_devices d =
        if_allowed (is_local_cli c.client_kind) c d
          (reply (device_list (device_summaries d.devices) ∷ []) c d)
    handle_local w c (remove_device name) d =
        if_allowed (is_local_cli c.client_kind) c d
          (removed_reply (Devices.remove_device linked.store (call_of w) name d.devices) c d)
    handle_local w c (register_push_token platform token) d = reply (error invalid_request ∷ []) c d
    handle_local w c (unregister_push_token platform token) d =
        reply (error invalid_request ∷ []) c d
    handle_local w c unpair_self d = reply (error invalid_request ∷ []) c d
    handle_local w c (agent_state_event id source state line) d =
        if_allowed (may_emit_agent_state_event c.client_kind) c d
          (agent_event_reply w id source state line c d)

-- The end of a connection.
unfoldable pub end_local : {T : Type 0} → Connection → Daemon T → Daemon T
unfolding release
end_local c d = release c d
