-- ===== src/Dispatch/Messages.antt =====
-- crates/protocol/src/messages.rs, types.rs and version.rs: the messages between clients and the daemon.
-- Ids are given as their texts; the text of an error is left out, its code is kept.
use shelly.Prelude.{ℕ, Bool, Option, List, Text}
use shelly.Prelude.Dict.{Dict}
use shelly.Session.{AgentState, AgentSource, ClientSize}
use shelly.Protocol.{PushPlatform, SessionSummary}
use shelly.Ticket.{PairingTicket}

abbrev pub contract_version : ℕ
contract_version = 5

abbrev pub min_paired_contract_version : ℕ
min_paired_contract_version = 4

pub data ClientKind : Type 0 where
  local_cli ios_app android_app : ClientKind

pub data ClientToServerMsg : Type 0 where
  hello : ClientKind → (client_version : Text) → (protocol_version : ℕ) → ClientToServerMsg
  list_sessions : ClientToServerMsg
  create_session :
      (name : Text)
      → (command : List Text) → (cwd : Text) → (env : Dict Text Text) → ClientSize
      → ClientToServerMsg
  attach_session : (session_id : Text) → ClientSize → (last_seen_seq : Option ℕ) → ClientToServerMsg
  detach_session : ClientToServerMsg
  kill_session : (session_id : Text) → ClientToServerMsg
  input : (session_id : Text) → (bytes : List ℕ) → ClientToServerMsg
  resize : (session_id : Text) → ClientSize → ClientToServerMsg
  ping : (seq : ℕ) → ClientToServerMsg
  begin_pairing : (device_name : Option Text) → ClientToServerMsg
  approve_pairing : (request_id : ℕ) → (approved : Bool) → ClientToServerMsg
  pair_with_code : (code device_name device_node_id : Text) → ClientToServerMsg
  list_devices : ClientToServerMsg
  remove_device : (name : Text) → ClientToServerMsg
  register_push_token : PushPlatform → (token : Text) → ClientToServerMsg
  agent_state_event :
      (session_id : Text) → AgentSource → AgentState → (last_line : Option Text) → ClientToServerMsg
  subscribe_sessions : ClientToServerMsg
  unregister_push_token : PushPlatform → (token : Text) → ClientToServerMsg
  unpair_self : ClientToServerMsg

pub data ErrorCode : Type 0 where
  version_mismatch unauthorized forbidden not_found invalid_request internal : ErrorCode

pub record DeviceSummary : Type 0 where
  pub name : Text
  pub device_node_id : Text
  pub paired_at : ℕ
  pub last_seen : Option ℕ
  pub push_platform : Option PushPlatform

-- An exit code is given as the 32 bits of an `i32`; the version and the name of the host that
-- `Welcome` carries are left out.
pub data ServerToClientMsg : Type 0 where
  welcome : (client_id : Text) → (push_notifications : Bool) → ServerToClientMsg
  session_list : List SessionSummary → ServerToClientMsg
  session_created : (session_id : Text) → SessionSummary → ServerToClientMsg
  session_killed : (session_id : Text) → ServerToClientMsg
  attached : (session_id : Text) → (initial_bytes : List ℕ) → (seq : ℕ) → ServerToClientMsg
  output : (session_id : Text) → (seq : ℕ) → (bytes : List ℕ) → ServerToClientMsg
  agent_state_changed :
      (session_id : Text) → AgentState → (last_line : Option Text) → ServerToClientMsg
  session_exited : (session_id : Text) → (exit_code : ℕ) → ServerToClientMsg
  lag : (session_id : Text) → (skipped_bytes : ℕ) → ServerToClientMsg
  pairing_started : PairingTicket → ServerToClientMsg
  pairing_approval_requested :
      (request_id : ℕ) → (device_name device_node_id sas : Text) → ServerToClientMsg
  pairing_complete : (daemon_node_id : Text) → ServerToClientMsg
  device_list : List DeviceSummary → ServerToClientMsg
  pong : (seq : ℕ) → ServerToClientMsg
  error : ErrorCode → ServerToClientMsg
  pairing_pending : (sas : Text) → ServerToClientMsg
