-- ===== src/Dispatch.antt =====
-- crates/daemon/src/ipc.rs, authz.rs and transport_iroh.rs: the daemon as the connections of its clients
-- see it. Here are its state, what a message finds of its surroundings, and the connection of a client.
-- A message is answered in one step, and what is written to the client arrives.
pub mod Messages
pub mod Sas
pub mod Requests
pub mod Attaching
pub mod Local
pub mod Peer
pub mod Hello
pub mod Answers
pub mod Remote
pub mod Kept
pub mod Others
pub mod Effects
pub mod Expected
pub mod Isolation
pub mod Approved
pub mod Guarded
pub mod Removed
pub mod Answered
pub mod Stuck
pub mod Forwarding
mod Fixtures
mod Tests
mod ForwardingTests
use shelly.Prelude.{
  ℕ, suc, zero, Bool, true, false, Option, none, some, List, [], ◌∷◌, ◌++◌, Text, text_eq, leb,
}
use shelly.Prelude.Dict.{Dict, lookup, insert}
use shelly.Prelude.Sorting.{sort_by}
use shelly.Persistence.{Bytes, StoredDevice, Libraries}
use shelly.Session.{Session, ClientSize}
use shelly.Session.Clients.{WriteQueue, Attached, ChildStatus, Process, detach_client}
use shelly.Session.Output.{Terminal, OutputSession}
use shelly.Registry.{Registry, LiveSession}
use shelly.Devices.{Devices}
use shelly.Devices
use shelly.Pairing.{PairingManager}
use shelly.Ticket.{PairingTicket}
use shelly.Dispatch.Messages.{
  ClientKind, local_cli, ios_app, android_app, ServerToClientMsg, DeviceSummary,
}

-- A session that runs: what it shows, its input, the sizes of its clients, and its process.
pub record Live (T : Type 0) : Type 0 where
  pub shown : OutputSession T
  pub queue : WriteQueue
  pub sizes : Attached
  pub process : Process

pub record IrohEndpointInfo : Type 0 where
  pub node_id : Text
  pub relay_url : Option Text
  pub addrs : List Text

-- `AppState`. The entry of a live session in `registry.sessions` has what the registry reads of it,
-- and `live` has the session. The store's two tables stand with what is written to them.
pub record Daemon (T : Type 0) : Type 0 where
  pub registry : Registry
  pub live : Dict Text (Live T)
  pub list_scheduled : Bool
  pub devices : Devices
  pub pairing : PairingManager
  pub iroh_endpoint : Option IrohEndpointInfo
  pub push_enabled : Bool

-- What `Session::spawn` is given.
pub record Spawn : Type 0 where
  pub name : Text
  pub command : List Text
  pub cwd : Text
  pub env : Dict Text Text
  pub size : ClientSize

-- What a message finds: the clock, the terminal, the process, the store and the random source.
-- `started` is the session of an id that `spawn` has given; `polled` are the addresses of the endpoint
-- that a wait for it sees.
pub record World (T : Type 0) : Type 0 where
  pub now : ℕ
  pub cut : ℕ
  pub takes : Bool
  pub status : ChildStatus
  pub kills : Bool
  pub commits : Bool
  pub nonce : Bytes
  pub start : ℕ
  pub spawn : Spawn → Option (Text × LiveSession)
  pub started : Text → Live T
  pub client_id : Text
  pub code : Text
  pub request_tx : ℕ
  pub request_id : ℕ
  pub is_open : ℕ → Bool
  pub polled : ℕ → Option IrohEndpointInfo
  pub shell : Option Text
  pub home : Option Text

-- What is linked: the terminal projection, the store's libraries, and what the pairing uses of SHA-256
-- and of the parser of keys.
pub record Linked (T : Type 0) : Type 0 where
  pub terminal : Terminal T
  pub store : Libraries
  pub sha256 : Bytes → Bytes
  pub parse_key : Text → Option Bytes

-- The variables of the handler of a connection. `forwarding` is the task that sends the output of a
-- session behind a number, `lists` the one that sends the list, and `listens` are the channels of
-- the pairing codes whose requests are sent.
pub record Connection : Type 0 where
  pub client_id : Text
  pub client_kind : ClientKind
  pub attached_client : Option Text
  pub forwarding : Option (Text × ℕ)
  pub lists : Bool
  pub listens : List ℕ

abbrev pub connected : Text → ClientKind → Connection
connected id kind = record {
  client_id = id;
  client_kind = kind;
  attached_client = none;
  forwarding = none;
  lists = false;
  listens = [];
}

-- The messages that are sent, the connection and the daemon behind the message, and whether the loop
-- goes on.
pub record Reply (T C : Type 0) : Type 0 where
  pub sent : List ServerToClientMsg
  pub connection : C
  pub daemon : Daemon T
  pub goes_on : Bool

abbrev pub reply : {T C : Type 0} → List ServerToClientMsg → C → Daemon T → Reply T C
reply sent c d = record { sent = sent; connection = c; daemon = d; goes_on = true }

-- crates/daemon/src/authz.rs
unfoldable pub may_create_or_kill_session : ClientKind → Bool
may_create_or_kill_session kind = true

unfoldable pub may_emit_agent_state_event : ClientKind → Bool
may_emit_agent_state_event local_cli = true
may_emit_agent_state_event ios_app = false
may_emit_agent_state_event android_app = false

unfoldable pub requires_shell_only_sessions : ClientKind → Bool
requires_shell_only_sessions local_cli = false
requires_shell_only_sessions ios_app = true
requires_shell_only_sessions android_app = true

abbrev pub is_local_cli : ClientKind → Bool
is_local_cli local_cli = true
is_local_cli _ = false

-- With the endpoint's own addresses, where it is ready.
unfoldable pub pairing_ticket : Text → ℕ → Option IrohEndpointInfo → Option PairingTicket
pairing_ticket code expires_at none = none
pairing_ticket code expires_at (some info) = some (record {
  code = code;
  node_id = info.node_id;
  relay_url = info.relay_url;
  addrs = info.addrs;
  expires_at = expires_at;
})

-- The looks at the endpoint that are left, from the one given; the last one counts.
unfoldable pub wait_from : (ℕ → Option IrohEndpointInfo) → Text → ℕ → ℕ → ℕ → Option PairingTicket
unfolding pairing_ticket
wait_from polled code expires_at round zero = pairing_ticket code expires_at (polled round)
wait_from polled code expires_at round (suc left) =
    let rest = wait_from polled code expires_at (suc round) left in
    elim (pairing_ticket code expires_at (polled round)) [ some ticket ↦ some ticket | none ↦ rest ]

unfoldable pub wait_pairing_ticket : (ℕ → Option IrohEndpointInfo) → Text → ℕ → Option PairingTicket
unfolding wait_from
wait_pairing_ticket polled code expires_at = wait_from polled code expires_at 0 100

unfoldable pub summary : StoredDevice → DeviceSummary
summary device = record {
  name = device.name;
  device_node_id = device.device_node_id;
  paired_at = device.paired_at;
  last_seen = device.last_seen;
  push_platform = device.push_platform;
}

abbrev pub all_summaries : Dict Text StoredDevice → List DeviceSummary
all_summaries [] = []
all_summaries ((id, device) ∷ devices) = summary device ∷ all_summaries devices

unfoldable pub device_summaries : Devices → List DeviceSummary
unfolding summary
device_summaries st = sort_by (λ a b. leb a.paired_at b.paired_at) (all_summaries st.devices)

-- `StoredDevice::new`
unfoldable pub new_device : ℕ → Text → Text → StoredDevice
new_device now name id = record {
  name = name;
  device_node_id = id;
  paired_at = now;
  last_seen = none;
  push_platform = none;
  push_token = none;
}

unfoldable pub iroh_node_id : Option IrohEndpointInfo → Option Text
iroh_node_id none = none
iroh_node_id (some info) = some info.node_id
