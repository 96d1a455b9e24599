-- ===== src/Dispatch/Peer.antt =====
-- crates/daemon/src/transport_iroh.rs, handle_connection: the variables of a connection of a phone over
-- iroh. The watchers of the forwarding tasks are not counted beside the one of the connection.
use shelly.Prelude.{ℕ, Bool, true, false, Option, none, some, [], ◌∷◌, Text, text_eq}
use shelly.Prelude.Dict.{lookup}
use shelly.Pairing.{PendingPairingApproval, Ending}
use shelly.Devices.{Devices, Revocations, subscribe_device_revocation, drop_watcher}
use shelly.Dispatch.Messages.{ClientToServerMsg, error, unauthorized}
use shelly.Dispatch.{Daemon, Connection, Reply, reply}

-- `waiting` is the request that the desktop has not answered yet, with the name of the device;
-- `revocation` is the version of the channel that the watcher has seen.
pub record Remote : Type 0 where
  pub shared : Connection
  pub remote_node_id : Text
  pub protocol_version : ℕ
  pub paired : Bool
  pub revocation : Option ℕ
  pub has_permit : Bool
  pub waiting : Option (PendingPairingApproval × Text)

-- What the loop waits for: a message, the end of the wait for the desktop, or a revocation.
pub data RemoteInput : Type 0 where
  received : ClientToServerMsg → RemoteInput
  decided : Ending → RemoteInput
  revoked : RemoteInput

abbrev pub version_of : Option Revocations → ℕ
version_of none = 0
version_of (some channel) = channel.version

-- A new watcher for the peer, in place of the one before.
abbrev pub unwatch : Option ℕ → Text → Devices → Devices
unwatch none id st = st
unwatch (some seen) id st = drop_watcher id st

unfoldable pub watch : Remote → Devices → Remote × Devices
watch c st =
    let subscribed = subscribe_device_revocation c.remote_node_id st in
    (
      record c {
        revocation = some (version_of (lookup c.remote_node_id subscribed.device_revocations));
      },
      unwatch c.revocation c.remote_node_id subscribed,
    )

abbrev pub require_paired :
    {T : Type 0} → Bool → Remote → Daemon T → Reply T Remote → Reply T Remote
require_paired true c d allowed = allowed
require_paired false c d allowed = reply (error unauthorized ∷ []) c d

-- A request on sessions, over the part of the connection that both transports have.
abbrev pub shared_reply : {T : Type 0} → Remote → Reply T Connection → Reply T Remote
shared_reply c r = record {
  sent = r.sent;
  connection = record c { shared = r.connection };
  daemon = r.daemon;
  goes_on = r.goes_on;
}
