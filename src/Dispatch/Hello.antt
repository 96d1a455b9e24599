-- ===== src/Dispatch/Hello.antt =====
-- crates/daemon/src/transport_iroh.rs, handle_connection: the handshake.
use shelly.Prelude.{
  ℕ, Bool, true, false, ◌&&◌, ◌||◌, ◌==◌, Option, none, some, [], ◌∷◌, Text, if◌then◌else◌, text_eq,
}
use shelly.Devices.{is_device_paired, mark_device_seen}
use shelly.Dispatch.Messages.{
  ClientKind, local_cli, ios_app, android_app, ClientToServerMsg, hello, ServerToClientMsg, welcome,
  error, version_mismatch, forbidden, invalid_request, contract_version,
  min_paired_contract_version,
}
use shelly.Dispatch.{Daemon, World, Linked, Reply, reply, connected}
use shelly.Dispatch.Local.{call_of}
use shelly.Dispatch.Peer.{Remote, watch}

unfoldable pub iroh_version_is_accepted : ℕ → Bool → Bool
iroh_version_is_accepted protocol_version already_paired =
    protocol_version == contract_version
    || (already_paired && protocol_version == min_paired_contract_version)

unfoldable pub iroh_client_kind_error : ClientKind → Option ServerToClientMsg
iroh_client_kind_error ios_app = none
iroh_client_kind_error android_app = none
iroh_client_kind_error local_cli = some (error forbidden)

abbrev pub accepted : Text → Text → ClientKind → ℕ → Bool → Remote
accepted client_id remote_node_id kind protocol_version paired = record {
  shared = connected client_id kind;
  remote_node_id = remote_node_id;
  protocol_version = protocol_version;
  paired = paired;
  revocation = none;
  has_permit = true;
  waiting = none;
}

module _ {T : Type 0} where
  -- The handshake of a peer that the transport has authenticated. A device that was paired is watched
  -- and its visit is noted; where the note is not stored, that is logged.
  unfoldable pub welcomed : Linked T → World T → Remote → Daemon T → Reply T Remote
  unfolding watch
  welcomed linked w c d =
      let sent = welcome c.shared.client_id d.push_enabled ∷ [] in
      if c.paired
      then (let watched = watch c d.devices in
          let seen = mark_device_seen linked.store (call_of w) c.remote_node_id watched.1 in
          record {
            sent = sent;
            connection = record watched.0 { has_permit = false };
            daemon = record d { devices = seen.1 };
            goes_on = is_device_paired c.remote_node_id seen.1;
          })
      else reply sent c d

  unfoldable pub refused : ServerToClientMsg → Remote → Daemon T → Reply T Remote
  refused message c d = record { sent = message ∷ []; connection = c; daemon = d; goes_on = false }

  unfoldable pub hello_remote :
      Linked T → World T → Text → ClientToServerMsg → Daemon T → Reply T Remote
  unfolding iroh_version_is_accepted iroh_client_kind_error welcomed refused
  hello_remote linked w remote_node_id (hello kind version protocol_version) d =
      let paired = is_device_paired remote_node_id d.devices in
      let c = accepted w.client_id remote_node_id kind protocol_version paired in
      if iroh_version_is_accepted protocol_version paired
      then elim (iroh_client_kind_error kind) [
        | some message ↦ refused message c d
        | none ↦ welcomed linked w c d
      ]
      else refused (error version_mismatch) c d
  hello_remote linked w remote_node_id _ d =
      refused (error invalid_request)
        (accepted w.client_id remote_node_id local_cli 0
          (is_device_paired remote_node_id d.devices))
        d
