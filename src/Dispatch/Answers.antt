-- ===== src/Dispatch/Answers.antt =====
-- crates/daemon/src/transport_iroh.rs, handle_connection: the pairing of a device, its end, and the
-- tokens.
use shelly.Prelude.{
  ℕ, Bool, true, false, ltb, Option, none, some, List, [], ◌∷◌, Text, Result, ok, err,
  if◌then◌else◌, text_eq, text_beq,
}
use shelly.Code.{normalize_code}
use shelly.Persistence.{StoredDevice, StoreError}
use shelly.Pairing.{PairingManager, PairingError, PendingPairingApproval, Outcome, begin_approval}
use shelly.Devices.{Devices, save_device}
use shelly.Dispatch.Messages.{
  ServerToClientMsg, pairing_complete, pairing_pending, pong, error, version_mismatch, unauthorized,
  forbidden, invalid_request, internal, contract_version,
}
use shelly.Dispatch.{
  Daemon, IrohEndpointInfo, World, Linked, Reply, reply, new_device, iroh_node_id,
}
use shelly.Dispatch.Sas.{pairing_sas}
use shelly.Dispatch.Local.{call_of}
use shelly.Dispatch.Peer.{Remote, unwatch, watch}

unfoldable pub pairing_peer_identity_error :
    (remote_node_id claimed_device_node_id : Text) → Option ServerToClientMsg
pairing_peer_identity_error remote_node_id claimed_device_node_id =
    if text_beq claimed_device_node_id remote_node_id then none else some (error unauthorized)

module _ {T : Type 0} where
  -- `authenticated_pairing_sas`, over the keys that are parsed.
  abbrev pub sas_of : Linked T → Text → Option (List ℕ) → Option (List ℕ) → Option Text
  sas_of linked code (some daemon_key) (some phone_key) =
      some (pairing_sas linked.sha256 code daemon_key phone_key)
  sas_of linked code _ _ = none

  unfoldable pub authenticated_pairing_sas :
      Linked T → Option IrohEndpointInfo → Text → Text → Option Text
  authenticated_pairing_sas linked endpoint code remote_node_id = elim (iroh_node_id endpoint) [
    | none ↦ none
    | some daemon_node_id ↦
        sas_of linked code (linked.parse_key daemon_node_id) (linked.parse_key remote_node_id)
  ]

  abbrev pub approval_reply :
      Text → Text → Result PairingError PendingPairingApproval → Remote → Daemon T → Reply T Remote
  approval_reply sas device_name (ok pending) c d =
      reply (pairing_pending sas ∷ []) (record c { waiting = some (pending, device_name) }) d
  approval_reply sas device_name (err e) c d = reply (error forbidden ∷ []) c d

  abbrev pub pair_under : World T → Text → Text → Option Text → Remote → Daemon T → Reply T Remote
  pair_under w code device_name none c d = reply (error invalid_request ∷ []) c d
  pair_under w code device_name (some sas) c d =
      let outcome : Outcome =
        begin_approval
          (record {
            code = code;
            device_name = device_name;
            device_node_id = c.remote_node_id;
            sas = sas;
            now = w.now;
            request_id = w.request_id;
            is_open = w.is_open;
          })
          d.pairing in
      approval_reply sas device_name outcome.answer c (record d { pairing = outcome.manager })

  unfoldable pub pair_with_code_reply :
      Linked T → World T → Text → Text → Text → Remote → Daemon T → Reply T Remote
  unfolding pairing_peer_identity_error authenticated_pairing_sas
  pair_with_code_reply linked w code device_name device_node_id c d =
      if ltb c.protocol_version contract_version
      then reply (error version_mismatch ∷ []) c d
      else elim (pairing_peer_identity_error c.remote_node_id device_node_id) [
        | some message ↦ reply (message ∷ []) c d
        | none ↦
            pair_under w (normalize_code code) device_name
              (authenticated_pairing_sas linked d.iroh_endpoint (normalize_code code)
                c.remote_node_id)
              c d
      ]

  -- The device is stored; where the store fails, the connection ends.
  abbrev pub paired_reply :
      Option Text → Result StoreError (Unit {0}) × Devices → Remote → Daemon T → Reply T Remote
  paired_reply node_id (err e, devices) c d = record {
    sent = [];
    connection = c;
    daemon = record d { devices = devices };
    goes_on = false;
  }
  paired_reply node_id (ok u, devices) c d =
      let watched = watch c devices in
      reply (pairing_complete (elim node_id [ none ↦ [] | some id ↦ id ]) ∷ [])
        (record watched.0 { paired = true; has_permit = false }) (record d { devices = watched.1 })

  -- The end of the wait for the desktop.
  abbrev pub decided_reply :
      Linked T → World T → Text → Bool × PairingManager → Remote → Daemon T → Reply T Remote
  decided_reply linked w device_name (false, pairing) c d =
      reply (error forbidden ∷ []) c (record d { pairing = pairing })
  decided_reply linked w device_name (true, pairing) c d =
      paired_reply (iroh_node_id d.iroh_endpoint)
        (save_device linked.store (call_of w) (new_device w.now device_name c.remote_node_id)
          d.devices)
        c (record d { pairing = pairing })

  abbrev pub unpaired_reply :
      Result StoreError (Option StoredDevice) × Devices → Remote → Daemon T → Reply T Remote
  unpaired_reply (ok device, devices) c d =
      reply (pong 0 ∷ []) (record c { paired = false; revocation = none })
        (record d { devices = unwatch c.revocation c.remote_node_id devices })
  unpaired_reply (err e, devices) c d =
      reply (error internal ∷ []) c (record d { devices = devices })

  abbrev pub token_reply : Result StoreError Bool × Devices → Remote → Daemon T → Reply T Remote
  token_reply (ok true, devices) c d = reply (pong 0 ∷ []) c (record d { devices = devices })
  token_reply (ok false, devices) c d =
      reply (error unauthorized ∷ []) c (record d { devices = devices })
  token_reply (err e, devices) c d = reply (error internal ∷ []) c (record d { devices = devices })
