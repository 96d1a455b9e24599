-- ===== src/Dispatch/Tests.antt =====
-- Witnesses and tests of Dispatch: a phone that is paired, and one that asks to be.
use shelly.Prelude.{ℕ, ◌≡◌, refl, true, false, none, some, List, [], ◌∷◌, text_eq}
use shelly.Prelude.Dict.{lookup, insert, remove}
use shelly.Protocol.{apns}
use shelly.Persistence.Fixtures.{device}
use shelly.Devices
use shelly.Devices.{
  save_device, find_device, subscribe_device_revocation, is_device_paired, mark_device_seen,
}
use shelly.Dispatch.Sas.{join_chunks}
use shelly.Devices.Removal.{revoked}
use shelly.Pairing.{answered}
use shelly.Dispatch.Messages.{
  local_cli, ios_app, hello, list_sessions, kill_session, create_session, remove_device,
  register_push_token, error, unauthorized, internal, attach_session, ClientToServerMsg, forbidden,
  version_mismatch,
}
use shelly.Registry.Names.{is_valid_size}
use shelly.Dispatch.{Live, Daemon, World, connected, reply, new_device}
use shelly.Dispatch.Requests.{default_session_command, default_home_dir}
use shelly.Dispatch.Stuck.{attach_session-counted}
use shelly.Dispatch.Local.{end_local, handle_local}
use shelly.Dispatch.Peer.{received, decided, watch}
use shelly.Dispatch.Hello.{hello_remote, iroh_client_kind_error}
use shelly.Dispatch.Remote.{handle_remote, remote_round}
use shelly.Dispatch.Kept.{Keeps}
use shelly.Dispatch.Others.{Spares}
use shelly.Dispatch.Isolation.{remote_round-Spares}
use shelly.Dispatch.Approved.{IsApproved, remote_round-IsApproved}
use shelly.Dispatch.Guarded.{
  remote_round_unpaired, create_session-shell_only, handle_local_phone-Keeps,
}
use shelly.Dispatch.Removed.{remove_device-remote_round}
use shelly.Dispatch.Fixtures.{
  linked, live, world, phone_id, other_id, with_devices, other, paired_daemon, phone, waiting,
  desktop,
}

-- A token is stored, and the other device is as it was.
remote_round-Spares_example :
    Spares phone_id paired_daemon.devices.devices
      (remote_round linked world
        (phone true)
        (received (register_push_token apns (1 ∷ [])))
        paired_daemon).daemon.devices.devices
unfolding lookup
remote_round-Spares_example =
    remote_round-Spares linked world (phone true) (received (register_push_token apns (1 ∷ [])))
      paired_daemon (refl, (refl, tt))

remote_round-IsApproved_example :
    IsApproved world waiting (decided (answered true)) phone_id (new_device 9 (b'n' ∷ []) phone_id)
unfolding lookup insert remove new_device remote_round save_device watch subscribe_device_revocation
remote_round-IsApproved_example =
    remote_round-IsApproved linked world waiting (decided (answered true))
      (with_devices (other ∷ [])) phone_id (new_device 9 (b'n' ∷ []) phone_id) (refl, tt) refl refl

remote_round_unpaired_example :
    remote_round linked world (phone false) (received (kill_session (b's' ∷ []))) paired_daemon
    ≡ reply (error unauthorized ∷ []) (phone false) paired_daemon
remote_round_unpaired_example =
    remote_round_unpaired linked world (phone false) (kill_session (b's' ∷ [])) paired_daemon refl
      refl refl

create_session-shell_only_example :
    handle_remote linked world
      (phone true)
      (create_session []
        ((b'r' ∷ []) ∷ [])
        (b'/' ∷ [])
        ((b'A' ∷ [], []) ∷ [])
        (record { cols = 80; rows = 24 }))
      paired_daemon
    ≡ handle_remote linked world
        (phone true)
        (create_session []
          (default_session_command none)
          (default_home_dir none)
          []
          (record { cols = 80; rows = 24 }))
        paired_daemon
unfolding iroh_client_kind_error
create_session-shell_only_example =
    create_session-shell_only linked world (phone true) [] ((b'r' ∷ []) ∷ []) (b'/' ∷ [])
      ((b'A' ∷ [], []) ∷ []) (record { cols = 80; rows = 24 }) paired_daemon refl

handle_local_phone-Keeps_example :
    Keeps paired_daemon
      (handle_local linked world
        (connected (b'k' ∷ []) ios_app)
        (remove_device phone_id)
        paired_daemon).daemon
handle_local_phone-Keeps_example =
    handle_local_phone-Keeps linked world (connected (b'k' ∷ []) ios_app) (remove_device phone_id)
      paired_daemon refl

abbrev removed_daemon : Daemon (List ℕ)
removed_daemon = (handle_local linked world desktop (remove_device phone_id) paired_daemon).daemon

remove_device-remote_round_example :
    (lookup phone_id removed_daemon.devices.device_revocations ≡ revoked none)
    × (remote_round linked world (phone true) (received list_sessions) removed_daemon
        ≡ record { sent = []; connection = phone true; daemon = removed_daemon; goes_on = false })
unfolding lookup find_device Devices.remove_device
remove_device-remote_round_example =
    remove_device-remote_round linked world world desktop (phone true) phone_id list_sessions
      paired_daemon (device [] phone_id 5 none none none) (refl, (refl, tt)) refl refl refl refl
      refl

-- The protocol of the version before serves devices that are paired.
old_protocol :
    (hello_remote linked world other_id (hello ios_app [] 4) paired_daemon).goes_on ≡ true
unfolding hello_remote lookup watch subscribe_device_revocation is_device_paired mark_device_seen
    insert
old_protocol = refl

old_protocol_unpaired :
    (hello_remote linked world (b'x' ∷ []) (hello ios_app [] 4) paired_daemon).sent
    ≡ error version_mismatch ∷ []
unfolding hello_remote lookup is_device_paired
old_protocol_unpaired = refl

not_a_phone :
    (hello_remote linked world other_id (hello local_cli [] 5) paired_daemon).sent
    ≡ error forbidden ∷ []
unfolding hello_remote lookup is_device_paired
not_a_phone = refl

-- The groups of the text that both ends compare.
sas_groups :
    join_chunks 9 (b'A' ∷ b'B' ∷ b'C' ∷ b'D' ∷ b'E' ∷ [])
    ≡ b'A' ∷ b'B' ∷ b'C' ∷ b'D' ∷ b'-' ∷ b'E' ∷ []
unfolding join_chunks
sas_groups = refl

abbrev one_live : Daemon (List ℕ)
one_live = record (with_devices []) { live = (b's' ∷ [], live) ∷ [] }

abbrev unresized : World (List ℕ)
unresized = record world { takes = false }

abbrev attaching : ClientToServerMsg
attaching = attach_session (b's' ∷ []) (record { cols = 80; rows = 24 }) none

attach_session-counted_example :
    ((handle_local linked unresized desktop attaching one_live).sent ≡ error internal ∷ [])
    × (after : Live (List ℕ)) × (lookup
          (b's' ∷ [])
          (end_local
            (handle_local linked unresized desktop attaching one_live).connection
            (handle_local linked unresized desktop attaching one_live).daemon).live
        ≡ some after)
    × (lookup (b'k' ∷ []) after.sizes.attached_sizes ≡ some (record { cols = 80; rows = 24 }))
unfolding lookup is_valid_size
attach_session-counted_example =
    attach_session-counted linked unresized desktop (b's' ∷ []) (record { cols = 80; rows = 24 })
      none live one_live refl refl refl refl
