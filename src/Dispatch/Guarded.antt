-- ===== src/Dispatch/Guarded.antt =====
-- What a client may not do: a peer that is not paired, a phone over the desktop's socket, and a phone
-- that asks for a command.
use shelly.Prelude.{
  ◌≡◌, refl, ap, Bool, true, false, none, List, [], ◌∷◌, Text, if◌then◌else◌, text_eq,
}
use shelly.Prelude.Dict.{Dict}
use shelly.Session.{ClientSize}
use shelly.Registry.Names.{is_valid_size, create_session_for}
use shelly.Dispatch.Messages.{
  ClientKind, local_cli, ios_app, android_app, ClientToServerMsg, list_sessions, create_session,
  attach_session, kill_session, input, resize, begin_pairing, approve_pairing, pair_with_code,
  list_devices, remove_device, agent_state_event, unpair_self, error, unauthorized, invalid_request,
}
use shelly.Dispatch.{
  Daemon, Spawn, World, Linked, Connection, reply, is_local_cli, may_emit_agent_state_event,
  may_create_or_kill_session, requires_shell_only_sessions,
}
use shelly.Dispatch.Requests.{
  list_sessions_reply, subscribe_sessions_reply, default_session_command, default_home_dir,
  spawn_for, create_session_reply, created_reply,
}
use shelly.Dispatch.Local.{handle_local}
use shelly.Dispatch.Hello.{iroh_client_kind_error}
use shelly.Dispatch.Peer.{Remote, received, require_paired, shared_reply}
use shelly.Dispatch.Remote.{handle_remote, remote_round}
use shelly.Dispatch.Kept.{
  Keeps, attach_session_reply-Keeps, create_session_reply-Keeps, kill_session_reply-Keeps,
  materialize-Keeps, input_session-Keeps, resize_session-Keeps,
}

-- Everything but the pairing itself and its end.
abbrev pub needs_pairing : ClientToServerMsg → Bool
needs_pairing (pair_with_code code name claimed) = false
needs_pairing unpair_self = false
needs_pairing _ = true

phone-may_emit :
    (kind : ClientKind) → is_local_cli kind ≡ false → may_emit_agent_state_event kind ≡ false
unfolding may_emit_agent_state_event
phone-may_emit local_cli h = absurd (cc h)
phone-may_emit ios_app h = refl
phone-may_emit android_app h = refl

spawn_for-shell :
    {T : Type 0} (w : World T) (kind : ClientKind) (command : List Text) (cwd : Text)
    (env : Dict Text Text) (size : ClientSize)
    → iroh_client_kind_error kind ≡ none
    → spawn_for w kind command cwd env size
      ≡ spawn_for w kind (default_session_command w.shell) (default_home_dir w.home) [] size
unfolding spawn_for iroh_client_kind_error requires_shell_only_sessions
spawn_for-shell w local_cli command cwd env size h = absurd (cc h)
spawn_for-shell w ios_app command cwd env size h = refl
spawn_for-shell w android_app command cwd env size h = refl

module _ {T : Type 0} (linked : Linked T) where
  handle_remote-unpaired :
      (w : World T) (c : Remote) (message : ClientToServerMsg) (d : Daemon T)
      → c.paired ≡ false
      → needs_pairing message ≡ true
      → handle_remote linked w c message d ≡ reply (error unauthorized ∷ []) c d
  unfolding handle_remote
  handle_remote-unpaired w c (pair_with_code code name claimed) d e h = absurd (cc h)
  handle_remote-unpaired w c unpair_self d e h = absurd (cc h)
  handle_remote-unpaired w c _ d e h = simp (e, handle_remote) refl

  -- A peer that is not paired gets the answer that it is not authorized to every message but the
  -- pairing and its end, and the message changes nothing: neither the daemon nor the connection. The
  -- connection is not waiting for the desktop.
  pub remote_round_unpaired :
      (w : World T) (c : Remote) (message : ClientToServerMsg) (d : Daemon T)
      → c.paired ≡ false
      → c.waiting ≡ none
      → needs_pairing message ≡ true
      → remote_round linked w c (received message) d ≡ reply (error unauthorized ∷ []) c d
  unfolding remote_round
  remote_round_unpaired w c message d e f h =
      simp (f, e, remote_round) (handle_remote-unpaired w c message d e h)

  -- The program, the directory and the environment that a phone names have no effect: a phone whose
  -- kind the handshake accepts gets what it would get had it asked for the default shell in the home
  -- directory with no variables.
  pub create_session-shell_only :
      (w : World T) (c : Remote) (name : Text) (command : List Text) (cwd : Text)
      (env : Dict Text Text) (size : ClientSize) (d : Daemon T)
      → iroh_client_kind_error c.shared.client_kind ≡ none
      → handle_remote linked w c (create_session name command cwd env size) d
        ≡ handle_remote linked w c
            (create_session name
              (default_session_command w.shell)
              (default_home_dir w.home)
              []
              size)
            d
  unfolding handle_remote create_session_reply
  create_session-shell_only w c name command cwd env size d h =
      ap
        (λ (asked : Text → Spawn). require_paired c.paired c d (
          shared_reply c (
            if is_valid_size size
            then created_reply linked.terminal w.started
                (create_session_for w.start name size (λ reserved. w.spawn (asked reserved))
                  d.registry)
                c.shared d
            else reply (error invalid_request ∷ []) c.shared d)))
        (spawn_for-shell w c.shared.client_kind command cwd env size h)

  -- Over the socket of the desktop, a client that does not say that it is the desktop's command changes
  -- neither the devices nor the pairing, whatever it sends.
  pub handle_local_phone-Keeps :
      (w : World T) (c : Connection) (message : ClientToServerMsg) (d : Daemon T)
      → is_local_cli c.client_kind ≡ false
      → Keeps d (handle_local linked w c message d).daemon
  unfolding handle_local list_sessions_reply subscribe_sessions_reply may_create_or_kill_session
  handle_local_phone-Keeps w c list_sessions d h = materialize-Keeps linked.terminal d
  handle_local_phone-Keeps w c (attach_session id size last_seen) d h =
      attach_session_reply-Keeps linked w id size last_seen c d
  handle_local_phone-Keeps w c (create_session name command cwd env size) d h =
      create_session_reply-Keeps linked.terminal w name command cwd env size c d
  handle_local_phone-Keeps w c (kill_session id) d h =
      kill_session_reply-Keeps linked.terminal w id c d
  handle_local_phone-Keeps w c (input id bytes) d h = input_session-Keeps w id bytes c d
  handle_local_phone-Keeps w c (resize id size) d h = resize_session-Keeps id size c d
  handle_local_phone-Keeps w c (begin_pairing device_name) d h = simp h (refl, refl)
  handle_local_phone-Keeps w c (approve_pairing request_id approved) d h = simp h (refl, refl)
  handle_local_phone-Keeps w c list_devices d h = simp h (refl, refl)
  handle_local_phone-Keeps w c (remove_device name) d h = simp h (refl, refl)
  handle_local_phone-Keeps w c (agent_state_event id source state line) d h =
      simp (phone-may_emit c.client_kind h) (refl, refl)
  handle_local_phone-Keeps w c _ d h = (refl, refl)
