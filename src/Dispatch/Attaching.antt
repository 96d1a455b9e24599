-- ===== src/Dispatch/Attaching.antt =====
-- crates/daemon/src/ipc.rs and transport_iroh.rs: the attachment of a client to a session.
use shelly.Prelude.{
  ℕ, Bool, true, false, Option, none, some, List, [], ◌∷◌, Text, length, if◌then◌else◌, text_eq,
}
use shelly.Prelude.Dict.{lookup}
use shelly.Ring.{saturating_add}
use shelly.Session.{ClientSize}
use shelly.Session.Clients.{Attached, attach_client, detach_client}
use shelly.Session.Output.{attach_bytes}
use shelly.Persistence.{StoredSession}
use shelly.Registry.Names.{is_valid_size}
use shelly.Dispatch.Messages.{attached, session_exited, error, not_found, invalid_request, internal}
use shelly.Dispatch.{Live, Daemon, World, Linked, Connection, Reply, reply}
use shelly.Dispatch.Requests.{put_live, release, released}

abbrev pub unwrap_or_zero : Option ℕ → ℕ
unwrap_or_zero none = 0
unwrap_or_zero (some code) = code

module _ {T : Type 0} where
  -- Behind the attachment: a session that has ended is shown, and the client is let go again.
  unfoldable pub attached_reply :
      Text → Option ℕ → ℕ × List ℕ → Live T → Connection → Daemon T → Reply T Connection
  unfolding put_live
  attached_reply id none (seq, bytes) live c d =
      reply (attached id bytes seq ∷ [])
        (record c { attached_client = some id; forwarding = some (id, seq) }) (put_live id live d)
  attached_reply id (some code) (seq, bytes) live c d =
      reply (attached id bytes seq ∷ session_exited id code ∷ []) c
        (put_live id (record live { sizes = detach_client c.client_id live.sizes }) d)

  -- A session that is only kept: its output and its end.
  unfoldable pub attach_restored :
      Text → Option StoredSession → Connection → Daemon T → Reply T Connection
  attach_restored id none c d = reply (error not_found ∷ []) c d
  attach_restored id (some stored) c d =
      reply
        (attached id stored.scrollback
            (saturating_add stored.scrollback_start_seq (length stored.scrollback))
          ∷ session_exited id (unwrap_or_zero stored.exit_code)
          ∷ [])
        c d

  module _ (linked : Linked T) where
    -- A terminal that does not take the size is an error, and the client is not attached.
    abbrev pub attach_sized :
        World T
        → Text
        → Option ℕ
        → Live T
        → Bool × Attached
        → Connection
        → Daemon T
        → Reply T Connection
    attach_sized w id last_seen live (false, sizes) c d =
        reply (error internal ∷ []) c (put_live id (record live { sizes = sizes }) d)
    attach_sized w id last_seen live (true, sizes) c d =
        let screen = attach_bytes linked.terminal w.cut last_seen live.shown in
        attached_reply id screen.1.shown.exit_code screen.0
          (record live { sizes = sizes; shown = screen.1 }) c d

    abbrev pub attach_live :
        World T
        → Text
        → ClientSize
        → Option ℕ
        → Option (Live T)
        → Connection
        → Daemon T
        → Reply T Connection
    attach_live w id size last_seen none c d =
        attach_restored id (lookup id d.registry.restored) c d
    attach_live w id size last_seen (some live) c d =
        attach_sized w id last_seen live (attach_client w.takes c.client_id size live.sizes) c d

    -- The session is found before the client is let go of the one before, and is the same behind it.
    unfoldable pub attach_session_reply :
        World T → Text → ClientSize → Option ℕ → Connection → Daemon T → Reply T Connection
    unfolding put_live attach_restored attached_reply release
    attach_session_reply w id size last_seen c d =
        if is_valid_size size
        then elim (lookup id d.live) [
          | none ↦ attach_restored id (lookup id d.registry.restored) c d
          | some live ↦
              let free : Daemon T = release c d in
              attach_live w id size last_seen (lookup id free.live) (released c) free
        ]
        else reply (error invalid_request ∷ []) c d
