-- ===== src/Dispatch/Kept.antt =====
-- The requests on sessions change neither the devices nor the pairing.
use shelly.Prelude.{
  ℕ, ◌≡◌, refl, ◌∙◌, Bool, true, false, Option, none, some, List, Text, arith, Bool-cases,
  Option-cases, inl, inr, text_eq,
}
use shelly.Prelude.Dict.{Dict, lookup}
use shelly.Session.{ClientSize}
use shelly.Session.Clients.{Attached, attach_client}
use shelly.Session.Output.{Terminal, attach_bytes}
use shelly.Persistence.{StoredSession}
use shelly.Registry.Names.{is_valid_size}
use shelly.Dispatch.{Live, Daemon, World, Linked, Connection}
use shelly.Dispatch.Requests.{
  put_live, published, materialize, drop_attached, release, resize_session, create_session_reply,
  kill_session_reply, input_session, released,
}
use shelly.Dispatch.Attaching.{
  attached_reply, attach_restored, attach_live, attach_sized, attach_session_reply,
}

-- Neither the paired devices nor the pairing differ.
abbrev pub Keeps : {T : Type 0} → Daemon T → Daemon T → Type 0
Keeps d e = (e.devices ≡ d.devices) × (e.pairing ≡ d.pairing)

module _ {T : Type 0} where
  drop_attached-Keeps :
      (client_id : Text) (session : Option Text) (d : Daemon T)
      → Keeps d (drop_attached client_id session d)
  unfolding drop_attached put_live
  drop_attached-Keeps client_id none d = (refl, refl)
  drop_attached-Keeps client_id (some id) d = ground arith

  pub release-Keeps : (c : Connection) (d : Daemon T) → Keeps d (release c d)
  unfolding release
  release-Keeps c d = drop_attached-Keeps c.client_id c.attached_client d

  pub resize_session-Keeps :
      (id : Text) (size : ClientSize) (c : Connection) (d : Daemon T)
      → Keeps d (resize_session id size c d).daemon
  unfolding resize_session put_live
  resize_session-Keeps id size c d = ground arith

  pub input_session-Keeps :
      (w : World T) (id : Text) (bytes : List ℕ) (c : Connection) (d : Daemon T)
      → Keeps d (input_session w id bytes c d).daemon
  unfolding input_session put_live
  input_session-Keeps w id bytes c d = ground arith

  pub materialize-Keeps : (term : Terminal T) (d : Daemon T) → Keeps d (materialize term d)
  unfolding materialize
  materialize-Keeps term d = (refl, refl)

  pub kill_session_reply-Keeps :
      (term : Terminal T) (w : World T) (id : Text) (c : Connection) (d : Daemon T)
      → Keeps d (kill_session_reply term w id c d).daemon
  unfolding kill_session_reply put_live published materialize
  kill_session_reply-Keeps term w id c d = ground arith

  pub create_session_reply-Keeps :
      (term : Terminal T) (w : World T) (name : Text) (command : List Text) (cwd : Text)
      (env : Dict Text Text) (size : ClientSize) (c : Connection) (d : Daemon T)
      → Keeps d (create_session_reply term w name command cwd env size c d).daemon
  unfolding create_session_reply published materialize
  create_session_reply-Keeps term w name command cwd env size c d = ground arith

  attach_restored-Keeps :
      (id : Text) (stored : Option StoredSession) (c : Connection) (d : Daemon T)
      → Keeps d (attach_restored id stored c d).daemon
  unfolding attach_restored
  attach_restored-Keeps id none c d = (refl, refl)
  attach_restored-Keeps id (some stored) c d = (refl, refl)

  attached_reply-Keeps :
      (id : Text) (code : Option ℕ) (screen : ℕ × List ℕ) (live : Live T) (c : Connection)
      (d : Daemon T)
      → Keeps d (attached_reply id code screen live c d).daemon
  unfolding attached_reply put_live
  attached_reply-Keeps id none (seq, bytes) live c d = (refl, refl)
  attached_reply-Keeps id (some code) (seq, bytes) live c d = (refl, refl)

  module _ (linked : Linked T) where
    attach_sized-Keeps :
        (w : World T) (id : Text) (last_seen : Option ℕ) (live : Live T) (sized : Bool × Attached)
        (c : Connection) (d : Daemon T)
        → Keeps d (attach_sized linked w id last_seen live sized c d).daemon
    unfolding put_live
    attach_sized-Keeps w id last_seen live (false, sizes) c d = (refl, refl)
    attach_sized-Keeps w id last_seen live (true, sizes) c d =
        let screen = attach_bytes linked.terminal w.cut last_seen live.shown in
        attached_reply-Keeps id screen.1.shown.exit_code screen.0
          (record live { sizes = sizes; shown = screen.1 }) c d

    attach_live-Keeps :
        (w : World T) (id : Text) (size : ClientSize) (last_seen : Option ℕ)
        (found : Option (Live T)) (c : Connection) (d : Daemon T)
        → Keeps d (attach_live linked w id size last_seen found c d).daemon
    attach_live-Keeps w id size last_seen none c d =
        attach_restored-Keeps id (lookup id d.registry.restored) c d
    attach_live-Keeps w id size last_seen (some live) c d =
        attach_sized-Keeps w id last_seen live (attach_client w.takes c.client_id size live.sizes) c
          d

    pub attach_session_reply-Keeps :
        (w : World T) (id : Text) (size : ClientSize) (last_seen : Option ℕ) (c : Connection)
        (d : Daemon T)
        → Keeps d (attach_session_reply linked w id size last_seen c d).daemon
    unfolding attach_session_reply
    attach_session_reply-Keeps w id size last_seen c d = elim (Bool-cases (is_valid_size size)) [
      | inr e ↦ rw (e, attach_session_reply) (refl, refl)
      | inl e ↦ elim (Option-cases (lookup id d.live)) [
        | inl f ↦
            rw (e, f, attach_session_reply)
              (attach_restored-Keeps id (lookup id d.registry.restored) c d)
        | inr (live, f) ↦
            let free : Daemon T = release c d in
            let kept = release-Keeps c d in
            let then_kept =
              attach_live-Keeps w id size last_seen (lookup id free.live) (released c) free in
            rw (e, f, attach_session_reply) (then_kept.0 ∙ kept.0, then_kept.1 ∙ kept.1)
      ]
    ]
