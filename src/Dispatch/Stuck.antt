-- ===== src/Dispatch/Stuck.antt =====
-- A client whose attachment fails at the terminal.
use shelly.Prelude.{
  ℕ, ◌≡◌, refl, Bool, true, false, Option, none, some, [], ◌∷◌, Text, arith, text_eq,
}
use shelly.Prelude.Dict.{Dict, lookup, insert, lookup-insert_self}
use shelly.Session.{ClientSize, min_client_size}
use shelly.Session.Clients.{Attached, attach_client, apply_min_attached_resize, resize}
use shelly.Session.Smallest.{attach_client_counted}
use shelly.Registry.Names.{is_valid_size}
use shelly.Dispatch.Messages.{attach_session, error, internal}
use shelly.Dispatch.{Live, Daemon, World, Linked, Connection}
use shelly.Dispatch.Requests.{put_live, release, released, drop_attached}
use shelly.Dispatch.Attaching.{attach_session_reply, attach_sized}
use shelly.Dispatch.Local.{handle_local, end_local}

apply-false :
    (sizes : Dict Text ClientSize) (id : Text) (size : ClientSize) (a : Attached)
    → (apply_min_attached_resize false (record a { attached_sizes = insert id size sizes })).0
      ≡ false
unfolding apply_min_attached_resize min_client_size resize insert
apply-false [] id size a = refl
apply-false ((j, old) ∷ sizes) id size a = ground arith

attach_client-false :
    (id : Text) (size : ClientSize) (a : Attached) → (attach_client false id size a).0 ≡ false
unfolding attach_client
attach_client-false id size a = apply-false a.attached_sizes id size a

module _ {T : Type 0} (linked : Linked T) where
  attach_sized-false :
      (w : World T) (id : Text) (last_seen : Option ℕ) (live : Live T) (sized : Bool × Attached)
      (c : Connection) (d : Daemon T)
      → sized.0 ≡ false
      → ((attach_sized linked w id last_seen live sized c d).sent ≡ error internal ∷ [])
        × ((attach_sized linked w id last_seen live sized c d).connection ≡ c)
        × ((attach_sized linked w id last_seen live sized c d).daemon
            ≡ put_live id (record live { sizes = sized.1 }) d)
  attach_sized-false w id last_seen live (false, sizes) c d e = (refl, refl, refl)
  attach_sized-false w id last_seen live (true, sizes) c d e = absurd (cc e)

  -- A client that is refused because the terminal does not take the new size stays counted: it is told
  -- that the attachment has failed, and where its connection ends right after that answer, its size is
  -- still among those of the session behind the end. The session runs, the size is one that is
  -- accepted, and the client was not attached to a session before.
  pub attach_session-counted :
      (w : World T) (c : Connection) (id : Text) (size : ClientSize) (last_seen : Option ℕ)
      (live : Live T) (d : Daemon T)
      → is_valid_size size ≡ true
      → lookup id d.live ≡ some live
      → c.attached_client ≡ none
      → w.takes ≡ false
      → ((handle_local linked w c (attach_session id size last_seen) d).sent ≡ error internal ∷ [])
        × (after : Live T) × (lookup id
              (end_local
                (handle_local linked w c (attach_session id size last_seen) d).connection
                (handle_local linked w c (attach_session id size last_seen) d).daemon).live
            ≡ some after)
        × (lookup c.client_id after.sizes.attached_sizes ≡ some size)
  unfolding handle_local attach_session_reply end_local release drop_attached put_live
  attach_session-counted w c id size last_seen live d valid found fresh fails =
      let sized = attach_client false c.client_id size live.sizes in
      let r =
        attach_sized-false w id last_seen live sized (released c) d
          (attach_client-false c.client_id size live.sizes) in
      simp (valid, found, fresh, fails, attach_session_reply, release)
        (
          r.0,
          record live { sizes = sized.1 },
          simp (r.1, r.2) (lookup-insert_self id (record live { sizes = sized.1 }) d.live),
          attach_client_counted false c.client_id size live.sizes,
        )
