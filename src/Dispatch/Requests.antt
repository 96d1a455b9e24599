-- ===== src/Dispatch/Requests.antt =====
-- crates/daemon/src/ipc.rs and transport_iroh.rs: the requests on sessions, which both transports serve
-- alike.
use shelly.Prelude.{
  ℕ, true, Option, none, some, List, [], ◌∷◌, Text, Result, ok, err, if◌then◌else◌, text_eq,
}
use shelly.Prelude.Dict.{Dict, lookup, insert, remove}
use shelly.Relay.Checks.{trim}
use shelly.Session.{Session, ClientSize}
use shelly.Session.Output.{Terminal, materialize_last_line}
use shelly.Session.Clients.{
  WriteQueue, PtyWriteError, detach_client, update_client_size, write_input, kill,
}
use shelly.Registry.{
  Registry, LiveSession, KillError, summaries, publish_session_list, kill_session_for,
}
use shelly.Registry.Names.{CreateError, is_valid_size, create_session_for}
use shelly.Dispatch.Messages.{
  ClientKind, session_list, session_created, session_killed, error, not_found, invalid_request,
  internal,
}
use shelly.Dispatch.{
  Live, Daemon, Spawn, World, Connection, Reply, reply, requires_shell_only_sessions,
}

-- "/bin/sh"
abbrev pub bin_sh : Text
bin_sh = b'/' ∷ b'b' ∷ b'i' ∷ b'n' ∷ b'/' ∷ b's' ∷ b'h' ∷ []

-- A variable of the environment that is not a text counts as not set.
unfoldable pub default_shell_from_env : Option Text → Text
default_shell_from_env none = bin_sh
default_shell_from_env (some value) = elim (trim value) [ [] ↦ bin_sh | c ∷ s ↦ c ∷ s ]

unfoldable pub default_session_command : Option Text → List Text
unfolding default_shell_from_env
default_session_command shell = default_shell_from_env shell ∷ []

unfoldable pub default_home_dir : Option Text → Text
default_home_dir none = b'/' ∷ []
default_home_dir (some []) = b'/' ∷ []
default_home_dir (some (c ∷ path)) = c ∷ path

-- What a summary shows of a session, as `cached_summary` reads it.
abbrev pub refresh : Session → LiveSession → LiveSession
refresh s entry = record {
  stored = record entry.stored {
    summary = record entry.stored.summary {
      last_activity = s.last_activity;
      state = s.state;
      last_line = s.last_line;
    };
    exit_code = s.exit_code;
  };
  was_killed = s.killed;
}

unfoldable pub refresh_at : Text → Session → Dict Text LiveSession → Dict Text LiveSession
refresh_at id s sessions = elim (lookup id sessions) [
  | none ↦ sessions
  | some entry ↦ insert id (refresh s entry) sessions
]

abbrev pub released : Connection → Connection
released c = record c { attached_client = none; forwarding = none }

module _ {T : Type 0} where
  -- A live session is changed in place.
  unfoldable pub put_live : Text → Live T → Daemon T → Daemon T
  unfolding refresh_at
  put_live id live d = record d {
    live = insert id live d.live;
    registry = record d.registry { sessions = refresh_at id live.shown.shown d.registry.sessions };
  }

  -- `Drop` of an `AttachedClient`; a session that is not in the map any more has no use for it.
  unfoldable pub drop_attached : Text → Option Text → Daemon T → Daemon T
  unfolding put_live
  drop_attached client_id none d = d
  drop_attached client_id (some id) d = elim (lookup id d.live) [
    | none ↦ d
    | some live ↦ put_live id (record live { sizes = detach_client client_id live.sizes }) d
  ]

  -- The client is let go of the session that it was attached to.
  unfoldable pub release : Connection → Daemon T → Daemon T
  unfolding drop_attached
  release c d = drop_attached c.client_id c.attached_client d

  -- `summary` of each session that runs: its last line is read from its terminal first.
  unfoldable pub materialize_live : Terminal T → Dict Text (Live T) → Dict Text (Live T)
  unfolding materialize_last_line
  materialize_live term [] = []
  materialize_live term ((id, live) ∷ rest) =
      (id, record live { shown = materialize_last_line term live.shown })
      ∷ materialize_live term rest

  unfoldable pub refresh_all : Dict Text (Live T) → Dict Text LiveSession → Dict Text LiveSession
  unfolding refresh_at
  refresh_all [] sessions = sessions
  refresh_all ((id, live) ∷ rest) sessions =
      refresh_all rest (refresh_at id live.shown.shown sessions)

  unfoldable pub materialize : Terminal T → Daemon T → Daemon T
  unfolding materialize_live refresh_all
  materialize term d =
      let shown : Dict Text (Live T) = materialize_live term d.live in
      record d {
        live = shown;
        registry = record d.registry { sessions = refresh_all shown d.registry.sessions };
      }

  -- The list is published with the last lines as they are now.
  unfoldable pub published : Terminal T → Daemon T → Daemon T
  unfolding materialize publish_session_list
  published term d =
      let seen : Daemon T = materialize term d in
      record seen { registry = publish_session_list seen.registry }

  unfoldable pub list_sessions_reply : Terminal T → Connection → Daemon T → Reply T Connection
  unfolding materialize
  list_sessions_reply term c d =
      let seen : Daemon T = materialize term d in
      reply (session_list (summaries seen.registry) ∷ []) c seen

  unfoldable pub subscribe_sessions_reply : Connection → Daemon T → Reply T Connection
  subscribe_sessions_reply c d =
      reply (session_list d.registry.session_list ∷ []) (record c { lists = true }) d

  unfoldable pub resize_session : Text → ClientSize → Connection → Daemon T → Reply T Connection
  unfolding put_live
  resize_session id size c d =
      if is_valid_size size
      then elim (lookup id d.live) [
        | none ↦ reply (error not_found ∷ []) c d
        | some live ↦
            reply [] c (
              put_live id (record live { sizes = update_client_size c.client_id size live.sizes })
                d)
      ]
      else reply (error invalid_request ∷ []) c d

  -- The entries behind a kill that has succeeded.
  abbrev pub killed_reply :
      Terminal T
      → Text
      → Result KillError (Unit {0}) × Registry
      → Connection
      → Daemon T
      → Reply T Connection
  killed_reply term id (ok u, registry) c d =
      reply (session_killed id ∷ []) c
        (published term (record d { registry = registry; live = remove id d.live }))
  killed_reply term id (err KillError.not_removed, registry) c d =
      reply (error internal ∷ []) c
        (published term (record d { registry = registry; live = remove id d.live }))
  killed_reply term id (err KillError.not_killed, registry) c d =
      reply (error internal ∷ []) c (record d { registry = registry })

  -- A session that did not get its name or did not start is an error of the request. The summary of the
  -- new session is read from its own terminal.
  abbrev pub created_reply :
      Terminal T
      → (Text → Live T)
      → Option (Result CreateError Text × Registry)
      → Connection
      → Daemon T
      → Reply T Connection
  created_reply term started none c d = reply [] c d
  created_reply term started (some (err e, registry)) c d =
      reply (error invalid_request ∷ []) c (record d { registry = registry })
  created_reply term started (some (ok id, registry)) c d =
      reply
        (elim (lookup id registry.sessions) [
          | none ↦ []
          | some entry ↦
              session_created id
                (refresh (materialize_last_line term (started id).shown).shown entry).stored.summary
              ∷ []
        ])
        c (published term (record d { registry = registry; live = insert id (started id) d.live }))

  -- What is started for a kind of client: the clients that are not on the desktop get the shell.
  unfoldable pub spawn_for :
      World T → ClientKind → List Text → Text → Dict Text Text → ClientSize → Text → Spawn
  unfolding requires_shell_only_sessions default_session_command default_home_dir
  spawn_for w kind command cwd env size name =
      if requires_shell_only_sessions kind
      then record {
        name = name;
        command = default_session_command w.shell;
        cwd = default_home_dir w.home;
        env = [];
        size = size;
      }
      else record { name = name; command = command; cwd = cwd; env = env; size = size }

  -- The search for a name ends (Registry/Fresh) with fewer than 2^31 - 4 names, so there is an answer.
  unfoldable pub create_session_reply :
      Terminal T
      → World T
      → Text
      → List Text
      → Text
      → Dict Text Text
      → ClientSize
      → Connection
      → Daemon T
      → Reply T Connection
  unfolding spawn_for published
  create_session_reply term w name command cwd env size c d =
      if is_valid_size size
      then created_reply term w.started
          (create_session_for w.start name size
            (λ reserved. w.spawn (spawn_for w c.client_kind command cwd env size reserved))
            d.registry)
          c d
      else reply (error invalid_request ∷ []) c d

  -- The kill of a live session marks it killed before its process is signalled.
  unfoldable pub kill_session_reply :
      Terminal T → World T → Text → Connection → Daemon T → Reply T Connection
  unfolding put_live published
  kill_session_reply term w id c d = elim (lookup id d.live) [
    | none ↦ killed_reply term id (kill_session_for true w.commits id d.registry) c d
    | some live ↦
        let (kills, s, p) = kill w.status w.kills live.shown.shown live.process in
        let marked : Daemon T =
          put_live id (record live { shown = record live.shown { shown = s }; process = p }) d in
        killed_reply term id (kill_session_for kills w.commits id marked.registry) c marked
  ]

  abbrev pub input_reply :
      Text
      → Live T
      → Result PtyWriteError (Unit {0}) × WriteQueue × Session
      → Connection
      → Daemon T
      → Reply T Connection
  input_reply id live (ok u, q, s) c d =
      reply [] c
        (put_live id (record live { queue = q; shown = record live.shown { shown = s } }) d)
  input_reply id live (err e, q, s) c d =
      reply (error internal ∷ []) c
        (put_live id (record live { queue = q; shown = record live.shown { shown = s } }) d)

  unfoldable pub input_session :
      World T → Text → List ℕ → Connection → Daemon T → Reply T Connection
  unfolding put_live
  input_session w id bytes c d = elim (lookup id d.live) [
    | none ↦ reply (error not_found ∷ []) c d
    | some live ↦ input_reply id live (write_input w.now bytes live.queue live.shown.shown) c d
  ]
