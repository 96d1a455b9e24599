-- ===== src/Relay/Daemons.antt =====
-- `register_daemon`: the registration of a daemon's key. Other requests may run between its parts, so
-- the parts are steps of their own: what is observed, the change in memory, and the durable store.
use shelly.Prelude.{
  ℕ, ◌/◌, not, Bool, false, ◌&&◌, ◌==◌, Option, none, some, List, [], ◌∷◌, Text, Eq, text_eq, ok,
  err, if◌then◌else◌,
}
use shelly.Prelude.Io.{◌>>=◌, ◌>>◌, pure, require, get}
use shelly.Prelude.Dict.{Dict, lookup, insert, remove}
use shelly.Relay.State.{
  Env, RelayInner, DaemonRegistration, bad_request, invalid_json, forbidden, other_key,
  register_rate_limited, daemon_capacity, registration_conflict, internal, register_rate_limits,
  register_attempts_per_minute, max_daemons, bump,
}
use shelly.Relay.Steps.{Relay, with_inner, count, stored, limit}
use shelly.Relay.Checks.{
  ok_or, client_identifier, decode_public_key, daemon_capacity_exceeded, registration_key_changed,
}
use shelly.Relay.Signatures.{SignedRequest, RegistrationProof, public_key_of}
use shelly.Relay.Verifying.{verify_signed_request, verify_registration_proof}

pub record RegisterDaemonRequest : Type 0 where
  pub daemon_node_id : Text
  pub public_key : Text
  pub nonce : Option Text
  pub ts_ms : Option ℕ
  pub proof : Option RegistrationProof

-- What the HTTP server hands to a handler; `clock` gives the successive readings of the clock, and
-- `parsed` is the body as it was read, if it was valid.
pub record Http (Request : Type 0) : Type 0 where
  pub clock : ℕ → ℕ
  pub peer_ip : Text
  pub forwarded : Option Text
  pub signature : Option Text
  pub body : List ℕ
  pub parsed : Option Request

-- "POST"
abbrev pub post : Text
post = b'P' ∷ b'O' ∷ b'S' ∷ b'T' ∷ []

-- "/v1/pair"
abbrev pub pair_path : Text
pair_path = b'/' ∷ b'v' ∷ b'1' ∷ b'/' ∷ b'p' ∷ b'a' ∷ b'i' ∷ b'r' ∷ []

unfoldable pub signed : {Request : Type 0} → Http Request → Text → Text → Text → ℕ → SignedRequest
signed http path daemon_node_id nonce ts_ms = record {
  method = post;
  path = path;
  body = http.body;
  signature = http.signature;
  daemon_node_id = daemon_node_id;
  nonce = nonce;
  ts_ms = ts_ms;
}

module _ {Key Sig S C : Type 0} ⦃key_eq : Eq Key⦄ (env : Env Key Sig S C) where
  -- A known daemon's key is replaced only by a request that is signed with it.
  unfoldable pub authorize_key :
      Http RegisterDaemonRequest
      → RegisterDaemonRequest
      → Option Key
      → Key
      → Relay Key S C (Unit {0})
  unfolding signed
  authorize_key http request none public_key = pure (ok tt)
  authorize_key http request (some existing) public_key =
      let rotation : Relay Key S C (Unit {0}) = elim request.nonce [
        | none ↦ pure (err (forbidden other_key))
        | some nonce ↦ elim request.ts_ms [
          | none ↦ pure (err (forbidden other_key))
          | some ts_ms ↦
              verify_signed_request env (http.clock 2)
                (signed http pair_path request.daemon_node_id nonce ts_ms)
        ]
      ] in
      if key_eq.beq existing public_key then pure (ok tt) else rotation

  -- The part before the state is changed: the daemon's id, the key, and the registration that was
  -- found.
  unfoldable pub register_observe :
      Http RegisterDaemonRequest → Relay Key S C (Text × Key × Option (DaemonRegistration Key))
  unfolding authorize_key ok_or client_identifier decode_public_key daemon_capacity_exceeded
      public_key_of
  register_observe http = do
    limit env register_rate_limits (client_identifier env http.peer_ip http.forwarded)
        (http.clock 0 / 60000) register_attempts_per_minute register_rate_limited
    request ← pure (ok_or http.parsed (bad_request invalid_json))
    public_key ← pure (decode_public_key env request.public_key)
    (elim request.proof [
      | none ↦ pure (ok tt)
      | some proof ↦
          verify_registration_proof env (http.clock 1) request.daemon_node_id public_key proof
    ])
    s ← get
    require (not (daemon_capacity_exceeded s.inner request.daemon_node_id max_daemons))
        daemon_capacity
    authorize_key http request (public_key_of request.daemon_node_id s.inner) public_key
    pure (ok (request.daemon_node_id, public_key, lookup request.daemon_node_id s.inner.daemons))

  -- The change in memory.
  unfoldable pub register_commit :
      Text → DaemonRegistration Key → Option (DaemonRegistration Key) → Relay Key S C (Unit {0})
  unfolding daemon_capacity_exceeded registration_key_changed public_key_of
  register_commit daemon_node_id registration existing s =
      let current_key = public_key_of daemon_node_id s.inner in
      let existing_key : Option Key = elim existing [ none ↦ none | some r ↦ some r.public_key ] in
      if daemon_capacity_exceeded s.inner daemon_node_id max_daemons
      then (err daemon_capacity, s)
      else if registration_key_changed existing_key current_key registration.public_key
      then (err registration_conflict, s)
      else (
        ok tt,
        with_inner
            (λ inner. record inner { daemons = insert daemon_node_id registration inner.daemons })
            s,
      )

  unfoldable pub same_registration : Option (DaemonRegistration Key) → DaemonRegistration Key → Bool
  same_registration none attempted = false
  same_registration (some r) attempted =
      key_eq.beq r.public_key attempted.public_key && r.updated_at_ms == attempted.updated_at_ms

  unfoldable pub rollback_daemon_registration :
      Text
      → Option (DaemonRegistration Key)
      → DaemonRegistration Key
      → RelayInner Key
      → RelayInner Key
  unfolding same_registration
  rollback_daemon_registration daemon_node_id previous attempted inner =
      let restored : Dict Text (DaemonRegistration Key) = elim previous [
        | some r ↦ insert daemon_node_id r inner.daemons
        | none ↦ remove daemon_node_id inner.daemons
      ] in
      if same_registration (lookup daemon_node_id inner.daemons) attempted
      then record inner { daemons = restored }
      else inner

  -- The durable store; where it fails, the change in memory is taken back.
  unfoldable pub register_store :
      Text → DaemonRegistration Key → Option (DaemonRegistration Key) → Relay Key S C (Unit {0})
  unfolding rollback_daemon_registration stored
  register_store daemon_node_id registration existing s =
      let (answer, behind) =
        stored env tt (λ store. store.save_daemon daemon_node_id registration) s in
      elim answer [
        | ok _ ↦ (
          ok tt,
          count
              (λ metrics. record metrics {
                daemon_registrations = bump metrics.daemon_registrations;
              })
              behind,
        )
        | err error ↦ (
          err (internal error),
          with_inner (rollback_daemon_registration daemon_node_id existing registration) behind,
        )
      ]

  -- The handler, with nothing in between.
  unfoldable pub register_daemon : Http RegisterDaemonRequest → Relay Key S C (Unit {0})
  unfolding register_observe register_commit register_store
  register_daemon http = do
    (daemon_node_id, public_key, existing) ← register_observe http
    let registration : DaemonRegistration Key = record {
      public_key = public_key;
      updated_at_ms = http.clock 3;
    }
    register_commit daemon_node_id registration existing
    register_store daemon_node_id registration existing
