-- ===== src/Push/Registered.antt =====
-- What the worker signs, it signs for a daemon that the relay has registered.
use shelly.Prelude.{
  ◌≡◌, refl, Bool, true, false, Option, none, some, List, [], ◌∷◌, ◌++◌, Text, Result-cases, inl,
  inr, Result, ok, err,
}
use shelly.Prelude.Io.{◌>>◌, continue_with, pure}
use shelly.Protocol.{PushPlatform}
use shelly.Persistence.{StoredDevice}
use shelly.Push.{
  RelayError, RelayPushEventType, PushCommand, RelayRequest, PushWorker, Network, new, pair_request,
  register_token_request, unregister_token_request, publish_request, push_request,
  set_daemon_node_id, register_token, unregister_token, publish_pairing_rendezvous, session_event,
  post, registered, ensure_from, ensure_daemon_registered, push_all, dispatch_session_event,
  signed_post, restart, handle, recipients, get_or_insert,
}

-- The daemon for which a request is signed; the registration is not signed.
abbrev pub signer : RelayRequest → Option Text
signer (pair_request id key) = none
signer (register_token_request id platform token) = some id
signer (unregister_token_request id token) = some id
signer (publish_request id locator rendezvous) = some id
signer (push_request id token platform hash event) = some id

module _ (net : Network) where
  -- Among the requests is one that registers the daemon and that the relay has accepted.
  pub data IsRegistered (id : Text) : List RelayRequest → Type 0 where
    accepted :
        (before : List RelayRequest)
        → net.respond before (pair_request id net.public_key) ≡ ok tt
        → IsRegistered id (before ++ pair_request id net.public_key ∷ [])
    later :
        {before : List RelayRequest} (request : RelayRequest)
        → IsRegistered id before
        → IsRegistered id (before ++ request ∷ [])

  -- Every signed request comes behind the accepted registration of its daemon.
  pub data IsOrdered : List RelayRequest → Type 0 where
    nothing : IsOrdered []
    unsigned :
        {before : List RelayRequest} (request : RelayRequest)
        → signer request ≡ none
        → IsOrdered before
        → IsOrdered (before ++ request ∷ [])
    signed :
        {before : List RelayRequest} (request : RelayRequest) (id : Text)
        → signer request ≡ some id
        → IsRegistered id before
        → IsOrdered before
        → IsOrdered (before ++ request ∷ [])

  abbrev IsKnown : Option Text → List RelayRequest → Type 0
  IsKnown none posted = ⊥
  IsKnown (some id) posted = IsRegistered id posted

  abbrev IsSound : Bool → Option Text → List RelayRequest → Type 0
  IsSound false id posted = Unit {0}
  IsSound true id posted = IsKnown id posted

  -- What holds of the worker between its commands.
  pub record IsValid (worker : PushWorker) : Type 0 where
    pub ordered : IsOrdered worker.posted
    pub sound : IsSound worker.daemon_registered worker.daemon_node_id worker.posted

  IsKnown-later :
      (id : Option Text) (posted : List RelayRequest) (request : RelayRequest)
      → IsKnown id posted
      → IsKnown id (posted ++ request ∷ [])
  IsKnown-later none posted request h = h
  IsKnown-later (some id) posted request h = later request h

  IsSound-later :
      (known : Bool) (id : Option Text) (posted : List RelayRequest) (request : RelayRequest)
      → IsSound known id posted
      → IsSound known id (posted ++ request ∷ [])
  IsSound-later false id posted request h = tt
  IsSound-later true id posted request h = IsKnown-later id posted request h

  -- What an answer of `ensure_daemon_registered` says.
  abbrev IsAnswer : Result RelayError Text → PushWorker → Type 0
  IsAnswer (ok id) worker = IsRegistered id worker.posted
  IsAnswer (err e) worker = Unit {0}

  pair-IsValid :
      (id : Text) (worker : PushWorker)
      → worker.daemon_node_id ≡ some id
      → worker.daemon_registered ≡ false
      → IsValid worker
      → IsValid ((post net (pair_request id net.public_key) >> registered net id) worker).1
        × IsAnswer
            ((post net (pair_request id net.public_key) >> registered net id) worker).0
            ((post net (pair_request id net.public_key) >> registered net id) worker).1
  pair-IsValid id worker known unregistered v =
      elim (Result-cases (net.respond worker.posted (pair_request id net.public_key))) [
        | inl (u, e) ↦
            let there = accepted worker.posted e in
            rw e (
              record {
                ordered = unsigned (pair_request id net.public_key) refl v.ordered;
                sound = rw known there;
              },
              there,
            )
        | inr (error, e) ↦ rw e (
          record {
            ordered = unsigned (pair_request id net.public_key) refl v.ordered;
            sound = rw unregistered tt;
          },
          tt,
        )
      ]

  ensure_from-IsValid :
      (id : Option Text) (known : Bool) (worker : PushWorker)
      → worker.daemon_node_id ≡ id
      → worker.daemon_registered ≡ known
      → IsValid worker
      → IsValid (ensure_from net id known worker).1
        × IsAnswer (ensure_from net id known worker).0 (ensure_from net id known worker).1
  unfolding ensure_from
  ensure_from-IsValid none known worker e f v = (v, tt)
  ensure_from-IsValid (some id) false worker e f v = pair-IsValid id worker e f v
  ensure_from-IsValid (some id) true worker e f v =
      let there : IsRegistered id worker.posted = rw (f, e) at v.sound in (v, there)

  ensure-IsValid :
      (worker : PushWorker)
      → IsValid worker
      → IsValid (ensure_daemon_registered net worker).1
        × IsAnswer (ensure_daemon_registered net worker).0 (ensure_daemon_registered net worker).1
  unfolding ensure_daemon_registered
  ensure-IsValid worker v =
      ensure_from-IsValid worker.daemon_node_id worker.daemon_registered worker refl refl v

  -- A signed request of the registered daemon.
  post-IsValid :
      (request : RelayRequest) (id : Text) (worker : PushWorker)
      → signer request ≡ some id
      → IsRegistered id worker.posted
      → IsValid worker
      → IsValid (post net request worker).1
  post-IsValid request id worker own there v = record {
    ordered = signed request id own there v.ordered;
    sound =
        IsSound-later worker.daemon_registered worker.daemon_node_id worker.posted request v.sound;
  }

  push_all-IsValid :
      (id hash : Text) (event : RelayPushEventType) (first : Option RelayError)
      (to : List (PushPlatform × Text)) (worker : PushWorker)
      → IsRegistered id worker.posted
      → IsValid worker
      → IsValid (push_all net id hash event first to worker).1
  unfolding push_all
  push_all-IsValid id hash event first [] worker there v = v
  push_all-IsValid id hash event first ((platform, token) ∷ to) worker there v =
      let request = push_request id token platform hash event in
      push_all-IsValid id hash event (get_or_insert first (net.respond worker.posted request)) to
        (post net request worker).1 (later request there)
        (post-IsValid request id worker refl there v)

  -- What follows `ensure_daemon_registered`.
  then-IsValid :
      (f : Text → PushWorker → Result RelayError (Unit {0}) × PushWorker)
      (r : Result RelayError Text × PushWorker)
      → ((id : Text) (worker : PushWorker)
          → IsRegistered id worker.posted
          → IsValid worker
          → IsValid (f id worker).1)
      → IsValid r.1 × IsAnswer r.0 r.1
      → IsValid (continue_with r f).1
  then-IsValid f (ok id, worker) keeps (v, there) = keeps id worker there v
  then-IsValid f (err e, worker) keeps (v, there) = v

  signed_post-IsValid :
      (request : Text → RelayRequest) (worker : PushWorker)
      → ((id : Text) → signer (request id) ≡ some id)
      → IsValid worker
      → IsValid (signed_post net request worker).1
  signed_post-IsValid request worker own v =
      then-IsValid (λ id. post net (request id)) (ensure_daemon_registered net worker)
        (λ id w there valid. post-IsValid (request id) id w (own id) there valid)
        (ensure-IsValid worker v)

  restart-IsValid :
      (id : Text) (worker : PushWorker) → IsValid worker → IsValid (restart net id worker).1
  unfolding restart
  restart-IsValid id worker v =
      let renamed : PushWorker = record worker {
        daemon_node_id = some id;
        daemon_registered = false;
      } in
      let valid : IsValid renamed = record { ordered = v.ordered; sound = tt } in
      then-IsValid (λ _. pure (ok tt)) (ensure_daemon_registered net renamed) (λ j w there k. k)
        (ensure-IsValid renamed valid)

  handle-IsValid :
      (devices : List StoredDevice) (command : PushCommand) (worker : PushWorker)
      → IsValid worker
      → IsValid (handle net devices command worker).1
  unfolding handle dispatch_session_event
  handle-IsValid devices (set_daemon_node_id id) worker v = restart-IsValid id worker v
  handle-IsValid devices (register_token platform token) worker v =
      signed_post-IsValid (λ id. register_token_request id platform token) worker (λ id. refl) v
  handle-IsValid devices (unregister_token token) worker v =
      signed_post-IsValid (λ id. unregister_token_request id token) worker (λ id. refl) v
  handle-IsValid devices (publish_pairing_rendezvous locator rendezvous) worker v =
      signed_post-IsValid (λ id. publish_request id locator rendezvous) worker (λ id. refl) v
  handle-IsValid devices (session_event session_id event) worker v =
      then-IsValid
        (λ id. push_all net id (net.hash_for_push session_id) event none (recipients devices))
        (ensure_daemon_registered net worker)
        (λ id w there valid.
          push_all-IsValid id (net.hash_for_push session_id) event none (recipients devices) w there
            valid)
        (ensure-IsValid worker v)

  -- `run`: each command with the devices at its time.
  pub data Runs : PushWorker → Type 0 where
    starts : Runs new
    handles :
        {worker : PushWorker} (devices : List StoredDevice) (command : PushCommand)
        → Runs worker
        → Runs (handle net devices command worker).1

  -- Whatever commands the worker has handled and however the relay has answered, every request that it
  -- has posted with a signature, a token, a pairing or a push, came behind a registration of the daemon
  -- it is signed for that the relay had accepted; and while the worker takes its daemon for registered,
  -- the relay has accepted the registration of its present node id.
  pub Runs-IsValid : {worker : PushWorker} → Runs worker → IsValid worker
  Runs-IsValid starts = record { ordered = nothing; sound = tt }
  Runs-IsValid (handles devices command run) = handle-IsValid devices command _ (Runs-IsValid run)
