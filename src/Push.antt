-- ===== src/Push.antt =====
-- crates/daemon/src/push.rs: the worker that speaks to the relay for the daemon. What the relay answers
-- to a request, after the requests before it, is a parameter; the retries of one request are in
-- Push/Retry.
pub mod Retry
pub mod Registered
pub mod Dispatched
pub mod Budget
mod Tests
use shelly.Prelude.{
  ℕ, Bool, true, false, Option, none, some, List, [], ◌∷◌, ◌++◌, Text, map, ltb, ◌==◌,
  if◌then◌else◌, Result, ok, err,
}
use shelly.Prelude.Io.{Io, ◌>>=◌, ◌>>◌, pure}
use shelly.Prelude.Sorting.{sort_by}
use shelly.Relay.State.{PairingRendezvous}
use shelly.Protocol.{PushPlatform}
use shelly.Persistence.{StoredDevice}

-- An answer of the relay with its status, a failure to connect or a time-out, or another error.
pub data RelayError : Type 0 where
  http : ℕ → RelayError
  connect timed_out other budget_exceeded node_id_not_ready : RelayError

pub data RelayPushEventType : Type 0 where
  awaiting_input session_crashed build_finished : RelayPushEventType

-- The three events of a session are one command with the type of the event; the session's name, which
-- nothing reads, is left out.
pub data PushCommand : Type 0 where
  set_daemon_node_id : Text → PushCommand
  register_token : PushPlatform → Text → PushCommand
  unregister_token : Text → PushCommand
  publish_pairing_rendezvous : (locator : Text) → PairingRendezvous → PushCommand
  session_event : (session_id : Text) → RelayPushEventType → PushCommand

-- A request without its nonce and time, which are new in each try, and its signature.
pub data RelayRequest : Type 0 where
  pair_request : (daemon_node_id public_key : Text) → RelayRequest
  register_token_request : (daemon_node_id : Text) → PushPlatform → Text → RelayRequest
  unregister_token_request : (daemon_node_id push_token : Text) → RelayRequest
  publish_request : (daemon_node_id locator : Text) → PairingRendezvous → RelayRequest
  push_request :
      (daemon_node_id recipient_token : Text)
      → PushPlatform
      → (session_id_hash : Text) → RelayPushEventType
      → RelayRequest

-- The worker, with what it has posted so far.
pub record PushWorker : Type 0 where
  pub daemon_node_id : Option Text
  pub daemon_registered : Bool
  pub posted : List RelayRequest

abbrev pub new : PushWorker
new = record { daemon_node_id = none; daemon_registered = false; posted = [] }

-- The bytes of UTF-8 are ordered as the code points are.
unfoldable pub text_leb : Text → Text → Bool
text_leb [] s = true
text_leb (a ∷ s) [] = false
text_leb (a ∷ s) (b ∷ t) = if a == b then text_leb s t else ltb a b

-- The devices that can be told something.
unfoldable pub tokens : List StoredDevice → List (PushPlatform × Text)
tokens [] = []
tokens (device ∷ devices) =
    let rest = tokens devices in
    elim device.push_platform [
      | none ↦ rest
      | some platform ↦ elim device.push_token [
        | none ↦ rest
        | some token ↦ (platform, token) ∷ rest
      ]
    ]

unfoldable pub recipients : List StoredDevice → List (PushPlatform × Text)
unfolding text_leb tokens
recipients devices = sort_by (λ left right. text_leb left.1 right.1) (tokens devices)

-- `Option::get_or_insert`
abbrev pub get_or_insert : Option RelayError → Result RelayError (Unit {0}) → Option RelayError
get_or_insert first (ok u) = first
get_or_insert (some e) (err f) = some e
get_or_insert none (err f) = some f

abbrev pub no_error : Option RelayError → Result RelayError (Unit {0})
no_error none = ok tt
no_error (some e) = err e

-- What the code uses of the hash and of the key, and what the relay answers.
pub record Network : Type 0 where
  pub respond : List RelayRequest → RelayRequest → Result RelayError (Unit {0})
  pub hash_for_push : Text → Text
  pub public_key : Text

module _ (net : Network) where
  -- A request with its retries.
  abbrev pub post : RelayRequest → Io PushWorker RelayError (Unit {0})
  post request worker =
      (net.respond worker.posted request, record worker { posted = worker.posted ++ request ∷ [] })

  abbrev pub registered : Text → Io PushWorker RelayError Text
  registered id worker = (ok id, record worker { daemon_registered = true })

  -- Over the node id, and whether it is registered.
  unfoldable pub ensure_from : Option Text → Bool → Io PushWorker RelayError Text
  ensure_from none known worker = (err node_id_not_ready, worker)
  ensure_from (some id) true worker = (ok id, worker)
  ensure_from (some id) false worker =
      (post (pair_request id net.public_key) >> registered id) worker

  unfoldable pub ensure_daemon_registered : Io PushWorker RelayError Text
  unfolding ensure_from
  ensure_daemon_registered worker =
      ensure_from worker.daemon_node_id worker.daemon_registered worker

  -- The loop over the devices: an error is kept, and the next device is told all the same.
  unfoldable pub push_all :
      Text
      → Text
      → RelayPushEventType
      → Option RelayError
      → List (PushPlatform × Text)
      → Io PushWorker RelayError (Unit {0})
  push_all id hash event first [] worker = (no_error first, worker)
  push_all id hash event first ((platform, token) ∷ rest) worker =
      let posted = post (push_request id token platform hash event) worker in
      push_all id hash event (get_or_insert first posted.0) rest posted.1

  unfoldable pub dispatch_session_event :
      List StoredDevice → Text → RelayPushEventType → Io PushWorker RelayError (Unit {0})
  unfolding ensure_daemon_registered push_all recipients
  dispatch_session_event devices session_id event = do
    id ← ensure_daemon_registered
    push_all id (net.hash_for_push session_id) event none (recipients devices)

  abbrev pub signed_post : (Text → RelayRequest) → Io PushWorker RelayError (Unit {0})
  signed_post request = ensure_daemon_registered >>= λ id. post (request id)

  unfoldable pub restart : Text → Io PushWorker RelayError (Unit {0})
  unfolding ensure_daemon_registered
  restart id worker =
      (ensure_daemon_registered >>= λ _. pure (ok tt))
        (record worker { daemon_node_id = some id; daemon_registered = false })

  -- A round of `run`, with the devices at that time; a failure is logged, and the worker goes on.
  unfoldable pub handle : List StoredDevice → PushCommand → Io PushWorker RelayError (Unit {0})
  unfolding ensure_daemon_registered dispatch_session_event restart
  handle devices (set_daemon_node_id id) = restart id
  handle devices (register_token platform token) =
      signed_post λ id. register_token_request id platform token
  handle devices (unregister_token token) = signed_post λ id. unregister_token_request id token
  handle devices (publish_pairing_rendezvous locator rendezvous) =
      signed_post λ id. publish_request id locator rendezvous
  handle devices (session_event session_id event) = dispatch_session_event devices session_id event
