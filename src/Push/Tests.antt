-- ===== src/Push/Tests.antt =====
-- Witnesses and tests of Push.
use shelly.Prelude.{
  ℕ, ◌+◌, ◌≡◌, ◌↔◌, refl, none, some, List, [], ◌∷◌, ◌++◌, Text, map, arith, Result, ok, err,
  if◌then◌else◌, text_beq,
}
use shelly.Prelude.Sorting.{sort_by}
use shelly.Protocol.{PushPlatform, apns, fcm}
use shelly.Persistence.{StoredDevice}
use shelly.Persistence.Fixtures.{device}
use shelly.Push.{
  RelayError, RelayRequest, PushWorker, Network, new, http, pair_request, push_request,
  awaiting_input, set_daemon_node_id, session_event, dispatch_session_event, handle,
}
use shelly.Push.Retry.{World, relay_retry_min_delay, relay_retry_total_delay, retry_relay_operation}
use shelly.Push.Budget.{IsTimed, retry_relay_operation_ends}
use shelly.Push.Registered.{IsValid, starts, handles, Runs-IsValid}
use shelly.Push.Dispatched.{IsToldTo, IsAccepted, push_to, dispatch_session_event-posted}

-- The push to the first token is refused.
abbrev answers : List RelayRequest → RelayRequest → Result RelayError (Unit {0})
answers before (push_request id token platform hash event) =
    if text_beq token (1 ∷ []) then err (http 404) else ok tt
answers before request = ok tt

abbrev network : Network
network = record { respond = answers; hash_for_push = λ id. id; public_key = b'k' ∷ [] }

abbrev phones : List StoredDevice
phones =
    device [] (b'b' ∷ []) 1 none (some fcm) (some (2 ∷ []))
    ∷ device [] (b'c' ∷ []) 1 none none none
    ∷ device [] (b'a' ∷ []) 1 none (some apns) (some (1 ∷ []))
    ∷ []

abbrev daemon : Text
daemon = b'd' ∷ []

abbrev ready : PushWorker
ready = (handle network phones (set_daemon_node_id daemon) new).1

-- Both devices with a token are told, although the first push fails.
tells_both : dispatch_session_event network phones (b's' ∷ []) awaiting_input ready ≡ (
  err (http 404),
  record ready {
    posted =
        pair_request daemon (b'k' ∷ [])
        ∷ push_request daemon (1 ∷ []) apns (b's' ∷ []) awaiting_input
        ∷ push_request daemon (2 ∷ []) fcm (b's' ∷ []) awaiting_input
        ∷ [];
  },
)
unfolding dispatch_session_event handle sort_by
tells_both = refl

Runs-IsValid_example :
    IsValid network (handle network phones (session_event (b's' ∷ []) awaiting_input) ready).1
Runs-IsValid_example = Runs-IsValid network (
    handles phones (session_event (b's' ∷ []) awaiting_input)
      (handles phones (set_daemon_node_id daemon) starts))

dispatch_session_event-posted_example :
    (sent : List (PushPlatform × Text)) × IsToldTo phones sent
    × ((dispatch_session_event network phones (b's' ∷ []) awaiting_input ready).1.posted
        ≡ ready.posted ++ map (push_to daemon (b's' ∷ []) awaiting_input) sent)
    × (((dispatch_session_event network phones (b's' ∷ []) awaiting_input ready).0 ≡ ok tt)
        ↔ IsAccepted network ready.posted (map (push_to daemon (b's' ∷ []) awaiting_input) sent))
unfolding handle
dispatch_session_event-posted_example =
    dispatch_session_event-posted network phones (b's' ∷ []) daemon awaiting_input ready refl refl

-- The relay never answers but with an error that is retried, and each delay is the minimum; the world
-- is its clock.
abbrev down : World ℕ
down = record {
  now = λ t. t;
  attempt = λ deadline t. (some (err (http 503)), t + 10);
  next_delay = λ t. (some relay_retry_min_delay, t);
  sleep = λ delay t. t + delay;
}

down-IsTimed : IsTimed down relay_retry_min_delay
down-IsTimed = record {
  attempt = λ deadline t. omega arith;
  next_delay = λ t. omega arith;
  sleep = λ delay t. omega arith;
  least = λ t delay h. let e : relay_retry_min_delay ≡ delay = cc h in omega (arith, e);
}

-- The budget of the production leaves room for 62 rounds.
retry_relay_operation_ends_example :
    (answer : Result RelayError (Unit {0})) × ((retry_relay_operation down 62
        relay_retry_total_delay 5).0
      ≡ some answer)
retry_relay_operation_ends_example =
    retry_relay_operation_ends down relay_retry_min_delay down-IsTimed 61 relay_retry_total_delay 5
      (omega arith)
