-- ===== src/Relay/State.antt =====
-- The relay's state (`RelayState`, `RelayInner`), its errors, and what it is given: the settings, the
-- key and signature library, the durable store and the counters of the rate limits.
use shelly.Protocol.{PushPlatform}
use shelly.Prelude.{
  ℕ, ◌+◌, ◌*◌, ◌%◌, ◌^◌, ◌≡◌, ◌↔◌, Bool, true, ◌&&◌, Option, List, Text, Eq, text_eq, text_beq,
  text_beq_iff, arith, Result,
}
use shelly.Prelude.Io.{Io}
use shelly.Prelude.Dict.{Dict}

abbrev pub clock_skew_ms : ℕ
clock_skew_ms = 5 * 60 * 1000

abbrev pub rate_limit_per_minute : ℕ
rate_limit_per_minute = 50

abbrev pub push_token_ttl_ms : ℕ
push_token_ttl_ms = 90 * 24 * 60 * 60 * 1000

abbrev pub resolve_attempts_per_minute : ℕ
resolve_attempts_per_minute = 20

abbrev pub legacy_code_len : ℕ
legacy_code_len = 5

abbrev pub register_attempts_per_minute : ℕ
register_attempts_per_minute = 10

abbrev pub register_token_attempts_per_minute : ℕ
register_token_attempts_per_minute = 10

abbrev pub max_daemons : ℕ
max_daemons = 1000000

abbrev pub max_tokens_per_daemon : ℕ
max_tokens_per_daemon = 16

abbrev pub prune_interval_ms : ℕ
prune_interval_ms = 60 * 1000

pub record TokenOwner : Type 0 where
  pub daemon_node_id : Text
  pub platform : PushPlatform
  pub updated_at_ms : ℕ

pub record PairingRendezvous : Type 0 where
  pub node_id : Text
  pub relay_url : Option Text
  pub addrs : List Text
  pub expires_at : ℕ

pub data PairingRecord : Type 0 where
  legacy_ticket : Text → PairingRecord
  reachability : PairingRendezvous → PairingRecord

pub record PairingCodeEntry : Type 0 where
  pub daemon_node_id : Text
  pub record_of : PairingRecord
  pub expires_at_ms : ℕ

-- The counters, which wrap around at 64 bits.
pub record RelayMetrics : Type 0 where
  pub daemon_registrations : ℕ
  pub token_registrations : ℕ
  pub token_unregistrations : ℕ
  pub push_accepts : ℕ
  pub pairing_code_publishes : ℕ
  pub pairing_code_resolves : ℕ

-- `AtomicU64::fetch_add(1)`
abbrev pub bump : ℕ → ℕ
bump n = (n + 1) % 2 ^ 64

-- What a message says, where an error of one status has several.
pub data Message : Type 0 where
  missing_signature unsupported_version not_base64 not_a_signature unknown_daemon : Message
  bad_signature key_changed wrong_audience bad_node_id bad_proof key_length bad_key : Message
  other_key not_registered not_owned legacy_format already_expired : Message
  node_mismatch node_format relay_url_format addrs_format not_found_code invalid_json : Message

pub data ApiError : Type 0 where
  bad_request unauthorized forbidden not_found : Message → ApiError
  replay registration_conflict clock_skew rate_limited resolve_rate_limited : ApiError
  register_rate_limited token_register_rate_limited daemon_capacity : ApiError
  internal provider_error : Text → ApiError

pub data PushEventType : Type 0 where
  awaiting_input build_finished session_crashed : PushEventType

pub record DeliveredPush : Type 0 where
  pub platform : PushPlatform
  pub recipient_token : Text
  pub title : Text
  pub body : Text
  pub thread_id : Text
  pub session_id_hash : Text
  pub event_type : PushEventType

-- An error carries the name of its provider.
pub data ProviderDeliveryError : Type 0 where
  invalid_token : Text → ProviderDeliveryError
  other : Text → ProviderDeliveryError

-- The four rate limits.
pub data Limiter : Type 0 where
  rate_limits resolve_rate_limits register_rate_limits token_register_rate_limits : Limiter

abbrev pub pair_beq : Text × Text → Text × Text → Bool
pair_beq (a, b) (c, d) = text_beq a c && text_beq b d

pub pair_beq_iff : (p q : Text × Text) → (pair_beq p q ≡ true) ↔ (p ≡ q)
pair_beq_iff (a, b) (c, d) = ground (arith, text_beq_iff a c, text_beq_iff b d)

instance abbrev pub pair_eq : Eq (Text × Text)
pair_eq = record { beq = pair_beq; beq_iff = pair_beq_iff }

pub record DaemonRegistration (Key : Type 0) : Type 0 where
  pub public_key : Key
  pub updated_at_ms : ℕ

-- `RelayInner`
pub record RelayInner (Key : Type 0) : Type 0 where
  pub daemons : Dict Text (DaemonRegistration Key)
  pub tokens : Dict Text TokenOwner
  pub seen_nonces : Dict (Text × Text) ℕ
  pub pairing_codes : Dict Text PairingCodeEntry
  pub pruned_at_ms : ℕ

-- `limits` is the state of the counters, and `db` is that of the durable store.
pub record RelayState (Key S C : Type 0) : Type 0 where
  pub inner : RelayInner Key
  pub metrics : RelayMetrics
  pub limits : C
  pub db : S

-- `RelayStore`: what the handlers call of the durable store. A failure has a text.
pub record RelayStore (Key S : Type 0) : Type 0 where
  pub save_daemon : Text → DaemonRegistration Key → Io S Text (Unit {0})
  pub save_token : Text → Text → PushPlatform → ℕ → Io S Text (Unit {0})
  pub remove_token : Text → Io S Text (Unit {0})
  pub touch_token : Text → ℕ → Io S Text (Unit {0})
  pub save_pairing_code : Text → Text → Text → ℕ → Io S Text (Unit {0})
  pub delete_pairing_code : Text → Io S Text (Unit {0})
  pub insert_nonce : Text → Text → ℕ → Io S Text Bool
  pub record_authenticated_activity : Text → Text → ℕ → ℕ → Io S Text Bool
  pub prune_expired : ℕ → Bool → ℕ → Io S Text (Unit {0})

-- The settings of a relay, and the libraries that it calls.
pub record Env (Key Sig S C : Type 0) : Type 0 where
  pub store : Option (RelayStore Key S)
  pub trust_forwarded_for : Bool
  pub prune_stale_daemons : Bool
  pub daemon_retention_ms : ℕ
  pub registration_audience : Text
  -- The counter of a limit for a client in a minute, behind its increment.
  pub increment : Limiter → Text → ℕ → C → ℕ × C
  pub sha256 : List ℕ → List ℕ
  pub from_utf8_lossy : List ℕ → Text
  pub decode_base64 : Text → Option (List ℕ)
  pub encode_base64 : List ℕ → Text
  pub key_from_bytes : List ℕ → Option Key
  pub key_to_bytes : Key → List ℕ
  pub signature_from_slice : List ℕ → Option Sig
  pub verify : Key → List ℕ → Sig → Bool
  -- The node key that a daemon's id spells, and its signatures.
  pub node_key : Text → Option Key
  pub node_signature : List ℕ → Option Sig
  pub verify_node : Key → List ℕ → Sig → Bool
  pub encode_rendezvous : PairingRendezvous → Result Text Text
  -- `PushProviders`: the providers that are configured.
  pub apns_client : Option (DeliveredPush → Result ProviderDeliveryError (Unit {0}))
  pub fcm_client : Option (DeliveredPush → Result ProviderDeliveryError (Unit {0}))
