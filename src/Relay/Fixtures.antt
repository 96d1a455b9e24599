-- ===== src/Relay/Fixtures.antt =====
-- A relay for the tests, with stand-ins for the libraries: a key and a signature are numbers, and a
-- signature verifies where it is the key.
use shelly.Prelude.{ℕ, true, false, none, some, [], ◌∷◌, Text, text_eq, nat_eq, ◌==◌, ok}
use shelly.Relay.State.{
  Env, RelayState, RelayInner, DaemonRegistration, PairingCodeEntry, legacy_ticket, pair_eq,
}

abbrev pub env : Env ℕ ℕ (Unit {0}) ℕ
env = record {
  store = none;
  trust_forwarded_for = false;
  prune_stale_daemons = true;
  daemon_retention_ms = 1000000;
  registration_audience = b'r' ∷ [];
  increment = λ limiter client minute counted. (1, counted);
  sha256 = λ bytes. bytes;
  from_utf8_lossy = λ bytes. bytes;
  decode_base64 = λ text. some text;
  encode_base64 = λ bytes. bytes;
  key_from_bytes = λ bytes. some 7;
  key_to_bytes = λ key. key ∷ [];
  signature_from_slice = λ bytes. some 7;
  verify = λ key bytes signature. key == signature;
  node_key = λ id. some 7;
  node_signature = λ bytes. some 7;
  verify_node = λ key bytes signature. key == signature;
  encode_rendezvous = λ rendezvous. ok [];
  apns_client = none;
  fcm_client = none;
}

abbrev pub daemon : Text
daemon = b'd' ∷ []

abbrev pub registration : DaemonRegistration ℕ
registration = record { public_key = 7; updated_at_ms = 400000 }

abbrev pub code : Text
code = b'A' ∷ b'B' ∷ b'C' ∷ b'D' ∷ b'E' ∷ []

abbrev pub entry : PairingCodeEntry
entry = record {
  daemon_node_id = daemon;
  record_of = legacy_ticket (b't' ∷ []);
  expires_at_ms = 900000;
}

abbrev pub inner : RelayInner ℕ
inner = record {
  daemons = (daemon, registration) ∷ [];
  tokens = [];
  seen_nonces = [];
  pairing_codes = (code, entry) ∷ [];
  pruned_at_ms = 0;
}

abbrev pub start : RelayState ℕ (Unit {0}) ℕ
start = record {
  inner = inner;
  metrics = record {
    daemon_registrations = 0;
    token_registrations = 0;
    token_unregistrations = 0;
    push_accepts = 0;
    pairing_code_publishes = 0;
    pairing_code_resolves = 0;
  };
  limits = 0;
  db = tt;
}
