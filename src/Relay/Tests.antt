-- ===== src/Relay/Tests.antt =====
-- Witnesses and tests of Relay: signed requests and the registration of keys.
use shelly.Prelude.{
  ap, arith, List, sym, ◌∙◌, length, text_beq, text_beq_iff, ℕ, ◌≡◌, ◌≢◌, refl, none, some, [], ◌∷◌,
  text_eq, nat_eq, ok,
}
use shelly.Prelude.Dict.{lookup, insert, retain, IsUnique}
use shelly.Relay.State.{RelayState, DaemonRegistration, pair_eq}
use shelly.Signing.{split_signature_header}
use shelly.Relay.Pruning.{maybe_prune_expired_relay_state}
use shelly.Relay.Signatures.{SignedRequest, check_signature}
use shelly.Signing.{utf8, fields, field, u64_be, canonical_request_v2}
use shelly.Relay.State.{Env}
use shelly.Relay.Bound.{IsCounted, check_signature_binds}
use shelly.Relay.Verifying.{verify_signed_request}
use shelly.Relay.Replay.{verify_signed_request_once}
use shelly.Relay.Daemons.{Http, RegisterDaemonRequest, authorize_key, register_commit}
use shelly.Relay.Keys.{Committed, register_commit-eq-ok}
use shelly.Relay.Fixtures.{env, daemon, registration, inner, start}

abbrev request : SignedRequest
request = record {
  method = b'P' ∷ [];
  path = b'/' ∷ [];
  body = [];
  signature = some (b's' ∷ []);
  daemon_node_id = daemon;
  nonce = b'n' ∷ [];
  ts_ms = 400000;
}

accepted : (verify_signed_request env 500000 request start).0 ≡ ok tt
unfolding verify_signed_request split_signature_header lookup maybe_prune_expired_relay_state retain
accepted = refl

signed_by : check_signature env inner request ≡ ok 7
unfolding check_signature split_signature_header lookup
signed_by = refl

-- The text of version 2 of the request, with a body of one byte.
abbrev signed_text : List ℕ
signed_text =
    canonical_request_v2 (λ bytes. length bytes ∷ []) env.registration_audience request.method
      request.path (1 ∷ []) request.nonce request.ts_ms

-- A relay where a signature verifies one text, and where two bodies of one length have one digest.
abbrev strict_env : Env ℕ ℕ (Unit {0}) ℕ
strict_env = record env {
  sha256 = λ bytes. length bytes ∷ [];
  verify = λ key bytes signature. text_beq bytes signed_text;
}

abbrev v2_request : ℕ → SignedRequest
v2_request body = record request {
  signature = some (b'v' ∷ b'2' ∷ b'=' ∷ b's' ∷ []);
  body = body ∷ [];
}

is_counted : (body : ℕ) → IsCounted strict_env (v2_request body)
unfolding fields utf8 u64_be
is_counted body = ground arith

check_signature_binds_example :
    (utf8 request.method ≡ utf8 request.method)
    × (utf8 request.path ≡ utf8 request.path)
    × (strict_env.sha256 (1 ∷ []) ≡ strict_env.sha256 (2 ∷ []))
    × (utf8 request.nonce ≡ utf8 request.nonce)
    × (request.ts_ms ≡ request.ts_ms)
unfolding check_signature split_signature_header lookup canonical_request_v2 fields field
check_signature_binds_example =
    check_signature_binds strict_env inner inner (v2_request 1) (v2_request 2) 7 _ _
      (λ a b signature h k.
        (text_beq_iff a signed_text).0 h ∙ sym ((text_beq_iff b signed_text).0 k))
      refl refl refl (is_counted 1) (is_counted 2) refl refl

accepted_state :
    verify_signed_request env 500000 request start
    ≡ (ok tt, (verify_signed_request env 500000 request start).1)
unfolding verify_signed_request split_signature_header lookup maybe_prune_expired_relay_state retain
accepted_state = refl

verify_signed_request_once_example :
    (verify_signed_request env 600000 request (verify_signed_request env 500000 request start).1).0
    ≢ ok tt
verify_signed_request_once_example =
    verify_signed_request_once env 500000 600000 request request start _ tt accepted_state refl refl
      refl

abbrev rotation : RegisterDaemonRequest
rotation = record {
  daemon_node_id = daemon;
  public_key = b'k' ∷ [];
  nonce = some (b'n' ∷ []);
  ts_ms = some 400000;
  proof = none;
}

abbrev rotation_http : Http RegisterDaemonRequest
rotation_http = record {
  clock = λ k. 500000;
  peer_ip = [];
  forwarded = none;
  signature = some (b's' ∷ []);
  body = [];
  parsed = some rotation;
}

rotated :
    authorize_key env rotation_http rotation (some 7) 8 start
    ≡ (ok tt, (authorize_key env rotation_http rotation (some 7) 8 start).1)
unfolding authorize_key split_signature_header lookup maybe_prune_expired_relay_state retain
    verify_signed_request
rotated = refl

abbrev rekeyed : DaemonRegistration ℕ
rekeyed = record { public_key = 8; updated_at_ms = 500000 }

abbrev behind : RelayState ℕ (Unit {0}) ℕ
behind = record start { inner = record inner { daemons = (daemon, rekeyed) ∷ [] } }

commits : register_commit env daemon rekeyed (lookup daemon inner.daemons) start ≡ (ok tt, behind)
unfolding register_commit lookup insert
commits = refl

register_commit-eq-ok_example :
    Committed env daemon rekeyed (lookup daemon inner.daemons) start behind
register_commit-eq-ok_example =
    register_commit-eq-ok env daemon rekeyed (lookup daemon inner.daemons) start behind commits

daemons-IsUnique : IsUnique inner.daemons
unfolding lookup
daemons-IsUnique = (refl, tt)

present : lookup daemon inner.daemons ≡ some registration
unfolding lookup
present = refl

differ : registration ≢ rekeyed
differ e = let times : Path ℕ 400000 500000 = ap (λ r. r.updated_at_ms) e in omega (arith, times)
