-- ===== src/Relay/CodeTests.antt =====
-- Witnesses and tests of Relay: pairing codes.
use shelly.Prelude.{◌≡◌, ◌≢◌, refl, true, none, some, [], ◌∷◌, Text, text_eq, nat_eq, text_beq, ok}
use shelly.Prelude.Dict.{lookup, IsUnique}
use shelly.Relay.State.{legacy_ticket, pair_eq}
use shelly.Code.{normalize_code, is_typed, all, contains, alias}
use shelly.Signing.{utf8}
use shelly.Relay.Daemons.{Http}
use shelly.Relay.Codes.{publish_entry, key_of_path, resolve_pairing_code}
use shelly.Relay.Single.{publish_entry-single}
use shelly.Relay.Resolved.{resolve_pairing_code_once}
use shelly.Relay.Fixtures.{env, daemon, code, entry, inner, start}

abbrev second_code : Text
second_code = b'Z' ∷ b'B' ∷ b'C' ∷ b'D' ∷ b'E' ∷ []

publishes :
    publish_entry env second_code entry start
    ≡ (ok tt, (publish_entry env second_code entry start).1)
unfolding publish_entry
publishes = refl

codes-IsUnique : IsUnique inner.pairing_codes
unfolding lookup
codes-IsUnique = (refl, tt)

publish_entry-single_example :
    (lookup second_code (publish_entry env second_code entry start).1.inner.pairing_codes
      ≡ some entry)
    × (lookup code (publish_entry env second_code entry start).1.inner.pairing_codes ≡ some entry
        → text_beq daemon daemon ≡ true
        → code ≡ second_code)
publish_entry-single_example =
    publish_entry-single env second_code code entry entry start _ codes-IsUnique publishes

abbrev resolve_http : Http Text
resolve_http = record {
  clock = λ k. 500000;
  peer_ip = [];
  forwarded = none;
  signature = none;
  body = [];
  parsed = none;
}

-- The code as somebody types it: "a-bcde".
abbrev typed : Text
typed = b'a' ∷ b'-' ∷ b'b' ∷ b'c' ∷ b'd' ∷ b'e' ∷ []

names : key_of_path env code ≡ ok code
unfolding key_of_path utf8 normalize_code is_typed all contains alias
names = refl

names_typed : key_of_path env typed ≡ ok code
unfolding key_of_path utf8 normalize_code is_typed all contains alias
names_typed = refl

resolves :
    resolve_pairing_code env resolve_http code start
    ≡ (ok (legacy_ticket (b't' ∷ [])), (resolve_pairing_code env resolve_http code start).1)
unfolding resolve_pairing_code lookup utf8 normalize_code is_typed all contains alias
resolves = refl

resolve_pairing_code_once_example :
    (resolve_pairing_code env resolve_http typed
      (resolve_pairing_code env resolve_http code start).1).0
    ≢ ok (legacy_ticket (b't' ∷ []))
resolve_pairing_code_once_example =
    resolve_pairing_code_once env resolve_http resolve_http code typed code _ _ start _
      codes-IsUnique names names_typed resolves
