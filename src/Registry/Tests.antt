-- ===== src/Registry/Tests.antt =====
-- Witnesses and tests of Registry.
use shelly.Prelude.{
  ◌≡◌, refl, true, false, Option, none, some, [], ◌∷◌, Text, ok, err, Result, arith, text_eq,
}
use shelly.Prelude.Dict.{lookup, insert, remove}
use shelly.Prelude.Sorting.{sort_by}
use shelly.Relay.Checks.{trim}
use shelly.Session.{ClientSize, idle}
use shelly.Registry.{
  LiveSession, Registry, summaries, evict_naturally_exited_session, kill_session_for,
}
use shelly.Registry.Names.{CreateError, create_session_for, name_exists, reserve_new_session_name}
use shelly.Registry.Named.{IsNamed}
use shelly.Registry.Fresh.{IsFree, reserve_new_session_name_ends}
use shelly.Registry.Created.{starts, creates, exits, kills, History-IsNamed}

abbrev live_under : Text → Text → LiveSession
live_under id name = record {
  stored = record {
    summary = record {
      id = id;
      name = name;
      command = [];
      cwd = [];
      created_at = 1;
      last_activity = 1;
      state = idle;
      last_line = none;
      model = none;
    };
    scrollback_start_seq = 0;
    scrollback = [];
    exit_code = none;
  };
  was_killed = false;
}

abbrev empty : Registry
empty = record {
  sessions = [];
  restored = [];
  session_names = [];
  persistence = none;
  session_list = [];
}

abbrev screen : ClientSize
screen = record { cols = 80; rows = 24 }

abbrev spawn : Text → Text → Option (Text × LiveSession)
spawn id name = some (id, live_under id name)

abbrev with_one : Registry
with_one = record {
  sessions = (b'1' ∷ [], live_under (b'1' ∷ []) (b'a' ∷ [])) ∷ [];
  restored = [];
  session_names = (b'a' ∷ [], tt) ∷ [];
  persistence = none;
  session_list = (live_under (b'1' ∷ []) (b'a' ∷ [])).stored.summary ∷ [];
}

-- The name is trimmed.
creates_one :
    create_session_for 0 (b' ' ∷ b'a' ∷ []) screen (spawn (b'1' ∷ [])) empty
    ≡ some (ok (b'1' ∷ []), with_one)
unfolding create_session_for trim lookup insert remove summaries sort_by
creates_one = refl

-- A name is given once.
refuses_same :
    reserve_new_session_name 0 (b'a' ∷ []) with_one.session_names ≡ some (err name_exists)
unfolding reserve_new_session_name trim lookup
refuses_same = refl

abbrev with_restored : Registry
with_restored = evict_naturally_exited_session (λ id. true) (b'1' ∷ []) with_one

History-IsNamed_example :
    IsNamed
      (kill_session_for true true (b'1' ∷ []) with_restored).1.sessions
      (kill_session_for true true (b'1' ∷ []) with_restored).1.restored
      (kill_session_for true true (b'1' ∷ []) with_restored).1.session_names
History-IsNamed_example = History-IsNamed (
    kills true true (b'1' ∷ []) (
      exits (λ id. true) (b'1' ∷ [])
        (creates 0 (b' ' ∷ b'a' ∷ []) screen (spawn (b'1' ∷ [])) (ok (b'1' ∷ []))
          (λ name. (refl, refl)) (starts empty refl refl refl) creates_one)))

-- No name is asked for, and the automatic one is found.
reserve_new_session_name_ends_example :
    (answer : Result CreateError Text) × (reserve_new_session_name 0 [] with_one.session_names
      ≡ some answer)
    × IsFree answer with_one.session_names
unfolding lookup
reserve_new_session_name_ends_example =
    reserve_new_session_name_ends 0 [] with_one.session_names (refl, tt) (omega arith)
