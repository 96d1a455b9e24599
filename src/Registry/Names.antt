-- ===== src/Registry/Names.antt =====
-- crates/daemon/src/ipc.rs: the name of a new session, and its creation.
use shelly.Prelude.{
  ℕ, zero, suc, ◌%◌, Bool, false, not, ◌&&◌, ◌||◌, ◌==◌, leb, ltb, ◌^◌, ◌-◌, Option, none, some,
  List, [], ◌∷◌, ◌++◌, Text, length, get_elem?, if◌then◌else◌, Result, ok, err, text_eq,
}
use shelly.Prelude.Dict.{Dict, insert, remove, contains_key}
use shelly.Relay.Checks.{trim}
use shelly.Signing.{show_u64}
use shelly.Session.{ClientSize}
use shelly.Registry.{LiveSession, Registry, publish_session_list}
use shelly.Registry.AutoNames.{auto_session_names}

abbrev pub max_terminal_dimension : ℕ
max_terminal_dimension = 1000

pub data CreateError : Type 0 where
  invalid_size control_characters name_exists not_spawned : CreateError

-- `char::is_control`
unfoldable pub is_control : ℕ → Bool
is_control c = leb c 0x1f || (leb 0x7f c && leb c 0x9f)

unfoldable pub any_control : Text → Bool
unfolding is_control
any_control [] = false
any_control (c ∷ s) = is_control c || any_control s

unfoldable pub validate_requested_session_name : Text → Result CreateError (Option Text)
unfolding any_control
validate_requested_session_name requested =
    let name = trim requested in
    if any_control name
    then err control_characters
    else ok (if length name == 0 then none else some name)

-- `DashSet::insert` of each name in turn, until one was not there.
unfoldable pub first_free : List Text → Dict Text (Unit {0}) → Option Text
first_free [] names = none
first_free (name ∷ candidates) names =
    let rest = first_free candidates names in if contains_key name names then rest else some name

-- The names with `offset` names left to try, from the index given.
unfoldable pub auto_candidates : ℕ → ℕ → List Text
auto_candidates index zero = []
auto_candidates index (suc left) =
    let rest = auto_candidates (suc index) left in
    elim (get_elem? auto_session_names (index % length auto_session_names)) [
      | none ↦ rest
      | some name ↦ name ∷ rest
    ]

abbrev pub base_name : ℕ → Text
base_name start = elim (get_elem? auto_session_names (start % length auto_session_names)) [
  | none ↦ []
  | some name ↦ name
]

-- The base with the suffixes from `suffix` on, at most `left` of them. The suffix is an i32, and the
-- range computes the next one before it yields a suffix: the last that it can yield is 2^31 - 2.
unfoldable pub suffixed : Text → ℕ → ℕ → List Text
suffixed base suffix zero = []
suffixed base suffix (suc left) =
    let rest = suffixed base (suc suffix) left in
    if ltb suffix (2 ^ 31 - 1) then (base ++ show_u64 suffix) ∷ rest else []

-- The name chosen where none is asked for; the search over the suffixes has as many rounds as there
-- are names taken, and one more; it has no answer where they are all taken or the suffix overflows.
unfoldable pub auto_name : ℕ → Dict Text (Unit {0}) → Option Text
unfolding first_free auto_candidates suffixed
auto_name start names =
    elim (first_free (auto_candidates start (length auto_session_names)) names) [
      | some name ↦ some name
      | none ↦ first_free (suffixed (base_name start) 2 (suc (length names))) names
    ]

-- The name, over what was asked for; `none` is a search in which the suffix overflows.
unfoldable pub chosen_name :
    ℕ → Option Text → Dict Text (Unit {0}) → Option (Result CreateError Text)
unfolding auto_name
chosen_name start (some name) names =
    if contains_key name names then some (err name_exists) else some (ok name)
chosen_name start none names = elim (auto_name start names) [
  | none ↦ none
  | some name ↦ some (ok name)
]

abbrev pub chosen :
    ℕ → Result CreateError (Option Text) → Dict Text (Unit {0}) → Option (Result CreateError Text)
chosen start (err e) names = some (err e)
chosen start (ok requested) names = chosen_name start requested names

unfoldable pub reserve_new_session_name :
    ℕ → Text → Dict Text (Unit {0}) → Option (Result CreateError Text)
unfolding validate_requested_session_name chosen_name
reserve_new_session_name start requested names =
    chosen start (validate_requested_session_name requested) names

unfoldable pub is_valid_size : ClientSize → Bool
is_valid_size size =
    not (size.rows == 0)
    && not (size.cols == 0)
    && leb size.rows max_terminal_dimension
    && leb size.cols max_terminal_dimension

abbrev pub spawned_under :
    Text → Option (Text × LiveSession) → Registry → Result CreateError Text × Registry
spawned_under name none st = (err not_spawned, st)
spawned_under name (some (id, session)) st = (
  ok id,
  publish_session_list (record st {
    session_names = insert name tt st.session_names;
    restored = remove id st.restored;
    sessions = insert id session st.sessions;
  }),
)

-- With the name reserved; a reservation without a session is given up.
abbrev pub create_under :
    Option (Result CreateError Text)
    → (Text → Option (Text × LiveSession))
    → Registry
    → Option (Result CreateError Text × Registry)
create_under none spawn st = none
create_under (some (err e)) spawn st = some (err e, st)
create_under (some (ok name)) spawn st = some (spawned_under name (spawn name) st)

-- `spawn` starts the process under a name: a session with its id. The command, the directory and the
-- environment are its own.
unfoldable pub create_session_for :
    ℕ
    → Text
    → ClientSize
    → (Text → Option (Text × LiveSession))
    → Registry
    → Option (Result CreateError Text × Registry)
unfolding is_valid_size reserve_new_session_name publish_session_list
create_session_for start requested size spawn st =
    if is_valid_size size
    then create_under (reserve_new_session_name start requested st.session_names) spawn st
    else some (err invalid_size, st)
