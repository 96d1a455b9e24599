-- ===== src/Registry.antt =====
-- crates/daemon/src/ipc.rs: the sessions of the daemon, live and restored, and their names. Whether a
-- write of the store is committed, and what the start and the kill of a process give, are arguments. A
-- call runs alone.
pub mod AutoNames
pub mod Names
pub mod Named
pub mod Ended
pub mod Created
pub mod Fresh
mod Tests
use shelly.Prelude.{
  ℕ, zero, suc, ◌+◌, Bool, true, false, not, ◌&&◌, ◌||◌, ◌==◌, ltb, leb, Option, none, some, List,
  [], ◌∷◌, ◌++◌, Text, length, if◌then◌else◌, Result, ok, err, text_eq,
}
use shelly.Prelude.Dict.{Dict, lookup, insert, remove, contains_key}
use shelly.Prelude.Sorting.{sort_by}
use shelly.Protocol.{SessionSummary}
use shelly.Persistence.{Persistence, StoredSession, StoreError, max_stored_sessions}
use shelly.Persistence
use shelly.Session.{ClientSize}

-- A live session, with what `capture_stored` takes of it.
pub record LiveSession : Type 0 where
  pub stored : StoredSession
  pub was_killed : Bool

-- The part of `AppState` that these operations read or change; the set of names is a map to nothing.
pub record Registry : Type 0 where
  pub sessions : Dict Text LiveSession
  pub restored : Dict Text StoredSession
  pub session_names : Dict Text (Unit {0})
  pub persistence : Option Persistence
  pub session_list : List SessionSummary

abbrev pub live_summaries : Dict Text LiveSession → List SessionSummary
live_summaries [] = []
live_summaries ((id, session) ∷ sessions) = session.stored.summary ∷ live_summaries sessions

unfoldable pub restored_summaries :
    Dict Text LiveSession → Dict Text StoredSession → List SessionSummary
restored_summaries live [] = []
restored_summaries live ((id, session) ∷ restored) =
    let rest = restored_summaries live restored in
    if contains_key session.summary.id live then rest else session.summary ∷ rest

unfoldable pub summaries : Registry → List SessionSummary
unfolding restored_summaries
summaries st =
    sort_by (λ a b. leb a.created_at b.created_at)
      (live_summaries st.sessions ++ restored_summaries st.sessions st.restored)

unfoldable pub publish_session_list : Registry → Registry
publish_session_list st = record st { session_list = summaries st }

-- `min_by_key`: the first of the least.
unfoldable pub oldest_from : Text → ℕ → Dict Text StoredSession → Text
oldest_from id least [] = id
oldest_from id least ((other, session) ∷ restored) =
    if ltb session.summary.last_activity least
    then oldest_from other session.summary.last_activity restored
    else oldest_from id least restored

unfoldable pub oldest : Dict Text StoredSession → Option Text
unfolding oldest_from
oldest [] = none
oldest ((id, session) ∷ restored) = some (oldest_from id session.summary.last_activity restored)

-- The write of the store is logged where it fails.
abbrev pub remove_stored : Bool → Text → Option Persistence → Option Persistence
remove_stored commits id none = none
remove_stored commits id (some p) = some (Persistence.remove_session commits id p).1

-- The name is freed unless the session is still live.
unfoldable pub free_name : Text → Option StoredSession → Registry → Registry
free_name id none st = st
free_name id (some session) st =
    if contains_key id st.sessions
    then st
    else record st { session_names = remove session.summary.name st.session_names }

unfoldable pub drop_restored : (Text → Bool) → Text → Registry → Registry
unfolding free_name
drop_restored commits id st =
    let freed : Registry =
      free_name id (lookup id st.restored) (record st { restored = remove id st.restored }) in
    record freed { persistence = remove_stored (commits id) id freed.persistence }

-- The loop, for as many rounds as there are restored sessions.
unfoldable pub cap_restored : (Text → Bool) → ℕ → Registry → Registry
unfolding oldest drop_restored
cap_restored commits zero st = st
cap_restored commits (suc fuel) st =
    if ltb max_stored_sessions (length st.restored)
    then elim (oldest st.restored) [
      | none ↦ st
      | some id ↦ cap_restored commits fuel (drop_restored commits id st)
    ]
    else st

unfoldable pub insert_restored_session : (Text → Bool) → StoredSession → Registry → Registry
unfolding cap_restored
insert_restored_session commits session st =
    let added : Registry = record st {
      session_names = insert session.summary.name tt st.session_names;
      restored = insert session.summary.id session st.restored;
    } in
    cap_restored commits (length added.restored) added

-- The part of the eviction behind its checks.
unfoldable pub restore_session : (Text → Bool) → Text → StoredSession → Registry → Registry
unfolding insert_restored_session
restore_session commits id stored st =
    let kept : Registry = insert_restored_session commits stored st in
    let ended : Registry = record kept { sessions = remove id kept.sessions } in
    if contains_key id ended.restored
    then ended
    else record ended { session_names = remove stored.summary.name ended.session_names }

unfoldable pub evict_naturally_exited_session : (Text → Bool) → Text → Registry → Registry
unfolding restore_session publish_session_list
evict_naturally_exited_session commits id st = elim (lookup id st.sessions) [
  | none ↦ publish_session_list st
  | some session ↦
      if session.was_killed
      then publish_session_list st
      else publish_session_list (restore_session commits id session.stored st)
]

abbrev pub name_of : Option LiveSession → Option StoredSession → Option Text
name_of (some session) restored = some session.stored.summary.name
name_of none (some session) = some session.summary.name
name_of none none = none

abbrev pub free : Option Text → Dict Text (Unit {0}) → Dict Text (Unit {0})
free none names = names
free (some name) names = remove name names

-- The part of the kill behind the process: the entries, the name and the row in the store.
unfoldable pub forget_session : Bool → Text → Registry → Result StoreError (Unit {0}) × Registry
unfolding publish_session_list
forget_session commits id st =
    let name = name_of (lookup id st.sessions) (lookup id st.restored) in
    let forgotten : Registry = record st {
      sessions = remove id st.sessions;
      restored = remove id st.restored;
      session_names = free name st.session_names;
      persistence = remove_stored commits id st.persistence;
    } in
    (
      elim st.persistence [ none ↦ ok tt | some p ↦ (Persistence.remove_session commits id p).0 ],
      publish_session_list forgotten,
    )

pub data KillError : Type 0 where
  not_killed not_removed : KillError

abbrev pub removed_result :
    Result StoreError (Unit {0}) × Registry → Result KillError (Unit {0}) × Registry
removed_result (ok u, st) = (ok tt, st)
removed_result (err e, st) = (err not_removed, st)

-- `kills` is the answer of the process's kill; a session that is not there counts as killed.
unfoldable pub kill_session_for :
    Bool → Bool → Text → Registry → Result KillError (Unit {0}) × Registry
unfolding forget_session
kill_session_for kills commits id st =
    if contains_key id st.sessions && not kills
    then (err not_killed, st)
    else removed_result (forget_session commits id st)
