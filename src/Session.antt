-- ===== src/Session.antt =====
-- crates/daemon/src/session.rs: the state of a session that its dashboard shows, what is sent on a
-- change, and the end of the process. The clock and the failures of the durable store are arguments.
pub mod Edges
pub mod Infer
pub mod Output
pub mod Clients
pub mod Smallest
pub mod Sending
pub mod Resume
pub mod Subscribed
pub mod Sizes
mod Phrases
mod Tests
mod OutputTests
use Prim.Native.Nat.{min}
use shelly.Prelude.{
  ℕ, ◌-◌, ◌*◌, Bool, true, false, not, ◌&&◌, ◌||◌, leb, ◌==◌, Option, none, some, List, [], ◌∷◌,
  ◌++◌, Text, take, if◌then◌else◌, Result, ok, err,
}

abbrev pub idle_after_ms : ℕ
idle_after_ms = 2000

abbrev pub build_finished_min_working_ms : ℕ
build_finished_min_working_ms = 5000

pub data AgentState : Type 0 where
  idle working awaiting_input crashed : AgentState

pub data AgentSource : Type 0 where
  claude codex : AgentSource

pub data CommandKind : Type 0 where
  claude_command codex_command unknown : CommandKind

abbrev pub same_state : AgentState → AgentState → Bool
same_state idle idle = true
same_state working working = true
same_state awaiting_input awaiting_input = true
same_state crashed crashed = true
same_state _ _ = false

-- What a session sends: to its subscribers, to those of the summaries (with whether it is the last),
-- and to the push dispatcher.
pub data Sent : Type 0 where
  agent_state_changed : AgentState → Option Text → Sent
  session_exited : ℕ → Sent
  output : ℕ → List ℕ → Sent
  summary_update : Bool → Sent
  push_awaiting_input push_build_finished push_session_crashed : Sent

-- The fields that these operations read or change; an exit code is given as the 32 bits of an `i32`.
pub record Session : Type 0 where
  pub command_kind : CommandKind
  pub state : AgentState
  pub working_since : Option ℕ
  pub last_activity : ℕ
  pub exit_code : Option ℕ
  pub last_line : Option Text
  pub has_push : Bool
  pub has_persistence : Bool
  pub persist_dirty : Bool
  pub killed : Bool
  pub sent : List Sent

abbrev pub send : Sent → Session → Session
send message s = record s { sent = s.sent ++ message ∷ [] }

-- Whether the end of the work is worth a push.
unfoldable pub build_finished : ℕ → AgentState → Session → Bool
build_finished now state s =
    same_state s.state working && same_state state idle && elim s.working_since [
      | none ↦ false
      | some since ↦ leb build_finished_min_working_ms (now - since)
    ]

unfoldable pub push_for : Bool → AgentState → Session → Session
push_for finished state s =
    if s.has_push
    then if same_state state awaiting_input
      then send push_awaiting_input s
      else if finished
      then send push_build_finished s
      else s
    else s

-- `now` is the clock, of which a call uses one reading at most.
unfoldable pub set_state : ℕ → AgentState → Option Text → Session → Session
unfolding build_finished push_for
set_state now state last_line s =
    if same_state s.state state
    then s
    else push_for (build_finished now state s) state (
        send (summary_update false) (
          send (agent_state_changed state last_line) (record s {
            state = state;
            working_since = if same_state state working then some now else none;
          })))

-- The durable store's answer is `saved`; a killed session is not written.
unfoldable pub persist : Bool → Session → Bool
persist saved s = s.killed || not s.has_persistence || saved

unfoldable pub flush_dirty_persistence : Bool → Session → Session
unfolding persist
flush_dirty_persistence saved s =
    if s.persist_dirty then record s { persist_dirty = not (persist saved s) } else s

unfoldable pub mark_exited : Bool → ℕ → Session → Session
unfolding persist
mark_exited saved code s = elim s.exit_code [
  | some _ ↦ s
  | none ↦
      let exited : Session =
        send (session_exited code)
          (record s { exit_code = some code; state = if code == 0 then idle else crashed }) in
      let told : Session =
        if not (code == 0) && not s.killed && s.has_push
        then send push_session_crashed exited
        else exited in
      send (summary_update true) (record told { persist_dirty = not (persist saved s) })
]

-- The round of the idle loop.
unfoldable pub idle_round : ℕ → Session → Session
unfolding set_state
idle_round now s = elim s.exit_code [
  | some _ ↦ s
  | none ↦
      if leb idle_after_ms (now - s.last_activity)
        && not (same_state s.state idle)
        && not (same_state s.state awaiting_input)
      then set_state now idle none s
      else s
]

pub data EventError : Type 0 where
  exited mismatched : EventError

abbrev pub matches_command : AgentSource → CommandKind → Bool
matches_command _ unknown = true
matches_command claude claude_command = true
matches_command codex codex_command = true
matches_command _ _ = false

abbrev pub show_line : Option Text → Session → Session
show_line none s = s
show_line (some line) s = record s { last_line = some line }

-- The part behind the checks; the line is cut already, and the terminal's own copy of it is left out.
unfoldable pub apply_event :
    ℕ → AgentState → Option Text → Session → Result EventError (Option Text) × Session
unfolding set_state
apply_event now state cut s =
    let after = set_state now state cut (show_line cut s) in
    (ok after.last_line, record after { persist_dirty = true })

-- The answer is the last line that is known.
unfoldable pub apply_agent_state_event :
    ℕ → AgentSource → AgentState → Option Text → Session → Result EventError (Option Text) × Session
unfolding apply_event
apply_agent_state_event now source state last_line s = elim s.exit_code [
  | some _ ↦ (err exited, s)
  | none ↦
      if matches_command source s.command_kind
      then apply_event now state (elim last_line [ none ↦ none | some line ↦ some (take 80 line) ])
          s
      else (err mismatched, s)
]

-- `write_input` behind the queue of the terminal, which has taken the bytes.
unfoldable pub input_written : ℕ → Session → Session
unfolding set_state
input_written now s = elim s.exit_code [ some _ ↦ s | none ↦ set_state now working none s ]

pub record ClientSize : Type 0 where
  pub cols : ℕ
  pub rows : ℕ

abbrev pub smaller : ClientSize → ClientSize → ClientSize
smaller a b = record { cols = min a.cols b.cols; rows = min a.rows b.rows }

unfoldable pub min_from : ClientSize → List ClientSize → ClientSize
min_from least [] = least
min_from least (size ∷ sizes) = min_from (smaller least size) sizes

unfoldable pub min_client_size : List ClientSize → Option ClientSize
unfolding min_from
min_client_size [] = none
min_client_size (size ∷ sizes) = some (min_from size sizes)
