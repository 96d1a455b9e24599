-- ===== src/Session/Output.antt =====
-- crates/daemon/src/session.rs: the output of the process, what is kept and sent of it, and what a client
-- that attaches is given. The terminal projection is an interface; the two slices of the ring are cut
-- where the deque wraps.
use shelly.Prelude.{
  ℕ, Bool, true, false, Option, none, some, List, Text, length, if◌then◌else◌, Result, ok, err,
}
use shelly.Ring.{PtyRingBuffer, push, replay_from, snapshot, end_seq, saturating_add}
use shelly.Session.{
  AgentState, idle, working, CommandKind, claude_command, codex_command, unknown, Session, output,
  send, set_state, same_state, show_line,
}
use shelly.Session.Infer.{infer_from_line, infer_from_json_line, CodexEvent}

abbrev Bytes : Type 0
Bytes = List ℕ

pub data TerminalProjectionFailure : Type 0 where
  parser_panicked inspection_panicked unavailable : TerminalProjectionFailure

abbrev pub invalidated_model : TerminalProjectionFailure → Bool
invalidated_model parser_panicked = true
invalidated_model unavailable = true
invalidated_model inspection_panicked = false

-- What a session uses of its terminal projection, and of the parser of JSON.
pub record Terminal (T : Type 0) : Type 0 where
  pub ingest : Bytes → T → Result TerminalProjectionFailure (Unit {0}) × T
  pub render : T → Result TerminalProjectionFailure Bytes × T
  pub last_non_empty_line : T → Result TerminalProjectionFailure (Option Text) × T
  pub rebuild : Bytes → T → T
  pub from_str : Text → Option CodexEvent

pub record OutputSession (T : Type 0) : Type 0 where
  pub shown : Session
  pub ring : PtyRingBuffer
  pub terminal : T

module _ {T : Type 0} (term : Terminal T) where
  -- What is done where the projection has failed.
  unfoldable pub recovered : Result TerminalProjectionFailure (Unit {0}) → Bytes → T → T
  recovered (ok u) scrollback t = t
  recovered (err failure) scrollback t =
      if invalidated_model failure then term.rebuild scrollback t else t

  abbrev pub line_of : Result TerminalProjectionFailure (Option Text) → Option Text
  line_of (ok line) = line
  line_of (err failure) = none

  -- `materialize_terminal_last_line`, for the agents that are known.
  unfoldable pub known_last_line : CommandKind → T → Option Text × T
  known_last_line unknown t = (none, t)
  known_last_line kind t = (line_of (term.last_non_empty_line t).0, (term.last_non_empty_line t).1)

  -- What `Session::summary` does before it answers: the last line is brought up to date.
  unfoldable pub materialize_last_line : OutputSession T → OutputSession T
  materialize_last_line s =
      let line = term.last_non_empty_line s.terminal in
      record s { shown = show_line (line_of line.0) s.shown; terminal = line.1 }

  abbrev pub or_working : Option AgentState → AgentState
  or_working none = working
  or_working (some state) = state

  unfoldable pub inferred_state : CommandKind → Option Text → AgentState
  inferred_state kind none = working
  inferred_state claude_command (some line) = or_working (infer_from_line line)
  inferred_state codex_command (some line) = or_working (infer_from_json_line term.from_str line)
  inferred_state unknown (some line) = working

  -- The part over the shown state; `at` and `now` are the two readings of the clock.
  unfoldable pub show_output : ℕ → ℕ → Option Text → ℕ → Bytes → Session → Session
  unfolding inferred_state set_state
  show_output at now line seq bytes s =
      let lined = show_line line (record s { last_activity = at }) in
      let state = inferred_state s.command_kind line in
      let told : Session =
        if same_state state idle then lined else set_state now state line lined in
      record (send (output seq bytes) told) { persist_dirty = true }

  unfoldable pub record_output : ℕ → ℕ → ℕ → Bytes → OutputSession T → OutputSession T
  unfolding recovered known_last_line show_output
  record_output cut at now bytes s =
      let pushed = push s.ring bytes in
      let seq = saturating_add pushed.1 (length bytes) in
      let update = term.ingest bytes s.terminal in
      let projected : T = recovered update.0 (snapshot cut pushed.0).1 update.1 in
      let line = known_last_line s.shown.command_kind projected in
      record {
        shown = show_output at now line.0 seq bytes s.shown;
        ring = pushed.0;
        terminal = line.1;
      }

  -- The screen to show where the projection cannot render: the raw output, or the rebuilt screen.
  unfoldable pub attach_failed : TerminalProjectionFailure → Bytes → T → Bytes × T
  attach_failed failure raw_scrollback t =
      if invalidated_model failure
      then (let rendered = term.render (term.rebuild raw_scrollback t) in
          (elim rendered.0 [ ok screen ↦ screen | err e ↦ raw_scrollback ], rendered.1))
      else (raw_scrollback, t)

  abbrev pub attach_rendered : Result TerminalProjectionFailure Bytes × T → Bytes → Bytes × T
  attach_rendered (ok screen, t) raw_scrollback = (screen, t)
  attach_rendered (err failure, t) raw_scrollback = attach_failed failure raw_scrollback t

  unfoldable pub attach_screen : ℕ → OutputSession T → (ℕ × Bytes) × T
  unfolding attach_failed
  attach_screen cut s =
      let screen = attach_rendered (term.render s.terminal) (snapshot cut s.ring).1 in
      ((end_seq s.ring, screen.0), screen.1)

  unfoldable pub attach_bytes : ℕ → Option ℕ → OutputSession T → (ℕ × Bytes) × OutputSession T
  unfolding attach_screen
  attach_bytes cut none s =
      let screen = attach_screen cut s in (screen.0, record s { terminal = screen.1 })
  attach_bytes cut (some seq) s = elim (replay_from cut s.ring seq) [
    | some (start, replay) ↦ ((saturating_add start (length replay), replay), s)
    | none ↦ let screen = attach_screen cut s in (screen.0, record s { terminal = screen.1 })
  ]
