-- ===== src/Session/Edges.antt =====
-- What holds of a session behind its end. The output of the process is not among the operations here:
-- its thread reads it before it marks the end.
use shelly.Prelude.{ℕ, ◌≡◌, refl, ap, ◌∙◌, Bool, Option, none, some, Text, Bool-cases, inl, inr}
use shelly.Session.{
  Session, AgentState, AgentSource, flush_dirty_persistence, mark_exited, idle_round,
  apply_agent_state_event, show_line, input_written,
}

-- One operation; `saved` is the answer of the durable store, and `line` is what the terminal tells a
-- summary.
pub data Step : Session → Session → Type 0 where
  flushes : (saved : Bool) (s : Session) → Step s (flush_dirty_persistence saved s)
  exits : (saved : Bool) (code : ℕ) (s : Session) → Step s (mark_exited saved code s)
  idles : (now : ℕ) (s : Session) → Step s (idle_round now s)
  hears :
      (now : ℕ) (source : AgentSource) (state : AgentState) (line : Option Text) (s : Session)
      → Step s (apply_agent_state_event now source state line s).1
  summarizes : (line : Option Text) (s : Session) → Step s (show_line line s)
  writes : (now : ℕ) (s : Session) → Step s (input_written now s)

pub data Steps (s : Session) : Session → Type 0 where
  done : Steps s s
  then_step : {t u : Session} → Steps s t → Step t u → Steps s u

-- Nothing but the last line and the mark for the durable store differs.
pub record IsFrozen (s t : Session) : Type 0 where
  pub exit_code : t.exit_code ≡ s.exit_code
  pub state : t.state ≡ s.state
  pub sent : t.sent ≡ s.sent

flush-IsFrozen : (saved : Bool) (s : Session) → IsFrozen s (flush_dirty_persistence saved s)
unfolding flush_dirty_persistence
flush-IsFrozen saved s = elim (Bool-cases s.persist_dirty) [
  | inl dirty ↦ rw dirty (record { exit_code = refl; state = refl; sent = refl })
  | inr clean ↦ rw clean (record { exit_code = refl; state = refl; sent = refl })
]

show_line-IsFrozen : (line : Option Text) (s : Session) → IsFrozen s (show_line line s)
show_line-IsFrozen none s = record { exit_code = refl; state = refl; sent = refl }
show_line-IsFrozen (some line) s = record { exit_code = refl; state = refl; sent = refl }

same-IsFrozen : {s t : Session} → t ≡ s → IsFrozen s t
same-IsFrozen e = record {
  exit_code = ap (λ r. r.exit_code) e;
  state = ap (λ r. r.state) e;
  sent = ap (λ r. r.sent) e;
}

Step-IsFrozen : {s t : Session} (code : ℕ) → Step s t → s.exit_code ≡ some code → IsFrozen s t
Step-IsFrozen code (flushes saved s) e = flush-IsFrozen saved s
Step-IsFrozen code (exits saved c s) e = same-IsFrozen (unfold mark_exited in rw e refl)
Step-IsFrozen code (idles now s) e = same-IsFrozen (unfold idle_round in rw e refl)
Step-IsFrozen code (hears now source state line s) e =
    same-IsFrozen (unfold apply_agent_state_event in rw e refl)
Step-IsFrozen code (summarizes line s) e = show_line-IsFrozen line s
Step-IsFrozen code (writes now s) e = same-IsFrozen (unfold input_written in rw e refl)

-- The end is final: whatever of these follows the exit of the process, another exit, a hook, input, the
-- idle loop, a summary or a write to the durable store, the exit code and the state stay, and nothing
-- more is sent. The output of the process is read before its exit is marked. The last line is not among what stays: a summary brings it up to date.
pub Steps-IsFrozen : {s t : Session} (code : ℕ) → Steps s t → s.exit_code ≡ some code → IsFrozen s t
Steps-IsFrozen code done e = same-IsFrozen refl
Steps-IsFrozen code (then_step steps step) e =
    let before = Steps-IsFrozen code steps e in
    let last = Step-IsFrozen code step (before.exit_code ∙ e) in
    record {
      exit_code = last.exit_code ∙ before.exit_code;
      state = last.state ∙ before.state;
      sent = last.sent ∙ before.sent;
    }
