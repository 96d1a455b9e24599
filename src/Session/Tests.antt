-- ===== src/Session/Tests.antt =====
-- Witnesses and tests of Session.
use shelly.Prelude.{◌≡◌, refl, true, false, none, some, [], ◌∷◌}
use shelly.Session.{
  Session, working, idle, awaiting_input, claude, claude_command, agent_state_changed,
  summary_update, push_build_finished, set_state, mark_exited, show_line, apply_agent_state_event,
  ClientSize, min_client_size,
}
use shelly.Session.Edges.{done, then_step, hears, exits, summarizes, IsFrozen, Steps-IsFrozen}

abbrev started : Session
started = record {
  command_kind = claude_command;
  state = working;
  working_since = some 1000;
  last_activity = 1000;
  exit_code = none;
  last_line = none;
  has_push = true;
  has_persistence = true;
  persist_dirty = false;
  killed = false;
  sent = [];
}

-- A build of five seconds is worth a push.
finishes :
    (set_state 6000 idle none started).sent
    ≡ agent_state_changed idle none ∷ summary_update false ∷ push_build_finished ∷ []
unfolding set_state
finishes = refl

-- A shorter one is not.
too_short :
    (set_state 5999 idle none started).sent
    ≡ agent_state_changed idle none ∷ summary_update false ∷ []
unfolding set_state
too_short = refl

abbrev ended : Session
ended = record started { exit_code = some 1 }

Steps-IsFrozen_example : IsFrozen ended (
    mark_exited true 0 (
      show_line
        (some (b'l' ∷ []))
        (apply_agent_state_event 7000 claude awaiting_input none ended).1))
Steps-IsFrozen_example =
    Steps-IsFrozen 1
      (then_step
        (then_step (then_step done (hears 7000 claude awaiting_input none ended))
          (summarizes (some (b'l' ∷ [])) _))
        (exits true 0 _))
      refl

abbrev wide : ClientSize
wide = record { cols = 200; rows = 20 }

abbrev tall : ClientSize
tall = record { cols = 80; rows = 60 }

abbrev both : ClientSize
both = record { cols = 80; rows = 20 }

least : min_client_size (wide ∷ tall ∷ []) ≡ some both
unfolding min_client_size
least = refl
