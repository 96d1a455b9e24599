-- ===== src/Session/Sending.antt =====
-- The output messages among what a session sends.
use mathlib.Core.List.{append-nil}
use shelly.Prelude.{
  ℕ, ◌+◌, ◌^◌, ◌<◌, ◌≡◌, refl, ap, ◌∙◌, Bool, true, false, Option, none, some, List, [], ◌∷◌, ◌++◌,
  Text, arith, if◌then◌else◌, Bool-cases, inl, inr,
}
use shelly.Ring.{saturating_add}
use shelly.Session.{
  Session, Sent, AgentState, output, agent_state_changed, session_exited, summary_update,
  push_awaiting_input, push_build_finished, push_session_crashed, send, set_state, push_for,
  same_state, show_line, build_finished, idle, working, awaiting_input,
}
use shelly.Session.Output.{Terminal, show_output, inferred_state}

-- The output messages among what was sent, with their sequence numbers.
abbrev pub outputs : List Sent → List (ℕ × List ℕ)
outputs [] = []
outputs (output seq bytes ∷ sent) = (seq, bytes) ∷ outputs sent
outputs (_ ∷ sent) = outputs sent

pub outputs-append : (a b : List Sent) → outputs (a ++ b) ≡ outputs a ++ outputs b
outputs-append [] b = refl
outputs-append (output seq bytes ∷ a) b = ap (◌∷◌ (seq, bytes)) (outputs-append a b)
outputs-append (agent_state_changed state line ∷ a) b = outputs-append a b
outputs-append (session_exited code ∷ a) b = outputs-append a b
outputs-append (summary_update last ∷ a) b = outputs-append a b
outputs-append (push_awaiting_input ∷ a) b = outputs-append a b
outputs-append (push_build_finished ∷ a) b = outputs-append a b
outputs-append (push_session_crashed ∷ a) b = outputs-append a b

-- A message that is no output.
outputs-send :
    (message : Sent) (s : Session)
    → outputs (message ∷ []) ≡ []
    → outputs (send message s).sent ≡ outputs s.sent
outputs-send message s quiet =
    outputs-append s.sent (message ∷ []) ∙ rw quiet (append-nil (outputs s.sent))

outputs-push_for :
    (finished : Bool) (state : AgentState) (s : Session)
    → outputs (push_for finished state s).sent ≡ outputs s.sent
unfolding push_for
outputs-push_for finished state s = elim (Bool-cases s.has_push) [
  | inr e ↦ rw (e, push_for) refl
  | inl e ↦ elim (Bool-cases (same_state state awaiting_input)) [
    | inl f ↦ rw (e, f, push_for) (outputs-send push_awaiting_input s refl)
    | inr f ↦ elim (Bool-cases finished) [
      | inl g ↦ rw (e, f, g, push_for) (outputs-send push_build_finished s refl)
      | inr g ↦ rw (e, f, g, push_for) refl
    ]
  ]
]

outputs-set_state :
    (now : ℕ) (state : AgentState) (line : Option Text) (s : Session)
    → outputs (set_state now state line s).sent ≡ outputs s.sent
unfolding set_state
outputs-set_state now state line s = elim (Bool-cases (same_state s.state state)) [
  | inl e ↦ simp (e, set_state) refl
  | inr e ↦
      let changed : Session = record s {
        state = state;
        working_since = if same_state state working then some now else none;
      } in
      let told : Session = send (agent_state_changed state line) changed in
      let summed : Session = send (summary_update false) told in
      simp (e, set_state)
        (outputs-push_for (build_finished now state s) state summed
          ∙ (outputs-send (summary_update false) told refl
              ∙ outputs-send (agent_state_changed state line) changed refl))
]

outputs-show_line :
    (line : Option Text) (s : Session) → outputs (show_line line s).sent ≡ outputs s.sent
outputs-show_line none s = refl
outputs-show_line (some line) s = refl

outputs-if :
    (test : Bool) (a b : Session) {sent : List (ℕ × List ℕ)}
    → outputs a.sent ≡ sent
    → outputs b.sent ≡ sent
    → outputs (if test then a else b).sent ≡ sent
outputs-if true a b e f = e
outputs-if false a b e f = f

pub saturating_add-exact : (a b : ℕ) → a + b < 2 ^ 64 → saturating_add a b ≡ a + b
saturating_add-exact a b small = ground arith

module _ {T : Type 0} (term : Terminal T) where
  pub outputs-show_output :
      (at now : ℕ) (line : Option Text) (seq : ℕ) (bytes : List ℕ) (s : Session)
      → outputs (show_output term at now line seq bytes s).sent
        ≡ outputs s.sent ++ (seq, bytes) ∷ []
  unfolding show_output
  outputs-show_output at now line seq bytes s =
      let lined : Session = show_line line (record s { last_activity = at }) in
      let state : AgentState = inferred_state term s.command_kind line in
      let told : Session =
        if same_state state idle then lined else set_state now state line lined in
      let kept = outputs-show_line line (record s { last_activity = at }) in
      let quiet : outputs told.sent ≡ outputs s.sent =
        outputs-if (same_state state idle) lined (set_state now state line lined) kept
          (outputs-set_state now state line lined ∙ kept) in
      outputs-append told.sent (output seq bytes ∷ []) ∙ ap (λ o. o ++ (seq, bytes) ∷ []) quiet
