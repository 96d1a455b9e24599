-- ===== src/Session/Infer.antt =====
-- crates/daemon/src/state_infer: the agent state that a line of a session's screen shows. The parser of
-- JSON is a parameter.
use shelly.Prelude.{
  ℕ, ◌+◌, Bool, true, false, not, ◌&&◌, ◌||◌, ◌==◌, leb, Option, none, some, List, [], ◌∷◌, Text,
  map, if◌then◌else◌, text_beq,
}
use shelly.Relay.Checks.{trim, trim_start}
use shelly.Signing.{strip_prefix}
use shelly.Session.{
  AgentState, idle, working, awaiting_input, crashed, CommandKind, claude_command, codex_command,
  unknown,
}
use shelly.Session.Phrases.{
  do_you_want, would_you_like, proceed, continue, is_this_okay, is_that_okay, yes_no, y_n, approve,
  allow, permission, should_i, shall_i, claude_program, claude_code_program, codex_program,
  codex_exec_program, awaiting_input_event, approval_requested_event, turn_waiting_event,
  turn_started_event, working_event, turn_finished_event, idle_event, crashed_event, error_event,
}

abbrev pub strong_prompts : List Text
strong_prompts =
    do_you_want ∷ would_you_like ∷ proceed ∷ continue ∷ is_this_okay ∷ is_that_okay ∷ yes_no ∷ y_n
    ∷ []

abbrev pub loose_keywords : List Text
loose_keywords = approve ∷ allow ∷ permission ∷ []

unfoldable pub to_ascii_lowercase : ℕ → ℕ
to_ascii_lowercase c = if leb b'A' c && leb c b'Z' then c + 32 else c

unfoldable pub starts_with : Text → Text → Bool
starts_with needle s = elim (strip_prefix needle s) [ none ↦ false | some rest ↦ true ]

-- `str::contains`
unfoldable pub contains_text : Text → Text → Bool
unfolding starts_with
contains_text needle [] = starts_with needle []
contains_text needle (c ∷ s) =
    let rest = contains_text needle s in if starts_with needle (c ∷ s) then true else rest

unfoldable pub contains_any : List Text → Text → Bool
unfolding contains_text
contains_any [] s = false
contains_any (needle ∷ needles) s = contains_text needle s || contains_any needles s

unfoldable pub is_alphanumeric : ℕ → Bool
is_alphanumeric c =
    (leb b'0' c && leb c b'9') || (leb b'a' c && leb c b'z') || (leb b'A' c && leb c b'Z')

-- No letter follows.
unfoldable pub ends_word : Text → Bool
unfolding is_alphanumeric
ends_word [] = true
ends_word (c ∷ s) = not (is_alphanumeric c)

-- The phrase with a word's end behind it; no phrase overlaps itself.
unfoldable pub has_phrase : Text → Text → Bool
unfolding ends_word
has_phrase phrase [] = false
has_phrase phrase (c ∷ s) =
    let rest = has_phrase phrase s in
    elim (strip_prefix phrase (c ∷ s)) [
      | none ↦ rest
      | some behind ↦ if ends_word behind then true else rest
    ]

unfoldable pub asks_first_person_question : Text → Bool
unfolding has_phrase
asks_first_person_question lower = has_phrase should_i lower || has_phrase shall_i lower

unfoldable pub ends_with : ℕ → Text → Bool
ends_with c [] = false
ends_with c (d ∷ []) = d == c
ends_with c (d ∷ e ∷ s) = ends_with c (e ∷ s)

-- `trim_start_matches` of one character.
unfoldable pub skip : ℕ → Text → Text
skip c [] = []
skip c (d ∷ s) = if d == c then skip c s else d ∷ s

unfoldable pub skip_digits : Text → Text
skip_digits [] = []
skip_digits (c ∷ s) = if leb b'0' c && leb c b'9' then skip_digits s else c ∷ s

unfoldable pub starts_with_digit : Text → Bool
starts_with_digit [] = false
starts_with_digit (c ∷ s) = leb b'0' c && leb c b'9'

-- U+276F
abbrev pointer : ℕ
pointer = 0x276f

unfoldable pub is_numbered_option : Text → Bool
unfolding skip skip_digits starts_with_digit starts_with
is_numbered_option lower =
    let rest = trim_start (skip pointer lower) in
    starts_with_digit rest && starts_with (b'.' ∷ b' ' ∷ []) (skip_digits rest)

unfoldable pub has_prompt_marker : Text → Bool
unfolding ends_with contains_text is_numbered_option
has_prompt_marker lower =
    ends_with b'?' lower
    || contains_text y_n lower
    || contains_text yes_no lower
    || is_numbered_option lower

unfoldable pub infer_from_line : Text → Option AgentState
unfolding contains_any asks_first_person_question has_prompt_marker to_ascii_lowercase
infer_from_line line =
    let lower = map to_ascii_lowercase (trim line) in
    if contains_any strong_prompts lower
      || asks_first_person_question lower
      || (contains_any loose_keywords lower && has_prompt_marker lower)
    then some awaiting_input
    else none

-- The match on the name of an event.
unfoldable pub named_state : Text → Option AgentState
named_state name =
    if text_beq name awaiting_input_event
      || text_beq name approval_requested_event
      || text_beq name turn_waiting_event
    then some awaiting_input
    else if text_beq name turn_started_event || text_beq name working_event
    then some working
    else if text_beq name turn_finished_event || text_beq name idle_event
    then some idle
    else if text_beq name crashed_event || text_beq name error_event
    then some crashed
    else none

unfoldable pub infer_from_structured_event : Text → Option AgentState
unfolding named_state to_ascii_lowercase
infer_from_structured_event event_name = named_state (map to_ascii_lowercase (trim event_name))

pub record CodexEvent : Type 0 where
  pub event_type : Option Text
  pub event : Option Text
  pub status : Option Text

-- `flatten` and `find_map`
unfoldable pub first_state : List (Option Text) → Option AgentState
unfolding infer_from_structured_event
first_state [] = none
first_state (none ∷ names) = first_state names
first_state (some name ∷ names) =
    let rest = first_state names in
    elim (infer_from_structured_event name) [ none ↦ rest | some state ↦ some state ]

unfoldable pub infer_from_json_line : (Text → Option CodexEvent) → Text → Option AgentState
unfolding first_state
infer_from_json_line from_str line = elim (from_str line) [
  | none ↦ none
  | some event ↦ first_state (event.event_type ∷ event.event ∷ event.status ∷ [])
]

-- Over the name of the program's file, which `Path` finds, or the program where it finds none.
unfoldable pub classify : (Text → Option Text) → List Text → CommandKind
classify file_name [] = unknown
classify file_name (program ∷ args) =
    let name : Text = elim (file_name program) [ none ↦ program | some name ↦ name ] in
    if text_beq name claude_program || text_beq name claude_code_program
    then claude_command
    else if text_beq name codex_program || text_beq name codex_exec_program
    then codex_command
    else unknown
