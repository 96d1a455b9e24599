-- ===== src/Session/Phrases.antt =====
-- crates/daemon/src/state_infer: the words that the inference looks for.
use shelly.Prelude.{[], ◌∷◌, Text}

-- "do you want"
abbrev pub do_you_want : Text
do_you_want = b'd' ∷ b'o' ∷ b' ' ∷ b'y' ∷ b'o' ∷ b'u' ∷ b' ' ∷ b'w' ∷ b'a' ∷ b'n' ∷ b't' ∷ []

-- "would you like"
abbrev pub would_you_like : Text
would_you_like =
    b'w' ∷ b'o' ∷ b'u' ∷ b'l' ∷ b'd' ∷ b' ' ∷ b'y' ∷ b'o' ∷ b'u' ∷ b' ' ∷ b'l' ∷ b'i' ∷ b'k' ∷ b'e'
    ∷ []

-- "proceed?"
abbrev pub proceed : Text
proceed = b'p' ∷ b'r' ∷ b'o' ∷ b'c' ∷ b'e' ∷ b'e' ∷ b'd' ∷ b'?' ∷ []

-- "continue?"
abbrev pub continue : Text
continue = b'c' ∷ b'o' ∷ b'n' ∷ b't' ∷ b'i' ∷ b'n' ∷ b'u' ∷ b'e' ∷ b'?' ∷ []

-- "is this okay"
abbrev pub is_this_okay : Text
is_this_okay =
    b'i' ∷ b's' ∷ b' ' ∷ b't' ∷ b'h' ∷ b'i' ∷ b's' ∷ b' ' ∷ b'o' ∷ b'k' ∷ b'a' ∷ b'y' ∷ []

-- "is that okay"
abbrev pub is_that_okay : Text
is_that_okay =
    b'i' ∷ b's' ∷ b' ' ∷ b't' ∷ b'h' ∷ b'a' ∷ b't' ∷ b' ' ∷ b'o' ∷ b'k' ∷ b'a' ∷ b'y' ∷ []

-- "yes/no"
abbrev pub yes_no : Text
yes_no = b'y' ∷ b'e' ∷ b's' ∷ b'/' ∷ b'n' ∷ b'o' ∷ []

-- "[y/n]"
abbrev pub y_n : Text
y_n = b'[' ∷ b'y' ∷ b'/' ∷ b'n' ∷ b']' ∷ []

-- "approve"
abbrev pub approve : Text
approve = b'a' ∷ b'p' ∷ b'p' ∷ b'r' ∷ b'o' ∷ b'v' ∷ b'e' ∷ []

-- "allow"
abbrev pub allow : Text
allow = b'a' ∷ b'l' ∷ b'l' ∷ b'o' ∷ b'w' ∷ []

-- "permission"
abbrev pub permission : Text
permission = b'p' ∷ b'e' ∷ b'r' ∷ b'm' ∷ b'i' ∷ b's' ∷ b's' ∷ b'i' ∷ b'o' ∷ b'n' ∷ []

-- "should i"
abbrev pub should_i : Text
should_i = b's' ∷ b'h' ∷ b'o' ∷ b'u' ∷ b'l' ∷ b'd' ∷ b' ' ∷ b'i' ∷ []

-- "shall i"
abbrev pub shall_i : Text
shall_i = b's' ∷ b'h' ∷ b'a' ∷ b'l' ∷ b'l' ∷ b' ' ∷ b'i' ∷ []

-- "claude"
abbrev pub claude_program : Text
claude_program = b'c' ∷ b'l' ∷ b'a' ∷ b'u' ∷ b'd' ∷ b'e' ∷ []

-- "claude-code"
abbrev pub claude_code_program : Text
claude_code_program =
    b'c' ∷ b'l' ∷ b'a' ∷ b'u' ∷ b'd' ∷ b'e' ∷ b'-' ∷ b'c' ∷ b'o' ∷ b'd' ∷ b'e' ∷ []

-- "codex"
abbrev pub codex_program : Text
codex_program = b'c' ∷ b'o' ∷ b'd' ∷ b'e' ∷ b'x' ∷ []

-- "codex-exec"
abbrev pub codex_exec_program : Text
codex_exec_program = b'c' ∷ b'o' ∷ b'd' ∷ b'e' ∷ b'x' ∷ b'-' ∷ b'e' ∷ b'x' ∷ b'e' ∷ b'c' ∷ []

-- "awaiting_input"
abbrev pub awaiting_input_event : Text
awaiting_input_event =
    b'a' ∷ b'w' ∷ b'a' ∷ b'i' ∷ b't' ∷ b'i' ∷ b'n' ∷ b'g' ∷ b'_' ∷ b'i' ∷ b'n' ∷ b'p' ∷ b'u' ∷ b't'
    ∷ []

-- "approval_requested"
abbrev pub approval_requested_event : Text
approval_requested_event =
    b'a' ∷ b'p' ∷ b'p' ∷ b'r' ∷ b'o' ∷ b'v' ∷ b'a' ∷ b'l' ∷ b'_' ∷ b'r' ∷ b'e' ∷ b'q' ∷ b'u' ∷ b'e'
    ∷ b's' ∷ b't' ∷ b'e' ∷ b'd' ∷ []

-- "turn_waiting"
abbrev pub turn_waiting_event : Text
turn_waiting_event =
    b't' ∷ b'u' ∷ b'r' ∷ b'n' ∷ b'_' ∷ b'w' ∷ b'a' ∷ b'i' ∷ b't' ∷ b'i' ∷ b'n' ∷ b'g' ∷ []

-- "turn_started"
abbrev pub turn_started_event : Text
turn_started_event =
    b't' ∷ b'u' ∷ b'r' ∷ b'n' ∷ b'_' ∷ b's' ∷ b't' ∷ b'a' ∷ b'r' ∷ b't' ∷ b'e' ∷ b'd' ∷ []

-- "working"
abbrev pub working_event : Text
working_event = b'w' ∷ b'o' ∷ b'r' ∷ b'k' ∷ b'i' ∷ b'n' ∷ b'g' ∷ []

-- "turn_finished"
abbrev pub turn_finished_event : Text
turn_finished_event =
    b't' ∷ b'u' ∷ b'r' ∷ b'n' ∷ b'_' ∷ b'f' ∷ b'i' ∷ b'n' ∷ b'i' ∷ b's' ∷ b'h' ∷ b'e' ∷ b'd' ∷ []

-- "idle"
abbrev pub idle_event : Text
idle_event = b'i' ∷ b'd' ∷ b'l' ∷ b'e' ∷ []

-- "crashed"
abbrev pub crashed_event : Text
crashed_event = b'c' ∷ b'r' ∷ b'a' ∷ b's' ∷ b'h' ∷ b'e' ∷ b'd' ∷ []

-- "error"
abbrev pub error_event : Text
error_event = b'e' ∷ b'r' ∷ b'r' ∷ b'o' ∷ b'r' ∷ []
