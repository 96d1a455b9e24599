-- ===== src/Session/OutputTests.antt =====
-- Witnesses and tests of the output of a session, and of the inference of states.
use shelly.Prelude.{ℕ, ◌≡◌, refl, true, false, none, some, List, [], ◌∷◌, ◌++◌, ok, text_eq}
use shelly.Ring.{new, push, replay_from}
use shelly.Relay.Checks.{trim}
use shelly.Signing.{strip_prefix}
use shelly.Session.{ClientSize, min_client_size, idle, awaiting_input, claude_command}
use shelly.Session.Clients.{Attached, attach_client}
use shelly.Session.Smallest.{IsSettled, done, then_step, attaches, Sizing-IsSettled}
use shelly.Session.Infer.{infer_from_line}
use shelly.Session.Output.{Terminal, OutputSession, attach_bytes}
use shelly.Session.Resume.{Read, record_all}

-- An option of a dialog waits for an answer.
an_option :
    infer_from_line (
      0x276f ∷ b' ' ∷ b'1' ∷ b'.' ∷ b' ' ∷ b'Y' ∷ b'e' ∷ b's' ∷ b',' ∷ b' ' ∷ b'a' ∷ b'l' ∷ b'l'
      ∷ b'o' ∷ b'w' ∷ [])
    ≡ some awaiting_input
unfolding infer_from_line trim strip_prefix
an_option = refl

-- Narration with a loose word does not.
narration :
    infer_from_line (
      b'I' ∷ b' ' ∷ b'a' ∷ b'p' ∷ b'p' ∷ b'r' ∷ b'o' ∷ b'v' ∷ b'e' ∷ b' ' ∷ b'o' ∷ b'f' ∷ b' '
      ∷ b't' ∷ b'h' ∷ b'i' ∷ b's' ∷ b' ' ∷ b'A' ∷ b'P' ∷ b'I' ∷ [])
    ≡ none
unfolding infer_from_line trim strip_prefix
narration = refl

-- A question in the first person does.
a_question :
    infer_from_line (b'S' ∷ b'h' ∷ b'a' ∷ b'l' ∷ b'l' ∷ b' ' ∷ b'I' ∷ []) ≡ some awaiting_input
unfolding infer_from_line trim strip_prefix
a_question = refl

-- A longer word does not.
increase :
    infer_from_line (
      b'W' ∷ b'e' ∷ b' ' ∷ b's' ∷ b'h' ∷ b'o' ∷ b'u' ∷ b'l' ∷ b'd' ∷ b' ' ∷ b'i' ∷ b'n' ∷ b'c'
      ∷ b'r' ∷ b'e' ∷ b'a' ∷ b's' ∷ b'e' ∷ b' ' ∷ b'i' ∷ b't' ∷ [])
    ≡ none
unfolding infer_from_line trim strip_prefix
increase = refl

-- The screen is all the bytes so far.
abbrev raw : Terminal (List ℕ)
raw = record {
  ingest = λ bytes t. (ok tt, t ++ bytes);
  render = λ t. (ok t, t);
  last_non_empty_line = λ t. (ok (some t), t);
  rebuild = λ scrollback t. scrollback;
  from_str = λ line. none;
}

abbrev opened : OutputSession (List ℕ)
opened = record {
  shown = record {
    command_kind = claude_command;
    state = idle;
    working_since = none;
    last_activity = 0;
    exit_code = none;
    last_line = none;
    has_push = false;
    has_persistence = false;
    persist_dirty = false;
    killed = false;
    sent = [];
  };
  ring = new 4;
  terminal = [];
}

abbrev before : List Read
before =
    record { cut = 0; at = 5; now = 5; bytes = b'a' ∷ b'b' ∷ b'c' ∷ [] }
    ∷ record { cut = 1; at = 6; now = 6; bytes = b'd' ∷ b'e' ∷ [] }
    ∷ []

abbrev after : List Read
after = record { cut = 0; at = 7; now = 7; bytes = b'f' ∷ [] } ∷ []

-- The window has the last four bytes; the client has seen two.
given :
    (attach_bytes raw 1 (some 2) (record_all raw before opened)).0 ≡ (5, b'c' ∷ b'd' ∷ b'e' ∷ [])
unfolding attach_bytes record_all replay_from push new
given = refl

abbrev phone_size : ClientSize
phone_size = record { cols = 40; rows = 60 }

abbrev desk_size : ClientSize
desk_size = record { cols = 200; rows = 50 }

abbrev nobody : Attached
nobody = record { attached_sizes = []; terminal_size = desk_size; scheduled = false }

abbrev with_desk : Attached
with_desk = (attach_client true (b'd' ∷ []) desk_size nobody).1

abbrev with_both : Attached
with_both = (attach_client true (b'p' ∷ []) phone_size with_desk).1

Sizing-IsSettled_example : IsSettled with_both.scheduled with_both
unfolding min_client_size
Sizing-IsSettled_example =
    Sizing-IsSettled
      (then_step (then_step done (attaches (b'd' ∷ []) desk_size nobody))
        (attaches (b'p' ∷ []) phone_size with_desk))
      tt
