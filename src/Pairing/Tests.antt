-- ===== src/Pairing/Tests.antt =====
-- Runs of the pairing manager, as in the tests of pairing.rs, and the theorems at concrete inputs.
use shelly.Prelude.{
  ℕ, ◌<◌, ◌≡◌, ◌≢◌, refl, true, false, List, [], ◌∷◌, Text, arith, none, some, ok, err, nat_eq,
  text_eq, All,
}
use shelly.Prelude.Dict.{IsUnique, lookup, insert, remove}
use shelly.Pairing.{
  PendingPairCode, PairingManager, Call, new, begin_pairing, begin_approval, invalid_or_used,
  prompt_inactive,
}
use shelly.Pairing.Attempts.{
  IsValid, Reach, start, next, begins, here, ask_all, Reach-IsValid, begin_approval_once,
  wrong_attempts,
}

abbrev shown_code : Text
shown_code = b'A' ∷ b'B' ∷ b'2' ∷ b'3' ∷ b'4' ∷ b'C' ∷ b'D' ∷ []

abbrev other_code : Text
other_code = b'Z' ∷ []

-- A pairing command at time 1000, on channel 7.
started : PairingManager
unfolding begin_pairing new insert
started = (begin_pairing 1000 1000 shown_code 7 new).0

abbrev shown_pending : PendingPairCode
shown_pending = record { expires_at = 301000; attempts = 0; request_tx = 7 }

abbrev ask_with : Text → ℕ → Call
ask_with code now = record {
  code = code;
  device_name = b'p' ∷ [];
  device_node_id = b'n' ∷ [];
  sas = [];
  now = now;
  request_id = 42;
  is_open = λ _. true;
}

-- The desktop command is gone.
abbrev ask_closed : Call
ask_closed = record (ask_with shown_code 2000) { is_open = λ _. false }

started-Reach : Reach started
unfolding started
started-Reach = next start (begins 1000 1000 shown_code 7 new)

shown_active : lookup shown_code started.codes ≡ some shown_pending
unfolding started lookup
shown_active = refl

accepted_answer :
    (begin_approval (ask_with shown_code 2000) started).answer
    ≡ ok (record { request_id = 42; remaining_ms = 299000 })
unfolding started begin_approval lookup remove
accepted_answer = refl

closed_answer : (begin_approval ask_closed started).answer ≡ err prompt_inactive
unfolding started begin_approval lookup remove
closed_answer = refl

-- At the deadline the code is worth nothing, and is used up all the same.
expired_answer : (begin_approval (ask_with shown_code 301000) started).manager.codes ≡ []
unfolding started begin_approval lookup remove
expired_answer = refl

not_shown : other_code ≢ shown_code
not_shown e = cc

Reach-IsValid_example : IsValid started.codes
Reach-IsValid_example = Reach-IsValid started-Reach

begin_approval_once_example :
    (begin_approval
      (ask_with shown_code 3000)
      (begin_approval (ask_with shown_code 2000) started).manager).answer
    ≡ err invalid_or_used
begin_approval_once_example =
    begin_approval_once (ask_with shown_code 2000) (ask_with shown_code 3000) started-Reach here
      refl

abbrev five_wrong : List Call
five_wrong =
    ask_with other_code 2000
    ∷ ask_with other_code 2001
    ∷ ask_with other_code 2002
    ∷ ask_with other_code 2003
    ∷ ask_with other_code 2004
    ∷ []

five_wrong-All : All (λ call. (call.code ≢ shown_code) × (call.now < 301000)) five_wrong
five_wrong-All = (
  (not_shown, omega arith),
  (
    (not_shown, omega arith),
    ((not_shown, omega arith), ((not_shown, omega arith), ((not_shown, omega arith), tt))),
  ),
)

wrong_attempts_example : lookup shown_code (ask_all five_wrong started).codes ≡ none
wrong_attempts_example =
    wrong_attempts shown_code shown_pending five_wrong started (Reach-IsValid started-Reach)
      shown_active five_wrong-All

no_approvals : IsUnique started.approvals
unfolding started
no_approvals = tt
