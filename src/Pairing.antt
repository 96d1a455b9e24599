-- ===== src/Pairing.antt =====
-- crates/daemon/src/pairing.rs: the daemon's pairing codes and the approvals at the desktop.
-- The clock, the request ids and the state of the channels are arguments of the calls.
-- `generate_code` is in Code.
pub mod Attempts
pub mod Approval
mod Tests
use shelly.Prelude.{
  ℕ, ◌+◌, ◌-◌, ◌*◌, nat_eq, text_eq, Bool, true, false, Option, none, some, List, [], ◌∷◌, Text,
  ltb, leb, ◌==◌, if◌then◌else◌, Result, ok, err,
}
use shelly.Prelude.Dict.{Dict, lookup, insert, remove, retain, retain_mut}
use shelly.Ring.{saturating_add}

abbrev pub pair_token_ttl_ms : ℕ
pair_token_ttl_ms = 5 * 60 * 1000

abbrev pub max_code_attempts : ℕ
max_code_attempts = 5

-- `request_tx` is the channel to the desktop command that waits for the code.
pub record PendingPairCode : Type 0 where
  pub expires_at : ℕ
  pub attempts : ℕ
  pub request_tx : ℕ

-- An approval's sender is known by the id of its request.
pub record PairingManager : Type 0 where
  pub codes : Dict Text PendingPairCode
  pub approvals : Dict ℕ ℕ

pub record PairingApprovalEvent : Type 0 where
  pub request_id : ℕ
  pub device_name : Text
  pub device_node_id : Text
  pub sas : Text

pub record PendingPairingApproval : Type 0 where
  pub request_id : ℕ
  pub remaining_ms : ℕ

pub data PairingError : Type 0 where
  invalid_or_used expired prompt_inactive not_found : PairingError

unfoldable pub new : PairingManager
new = record { codes = []; approvals = [] }

unfoldable pub prune_expired : ℕ → PairingManager → PairingManager
prune_expired now m = record m { codes = retain (λ _ pending. ltb now pending.expires_at) m.codes }

-- The clock is read for the pruning and again for the deadline. `request_tx` is a new channel.
unfoldable pub begin_pairing : ℕ → ℕ → Text → ℕ → PairingManager → PairingManager × ℕ
unfolding prune_expired
begin_pairing now_prune now code request_tx m =
    let pruned = prune_expired now_prune m in
    let expires_at = saturating_add now pair_token_ttl_ms in
    let pending : PendingPairCode = record {
      expires_at = expires_at;
      attempts = 0;
      request_tx = request_tx;
    } in
    (record pruned { codes = insert code pending [] }, expires_at)

-- A wrong code charges an active code, and drops it when it is expired or its budget is spent.
unfoldable pub charge : ℕ → PendingPairCode → Option PendingPairCode
charge now pending =
    if leb pending.expires_at now
    then none
    else let attempts = if ltb pending.attempts 255 then pending.attempts + 1 else 255 in
      if ltb attempts max_code_attempts then some (record pending { attempts = attempts }) else none

-- What a call of `begin_approval` is given of its surroundings.
pub record Call : Type 0 where
  pub code : Text
  pub device_name : Text
  pub device_node_id : Text
  pub sas : Text
  pub now : ℕ
  pub request_id : ℕ
  pub is_open : ℕ → Bool

-- The manager afterwards, the answer, and the event that was sent with its channel.
pub record Outcome : Type 0 where
  pub manager : PairingManager
  pub answer : Result PairingError PendingPairingApproval
  pub sent : Option (ℕ × PairingApprovalEvent)

-- `Drop for PendingPairingApproval`
unfoldable pub drop_pending : ℕ → PairingManager → PairingManager
drop_pending request_id m = record m { approvals = remove request_id m.approvals }

-- The code is not active.
miss : Call → PairingManager → Outcome
miss call m = record {
  manager = record m { codes = retain_mut (charge call.now) m.codes };
  answer = err invalid_or_used;
  sent = none;
}

unfoldable pub event : Call → PairingApprovalEvent
event call = record {
  request_id = call.request_id;
  device_name = call.device_name;
  device_node_id = call.device_node_id;
  sas = call.sas;
}

-- The code is active and has been taken out of `m`. Where the desktop does not listen any more, the
-- pending approval is dropped on the way out.
hit : Call → PendingPairCode → PairingManager → Outcome
unfolding event drop_pending
hit call pending m =
    let remaining_ms = pending.expires_at - call.now in
    if remaining_ms == 0
    then record { manager = m; answer = err expired; sent = none }
    else let waiting = record m {
      approvals = insert call.request_id call.request_id m.approvals;
    } in
      if call.is_open pending.request_tx
      then record {
        manager = waiting;
        answer = ok (record { request_id = call.request_id; remaining_ms = remaining_ms });
        sent = some (pending.request_tx, event call);
      }
      else record {
        manager = drop_pending call.request_id waiting;
        answer = err prompt_inactive;
        sent = none;
      }

unfoldable pub begin_approval : Call → PairingManager → Outcome
unfolding miss hit
begin_approval call m = elim (lookup call.code m.codes) [
  | none ↦ miss call m
  | some pending ↦ hit call pending (record m { codes = remove call.code m.codes })
]

-- What ends a wait: an answer, the loss of the sender, or the deadline.
pub data Ending : Type 0 where
  answered : Bool → Ending
  sender_dropped timed_out : Ending

unfoldable pub wait : PendingPairingApproval → Ending → PairingManager → Bool × PairingManager
unfolding drop_pending
wait pending ending m =
    (elim ending [ answered approved ↦ approved | _ ↦ false ], drop_pending pending.request_id m)

-- On success the answer goes to the sender.
unfoldable pub approve : ℕ → Bool → PairingManager → Result PairingError (ℕ × Bool) × PairingManager
approve request_id approved m = elim (lookup request_id m.approvals) [
  | none ↦ (err not_found, m)
  | some tx ↦ (ok (tx, approved), record m { approvals = remove request_id m.approvals })
]
