-- ===== src/Pairing/Approval.antt =====
-- What a request for approval does, and how it is answered.
use shelly.Prelude.{
  ℕ, ◌-◌, ◌<◌, ◌≡◌, refl, sym, ap, ◌∙◌, subst, Bool, true, none, some, arith, Option-cases, inl,
  inr, nat_eq, text_eq, ok, err, ◌↔◌,
}
use shelly.Prelude.Dict.{
  IsUnique, beq_refl, lookup, insert, remove, lookup-insert, lookup-remove, insert-IsUnique,
}
use shelly.Pairing.{
  PendingPairCode, PairingManager, PairingError, Call, Ending, answered, PendingPairingApproval,
  event, hit, miss, begin_approval, wait, approve, not_found,
}

-- What a request that is accepted says of the manager before and after it.
pub record Accepted (call : Call) (m : PairingManager) (p : PendingPairingApproval) : Type 0 where
  pub pending : PendingPairCode
  pub active : lookup call.code m.codes ≡ some pending
  pub early : call.now < pending.expires_at
  pub listening : call.is_open pending.request_tx ≡ true
  pub same_id : p.request_id ≡ call.request_id
  pub until_deadline : p.remaining_ms ≡ pending.expires_at - call.now
  pub told : (begin_approval call m).sent ≡ some (pending.request_tx, event call)
  pub recorded :
      lookup call.request_id (begin_approval call m).manager.approvals ≡ some call.request_id

begin_hit :
    (call : Call) (m : PairingManager) (pending : PendingPairCode)
    → lookup call.code m.codes ≡ some pending
    → begin_approval call m ≡ hit call pending (record m { codes = remove call.code m.codes })
unfolding begin_approval
begin_hit call m pending e = rw (e, begin_approval)

begin_miss :
    (call : Call) (m : PairingManager)
    → lookup call.code m.codes ≡ none
    → begin_approval call m ≡ miss call m
unfolding begin_approval
begin_miss call m e = rw (e, begin_approval)

hit_ok :
    (call : Call) (pending : PendingPairCode) (m : PairingManager) (p : PendingPairingApproval)
    → (hit call pending m).answer ≡ ok p
    → (call.now < pending.expires_at)
      × (call.is_open pending.request_tx ≡ true)
      × (p.request_id ≡ call.request_id)
      × (p.remaining_ms ≡ pending.expires_at - call.now)
      × ((hit call pending m).sent ≡ some (pending.request_tx, event call))
      × (lookup call.request_id (hit call pending m).manager.approvals ≡ some call.request_id)
unfolding hit
hit_ok call pending m p h = ground (
  arith,
  beq_refl call.request_id,
  lookup-insert call.request_id call.request_id call.request_id m.approvals,
)

-- A request is accepted only with the active code before its deadline, while the desktop command
-- that shows the code is listening; that command is told of it, and nothing is approved yet.
begin_approval-eq-ok :
    (call : Call) (m : PairingManager) (p : PendingPairingApproval)
    → (begin_approval call m).answer ≡ ok p
    → Accepted call m p
begin_approval-eq-ok call m p h = elim (Option-cases (lookup call.code m.codes)) [
  | inl none_active ↦
      absurd (unfold miss in cc (ap (λ o. o.answer) (begin_miss call m none_active)))
  | inr (pending, active) ↦
      let same = begin_hit call m pending active in
      let facts =
        hit_ok call pending (record m { codes = remove call.code m.codes }) p
          (ap (λ o. o.answer) (sym same) ∙ h) in
      record {
        pending = pending;
        active = active;
        early = facts.0;
        listening = facts.1;
        same_id = facts.2;
        until_deadline = facts.3;
        told = ap (λ o. o.sent) same ∙ facts.4;
        recorded = ap (λ o. lookup call.request_id o.manager.approvals) same ∙ facts.5;
      }
]

hit_err :
    (call : Call) (pending : PendingPairCode) (m : PairingManager) (e : PairingError) (id : ℕ)
    → IsUnique m.approvals
    → lookup call.request_id m.approvals ≡ none
    → (hit call pending m).answer ≡ err e
    → (lookup id (hit call pending m).manager.approvals ≡ lookup id m.approvals)
      × ((hit call pending m).sent ≡ none)
unfolding hit
hit_err call pending m e id u fresh h = ground (
  arith,
  lookup-insert call.request_id id call.request_id m.approvals,
  lookup-remove call.request_id id (insert call.request_id call.request_id m.approvals)
      (insert-IsUnique call.request_id call.request_id m.approvals u),
)

-- A request that is refused leaves no trace among the approvals, and tells nobody.
begin_approval-eq-err :
    (call : Call) (m : PairingManager) (e : PairingError) (id : ℕ)
    → IsUnique m.approvals
    → lookup call.request_id m.approvals ≡ none
    → (begin_approval call m).answer ≡ err e
    → (lookup id (begin_approval call m).manager.approvals ≡ lookup id m.approvals)
      × ((begin_approval call m).sent ≡ none)
begin_approval-eq-err call m e id u fresh h = elim (Option-cases (lookup call.code m.codes)) [
  | inl none_active ↦ rw (begin_miss call m none_active) (unfold miss in (refl, refl))
  | inr (pending, active) ↦
      let same = begin_hit call m pending active in
      let facts =
        hit_err call pending (record m { codes = remove call.code m.codes }) e id u fresh
          (ap (λ o. o.answer) (sym same) ∙ h) in
      (ap (λ o. lookup id o.manager.approvals) same ∙ facts.0, ap (λ o. o.sent) same ∙ facts.1)
]

approvals-hit :
    (call : Call) (pending : PendingPairCode) (m : PairingManager) (p : PendingPairingApproval)
    → (hit call pending m).answer ≡ ok p
    → (hit call pending m).manager.approvals ≡ insert call.request_id call.request_id m.approvals
unfolding hit
approvals-hit call pending m p h = ground arith

-- The approvals behind an accepted request.
approvals-begin_approval :
    (call : Call) (m : PairingManager) (p : PendingPairingApproval)
    → (begin_approval call m).answer ≡ ok p
    → (begin_approval call m).manager.approvals ≡ insert call.request_id call.request_id m.approvals
approvals-begin_approval call m p h =
    let accepted = begin_approval-eq-ok call m p h in
    let same = begin_hit call m accepted.pending accepted.active in
    ap (λ o. o.manager.approvals) same
    ∙ approvals-hit call accepted.pending (record m { codes = remove call.code m.codes }) p
        (ap (λ o. o.answer) (sym same) ∙ h)

approve_found :
    (id tx : ℕ) (approved : Bool) (m : PairingManager)
    → IsUnique m.approvals
    → lookup id m.approvals ≡ some tx
    → ((approve id approved m).0 ≡ ok (tx, approved))
      × (lookup id (approve id approved m).1.approvals ≡ none)
unfolding approve
approve_found id tx approved m u e =
    rw (e, approve) (refl, ground (arith, lookup-remove id id m.approvals u, beq_refl id))

approve_missing :
    (id : ℕ) (approved : Bool) (m : PairingManager)
    → lookup id m.approvals ≡ none
    → (approve id approved m).0 ≡ err not_found
unfolding approve
approve_missing id approved m e = rw (e, approve)

-- An accepted request is answered once: the first answer goes to its sender, a second finds nothing.
approve_once :
    (call : Call) (m : PairingManager) (p : PendingPairingApproval) (approved again : Bool)
    → IsUnique m.approvals
    → (begin_approval call m).answer ≡ ok p
    → let asked = (begin_approval call m).manager in
      ((approve p.request_id approved asked).0 ≡ ok (p.request_id, approved))
      × ((approve p.request_id again (approve p.request_id approved asked).1).0 ≡ err not_found)
approve_once call m p approved again u h =
    let accepted = begin_approval-eq-ok call m p h in
    let unique =
      subst IsUnique (sym (approvals-begin_approval call m p h))
        (insert-IsUnique call.request_id call.request_id m.approvals u) in
    rw accepted.same_id (
      let found =
        approve_found call.request_id call.request_id approved (begin_approval call m).manager
          unique accepted.recorded in
      (found.0, approve_missing call.request_id again _ found.1))

wait_yes :
    (p : PendingPairingApproval) (ending : Ending) (m : PairingManager)
    → ((wait p ending m).0 ≡ true) ↔ (ending ≡ answered true)
unfolding wait
wait_yes p (answered approved) m = (ap answered, λ e. ground arith)
wait_yes p ending m = (λ e. absurd (cc), λ e. absurd (cc))

-- A wait says yes only to an explicit yes, and afterwards the request can no longer be answered.
wait_ends :
    (p : PendingPairingApproval) (ending : Ending) (m : PairingManager) (late : Bool)
    → IsUnique m.approvals
    → (((wait p ending m).0 ≡ true) ↔ (ending ≡ answered true))
      × ((approve p.request_id late (wait p ending m).1).0 ≡ err not_found)
wait_ends p ending m late u = (
  wait_yes p ending m,
  approve_missing p.request_id late _ (
      unfold wait in
      ground (arith, lookup-remove p.request_id p.request_id m.approvals u, beq_refl p.request_id)),
)
