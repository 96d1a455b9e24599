-- ===== src/Pairing/Attempts.antt =====
-- The life of a pairing code: one at a time, for one use, with a budget of wrong attempts.
use shelly.Prelude.{
  ℕ, suc, ◌+◌, ◌≤◌, ◌<◌, ◌≡◌, ◌≢◌, refl, ◌∙◌, Bool, false, Option, none, some, List, [], ◌∷◌, Text,
  arith, ltb, if◌then◌else◌, length, All, Option-cases, Bool-cases, inl, inr, text_eq, err,
}
use shelly.Prelude.Dict.{
  Dict, IsUnique, lookup, insert, remove, retain_mut, lookup-remove, lookup-retain_mut, is_some,
  beq_refl, remove-IsUnique, retain_mut-IsUnique, length-remove-le, length-retain_mut-le,
}
use shelly.Pairing.{
  PendingPairCode, PairingManager, Call, Ending, PendingPairingApproval, max_code_attempts, new,
  begin_pairing, charge, hit, begin_approval, wait, approve, invalid_or_used,
}

-- Every active code has attempts left.
abbrev pub HasBudget : Dict Text PendingPairCode → Type 0
HasBudget [] = Unit {0}
HasBudget ((code, pending) ∷ codes) = (pending.attempts < max_code_attempts) × HasBudget codes

-- What holds of the codes at all times: there is at most one, and it has attempts left.
pub record IsValid (codes : Dict Text PendingPairCode) : Type 0 where
  pub single : length codes ≤ 1
  pub unique : IsUnique codes
  pub budget : HasBudget codes

-- The steps of the manager.
pub data Step : PairingManager → PairingManager → Type 0 where
  begins :
      (now_prune now : ℕ) (code : Text) (tx : ℕ) (m : PairingManager)
      → Step m (begin_pairing now_prune now code tx m).0
  asks : (call : Call) (m : PairingManager) → Step m (begin_approval call m).manager
  waits :
      (pending : PendingPairingApproval) (ending : Ending) (m : PairingManager)
      → Step m (wait pending ending m).1
  approves : (id : ℕ) (approved : Bool) (m : PairingManager) → Step m (approve id approved m).1

pub data Reach : PairingManager → Type 0 where
  start : Reach new
  next : {m n : PairingManager} → Reach m → Step m n → Reach n

remove-HasBudget :
    (code : Text) (codes : Dict Text PendingPairCode)
    → HasBudget codes
    → HasBudget (remove code codes)
unfolding remove
remove-HasBudget code [] h = tt
remove-HasBudget code ((k, p) ∷ codes) h = ground (arith, remove-HasBudget code codes h.1)

charge-budget :
    (now : ℕ) (pending : PendingPairCode) {p : PendingPairCode}
    → charge now pending ≡ some p
    → p.attempts < max_code_attempts
unfolding charge
charge-budget now pending h = ground arith

charge-HasBudget :
    (now : ℕ) (codes : Dict Text PendingPairCode) → HasBudget (retain_mut (charge now) codes)
unfolding retain_mut
charge-HasBudget now [] = tt
charge-HasBudget now ((k, p) ∷ codes) = elim (Option-cases (charge now p)) [
  | inl gone ↦ rw (gone, retain_mut) (charge-HasBudget now codes)
  | inr (q, kept) ↦ rw (kept, retain_mut) (charge-budget now p kept, charge-HasBudget now codes)
]

codes-hit :
    (call : Call) (pending : PendingPairCode) (m : PairingManager)
    → (hit call pending m).manager.codes ≡ m.codes
unfolding hit
codes-hit call pending m = ground arith

codes-approve :
    (id : ℕ) (approved : Bool) (m : PairingManager) → (approve id approved m).1.codes ≡ m.codes
unfolding approve
codes-approve id approved m = ground arith

codes-wait :
    (pending : PendingPairingApproval) (ending : Ending) (m : PairingManager)
    → (wait pending ending m).1.codes ≡ m.codes
unfolding wait
codes-wait pending ending m = refl

-- The codes behind `begin_approval`: the code asked for is taken out, or the active ones are charged.
pub codes-begin_approval :
    (call : Call) (m : PairingManager)
    → (begin_approval call m).manager.codes ≡ (
        if is_some (lookup call.code m.codes)
        then remove call.code m.codes
        else retain_mut (charge call.now) m.codes)
unfolding begin_approval
codes-begin_approval call m = elim (Option-cases (lookup call.code m.codes)) [
  | inl e ↦ rw (e, begin_approval)
  | inr (pending, e) ↦ rw (e, begin_approval) (codes-hit call pending _)
]

asks-IsValid :
    (call : Call) (m : PairingManager)
    → IsValid m.codes
    → IsValid (begin_approval call m).manager.codes
asks-IsValid call m v =
    rw (codes-begin_approval call m) (elim (Bool-cases (is_some (lookup call.code m.codes))) [
      | inl hits ↦ rw hits (record {
        single = omega (arith, length-remove-le call.code m.codes, v.single);
        unique = remove-IsUnique call.code m.codes v.unique;
        budget = remove-HasBudget call.code m.codes v.budget;
      })
      | inr misses ↦ rw misses (record {
        single = omega (arith, length-retain_mut-le (charge call.now) m.codes, v.single);
        unique = retain_mut-IsUnique (charge call.now) m.codes v.unique;
        budget = charge-HasBudget call.now m.codes;
      })
    ])

Step-IsValid : {m n : PairingManager} → Step m n → IsValid m.codes → IsValid n.codes
Step-IsValid (begins now_prune now code tx m) v =
    unfold begin_pairing insert lookup in
    record { single = omega arith; unique = (refl, tt); budget = (omega arith, tt) }
Step-IsValid (asks call m) v = asks-IsValid call m v
Step-IsValid (waits pending ending m) v = unfold wait in v
Step-IsValid (approves id approved m) v = rw (codes-approve id approved m) v

-- After any history there is at most one active code, and it has attempts left.
pub Reach-IsValid : {m : PairingManager} → Reach m → IsValid m.codes
Reach-IsValid start = unfold new in record { single = omega arith; unique = tt; budget = tt }
Reach-IsValid (next r s) = Step-IsValid s (Reach-IsValid r)

-- The steps other than a new pairing command.
pub data Later (m : PairingManager) : PairingManager → Type 0 where
  here : Later m m
  asks : {n : PairingManager} (call : Call) → Later m n → Later m (begin_approval call n).manager
  waits :
      {n : PairingManager} (pending : PendingPairingApproval) (ending : Ending)
      → Later m n
      → Later m (wait pending ending n).1
  approves :
      {n : PairingManager} (id : ℕ) (approved : Bool)
      → Later m n
      → Later m (approve id approved n).1

gone-begin_approval :
    (code : Text) (call : Call) (m : PairingManager)
    → IsUnique m.codes
    → lookup code m.codes ≡ none
    → lookup code (begin_approval call m).manager.codes ≡ none
gone-begin_approval code call m u gone = rw (codes-begin_approval call m) (
    ground (
      arith,
      lookup-remove call.code code m.codes u,
      lookup-retain_mut (charge call.now) code m.codes u,
    ))

Later-gone :
    (code : Text) {m n : PairingManager}
    → Later m n
    → IsValid m.codes
    → lookup code m.codes ≡ none
    → IsValid n.codes × (lookup code n.codes ≡ none)
Later-gone code here v gone = (v, gone)
Later-gone code (asks {n} call later) v gone =
    let (v', gone') = Later-gone code later v gone in
    (asks-IsValid call n v', gone-begin_approval code call n v'.unique gone')
Later-gone code (waits {n} pending ending later) v gone =
    rw (codes-wait pending ending n) (Later-gone code later v gone)
Later-gone code (approves {n} id approved later) v gone =
    rw (codes-approve id approved n) (Later-gone code later v gone)

used_up :
    (call : Call) (m : PairingManager)
    → IsUnique m.codes
    → lookup call.code (begin_approval call m).manager.codes ≡ none
used_up call m u = rw (codes-begin_approval call m) (
    ground (
      arith,
      beq_refl {K = Text} call.code,
      lookup-remove call.code call.code m.codes u,
      lookup-retain_mut (charge call.now) call.code m.codes u,
    ))

refused :
    (call : Call) (m : PairingManager)
    → lookup call.code m.codes ≡ none
    → (begin_approval call m).answer ≡ err invalid_or_used
unfolding begin_approval
refused call m e = rw (e, begin_approval)

-- A code is good for one use: whatever came of the first request with it, every later request with
-- it is refused until a new pairing command is started.
pub begin_approval_once :
    (first again : Call) {m n : PairingManager}
    → Reach m
    → Later (begin_approval first m).manager n
    → again.code ≡ first.code
    → (begin_approval again n).answer ≡ err invalid_or_used
begin_approval_once first again {m} {n} r later same =
    let v = Reach-IsValid r in
    refused again n
      (rw same (Later-gone first.code later (asks-IsValid first m v) (used_up first m v.unique)).1)

-- Requests one after the other.
unfoldable pub ask_all : List Call → PairingManager → PairingManager
ask_all [] m = m
ask_all (call ∷ calls) m = ask_all calls (begin_approval call m).manager

ask_all-gone :
    (code : Text) (calls : List Call) (m : PairingManager)
    → IsValid m.codes
    → lookup code m.codes ≡ none
    → lookup code (ask_all calls m).codes ≡ none
unfolding ask_all
ask_all-gone code [] m v gone = gone
ask_all-gone code (call ∷ calls) m v gone =
    ask_all-gone code calls (begin_approval call m).manager (asks-IsValid call m v)
      (gone-begin_approval code call m v.unique gone)

only_one :
    (code other : Text) (codes : Dict Text PendingPairCode) {pending : PendingPairCode}
    → length codes ≤ 1
    → lookup code codes ≡ some pending
    → other ≢ code
    → lookup other codes ≡ none
unfolding lookup
only_one code other [] h e d = absurd (cc)
only_one code other ((k, p) ∷ []) h e d =
    ground (arith, text_eq.beq_iff k code, text_eq.beq_iff k other)
only_one code other (x ∷ y ∷ codes) h e d = absurd (omega arith)

budget_left :
    (code : Text) (codes : Dict Text PendingPairCode) (pending : PendingPairCode)
    → HasBudget codes
    → lookup code codes ≡ some pending
    → pending.attempts < max_code_attempts
unfolding lookup
budget_left code [] pending h e = absurd (cc)
budget_left code ((k, p) ∷ codes) pending h e = ground (arith, budget_left code codes pending h.1)

-- The pending code after so many wrong attempts.
abbrev pub charged : PendingPairCode → ℕ → Option PendingPairCode
charged pending n =
    if ltb (pending.attempts + n) max_code_attempts
    then some (record pending { attempts = pending.attempts + n })
    else none

charge-charged :
    (now : ℕ) (pending : PendingPairCode)
    → now < pending.expires_at
    → pending.attempts < max_code_attempts
    → charge now pending ≡ charged pending 1
unfolding charge
charge-charged now pending early left = ground arith

wrong_attempt :
    (code : Text) (pending : PendingPairCode) (call : Call) (m : PairingManager)
    → IsValid m.codes
    → lookup code m.codes ≡ some pending
    → call.code ≢ code
    → call.now < pending.expires_at
    → lookup code (begin_approval call m).manager.codes ≡ charged pending 1
wrong_attempt code pending call m v e wrong early =
    rw (codes-begin_approval call m, only_one code call.code m.codes v.single e wrong)
      (lookup-retain_mut (charge call.now) code m.codes v.unique
        ∙ rw e
            (charge-charged call.now pending early (budget_left code m.codes pending v.budget e)))

charged_none :
    (pending : PendingPairCode)
    → pending.attempts < max_code_attempts
    → some pending ≡ charged pending 0
charged_none pending h = ground arith

charged_again :
    (pending : PendingPairCode) (n : ℕ)
    → charged (record pending { attempts = pending.attempts + 1 }) n ≡ charged pending (suc n)
charged_again pending n = ground arith

charged_out :
    (pending : PendingPairCode) (n : ℕ)
    → ltb (pending.attempts + 1) max_code_attempts ≡ false
    → none ≡ charged pending (suc n)
charged_out pending n h = ground arith

-- Wrong attempts before the deadline are counted against the active code: it stays usable, with its
-- deadline and its channel, while they are fewer than five in all, and then it is gone.
pub wrong_attempts :
    (code : Text) (pending : PendingPairCode) (calls : List Call) (m : PairingManager)
    → IsValid m.codes
    → lookup code m.codes ≡ some pending
    → All (λ call. (call.code ≢ code) × (call.now < pending.expires_at)) calls
    → lookup code (ask_all calls m).codes ≡ charged pending (length calls)
unfolding ask_all
wrong_attempts code pending [] m v e wrong =
    e ∙ charged_none pending (budget_left code m.codes pending v.budget e)
wrong_attempts code pending (call ∷ calls) m v e ((wrong, early), more) =
    let now = wrong_attempt code pending call m v e wrong early in
    let v' = asks-IsValid call m v in
    elim (Bool-cases (ltb (pending.attempts + 1) max_code_attempts)) [
      | inl left ↦
          wrong_attempts code (record pending { attempts = pending.attempts + 1 }) calls
            (begin_approval call m).manager v' (now ∙ rw left) more
          ∙ charged_again pending (length calls)
      | inr spent ↦
          ask_all-gone code calls (begin_approval call m).manager v' (now ∙ rw spent)
          ∙ charged_out pending (length calls) spent
    ]
