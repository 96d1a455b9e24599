-- ===== src/Push/Budget.antt =====
-- The retries of a request end within their budget.
use shelly.Prelude.{
  ℕ, zero, suc, ◌+◌, ◌-◌, ◌*◌, ◌≤◌, ◌<◌, ◌≡◌, refl, true, some, arith, ltb, leb, Bool-cases,
  Option-cases, inl, inr, Result, ok, err,
}
use shelly.Push.{RelayError, budget_exceeded}
use shelly.Push.Retry.{
  World, Round, returns, sleeps, or_budget, delayed, after_attempt, round, next_round, retry_until,
  retry_relay_operation, is_retryable_relay_error,
}

-- The clock does not go back, a sleep takes its time, and the back-off gives no delay below its
-- minimum.
pub record IsTimed {W : Type 0} (world : World W) (min_delay : ℕ) : Type 0 where
  pub attempt : (deadline : ℕ) (w : W) → world.now w ≤ world.now (world.attempt deadline w).1
  pub next_delay : (w : W) → world.now w ≤ world.now (world.next_delay w).1
  pub sleep : (delay : ℕ) (w : W) → world.now w + delay ≤ world.now (world.sleep delay w)
  pub least : (w : W) (delay : ℕ) → (world.next_delay w).0 ≡ some delay → min_delay ≤ delay

module _ {W : Type 0} (world : World W) (min_delay : ℕ) (timed : IsTimed world min_delay) where
  -- What follows a round: an answer, or a delay from the back-off, with the clock not behind.
  abbrev IsRound : W → Round × W → Type 0
  IsRound w (returns answer, v) = world.now w ≤ world.now v
  IsRound w (sleeps delay, v) = (min_delay ≤ delay) × (world.now w ≤ world.now v)

  delayed-IsRound :
      (error : RelayError) (remaining : ℕ) (w : W)
      → IsRound w (delayed error remaining (world.next_delay w).0, (world.next_delay w).1)
  unfolding delayed
  delayed-IsRound error remaining w = elim (Option-cases (world.next_delay w).0) [
    | inl e ↦ rw e (timed.next_delay w)
    | inr (delay, e) ↦ elim (Bool-cases (leb remaining delay)) [
      | inl f ↦ rw (e, f) (timed.next_delay w)
      | inr f ↦ rw (e, f) (timed.least w delay e, timed.next_delay w)
    ]
  ]

  after_attempt-IsRound :
      (remaining : ℕ) (answer : Result RelayError (Unit {0})) (w : W)
      → IsRound w (after_attempt world remaining answer w)
  unfolding after_attempt
  after_attempt-IsRound remaining (ok u) w = omega arith
  after_attempt-IsRound remaining (err error) w =
      elim (Bool-cases (is_retryable_relay_error error)) [
        | inl e ↦ rw e (delayed-IsRound error remaining w)
        | inr e ↦ rw e (omega arith)
      ]

  round-IsRound : (deadline : ℕ) (w : W) → IsRound w (round world deadline w)
  unfolding round
  round-IsRound deadline w = elim (Bool-cases (ltb deadline (world.now w))) [
    | inl e ↦ rw e (omega arith)
    | inr e ↦ rw e (
        later (timed.attempt deadline w)
          (after_attempt world (deadline - world.now w) (or_budget (world.attempt deadline w).0)
            (world.attempt deadline w).1)
          (after_attempt-IsRound (deadline - world.now w) (or_budget (world.attempt deadline w).0)
            (world.attempt deadline w).1))
  ]
    where
      later : {u v : W} → world.now u ≤ world.now v → (r : Round × W) → IsRound v r → IsRound u r
      later h (returns answer, v) k = omega arith
      later h (sleeps delay, v) k = (k.0, omega (arith, k.1))

  next_round_ends :
      (fuel deadline : ℕ) (w : W) (r : Round × W)
      → deadline < world.now w + suc fuel * min_delay
      → IsRound w r
      → ((v : W)
          → deadline < world.now v + fuel * min_delay
          → (answer : Result RelayError (Unit {0})) × ((retry_until world (suc fuel) deadline v).0
              ≡ some answer))
      → (answer : Result RelayError (Unit {0})) × ((next_round world
            (retry_until world (suc fuel) deadline)
            r).0
          ≡ some answer)
  next_round_ends fuel deadline w (returns answer, v) room h ends = (answer, refl)
  next_round_ends fuel deadline w (sleeps delay, v) room h ends =
      ends (world.sleep delay v) (omega (arith, h.0, h.1, timed.sleep delay v, room))

  -- The loop returns within the rounds that its deadline leaves room for.
  retry_until_ends :
      (fuel deadline : ℕ) (w : W)
      → deadline < world.now w + fuel * min_delay
      → (answer : Result RelayError (Unit {0})) × ((retry_until world (suc fuel) deadline w).0
          ≡ some answer)
  unfolding retry_until round
  retry_until_ends zero deadline w room =
      let late : ltb deadline (world.now w) ≡ true = ground arith in
      (err budget_exceeded, rw late refl)
  retry_until_ends (suc fuel) deadline w room =
      next_round_ends fuel deadline w (round world deadline w) room (round-IsRound deadline w)
        (λ v more. retry_until_ends fuel deadline v more)

  -- The retries of a request return an answer: the rounds are at most one more than the minimum delay
  -- fits into the budget, and one more for the last look at the clock. The clock does not go back, a
  -- sleep lasts as long as it is asked to, and the back-off gives no delay below the minimum.
  pub retry_relay_operation_ends :
      (fuel total_delay : ℕ) (w : W)
      → total_delay < fuel * min_delay
      → (answer : Result RelayError (Unit {0})) × ((retry_relay_operation world
            (suc fuel)
            total_delay
            w).0
          ≡ some answer)
  unfolding retry_relay_operation
  retry_relay_operation_ends fuel total_delay w room =
      retry_until_ends fuel (world.now w + total_delay) w (omega (arith, room))
