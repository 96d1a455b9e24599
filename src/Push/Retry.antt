-- ===== src/Push/Retry.antt =====
-- crates/daemon/src/push.rs: `retry_relay_operation`. The operation, the clock, the delays of the
-- back-off and the sleep are a parameter over the state of the world.
use shelly.Prelude.{
  ℕ, zero, suc, ◌+◌, ◌-◌, ◌*◌, Bool, true, false, ◌&&◌, ◌||◌, ◌==◌, Option, none, some, ltb, leb,
  not, if◌then◌else◌, Result, ok, err,
}
use shelly.Push.{RelayError, http, connect, timed_out, budget_exceeded}

abbrev pub relay_retry_min_delay : ℕ
relay_retry_min_delay = 1000

abbrev pub relay_retry_total_delay : ℕ
relay_retry_total_delay = 60 * 1000

-- `RelayHttpError::is_retryable`
unfoldable pub is_retryable : ℕ → Bool
is_retryable status = (leb 500 status && leb status 599) || status == 408 || status == 429

unfoldable pub is_retryable_relay_error : RelayError → Bool
unfolding is_retryable
is_retryable_relay_error (http status) = is_retryable status
is_retryable_relay_error connect = true
is_retryable_relay_error timed_out = true
is_retryable_relay_error _ = false

-- `attempt deadline` is the operation under `timeout_at`: it answers nothing when the deadline passes
-- first. `next_delay` is the iterator of the back-off. Times are in milliseconds.
pub record World (W : Type 0) : Type 0 where
  pub now : W → ℕ
  pub attempt : ℕ → W → Option (Result RelayError (Unit {0})) × W
  pub next_delay : W → Option ℕ × W
  pub sleep : ℕ → W → W

abbrev pub or_budget : Option (Result RelayError (Unit {0})) → Result RelayError (Unit {0})
or_budget none = err budget_exceeded
or_budget (some answer) = answer

-- What a round decides: the answer, or the delay before the next round.
pub data Round : Type 0 where
  returns : Result RelayError (Unit {0}) → Round
  sleeps : ℕ → Round

-- Over the delay that the back-off gives, if there is one.
unfoldable pub delayed : RelayError → ℕ → Option ℕ → Round
delayed error remaining none = returns (err error)
delayed error remaining (some delay) =
    if leb remaining delay then returns (err error) else sleeps delay

module _ {W : Type 0} (world : World W) where
  unfoldable pub after_attempt : ℕ → Result RelayError (Unit {0}) → W → Round × W
  unfolding is_retryable_relay_error delayed
  after_attempt remaining (ok u) w = (returns (ok u), w)
  after_attempt remaining (err error) w =
      if not (is_retryable_relay_error error)
      then (returns (err error), w)
      else (delayed error remaining (world.next_delay w).0, (world.next_delay w).1)

  unfoldable pub round : ℕ → W → Round × W
  unfolding after_attempt
  round deadline w =
      if ltb deadline (world.now w)
      then (returns (err budget_exceeded), w)
      else after_attempt (deadline - world.now w) (or_budget (world.attempt deadline w).0)
          (world.attempt deadline w).1

  abbrev pub next_round :
      (W → Option (Result RelayError (Unit {0})) × W)
      → Round × W
      → Option (Result RelayError (Unit {0})) × W
  next_round again (returns answer, w) = (some answer, w)
  next_round again (sleeps delay, w) = again (world.sleep delay w)

  -- The loop, for `fuel` rounds at most.
  unfoldable pub retry_until : ℕ → ℕ → W → Option (Result RelayError (Unit {0})) × W
  unfolding round
  retry_until zero deadline w = (none, w)
  retry_until (suc fuel) deadline w = next_round (retry_until fuel deadline) (round deadline w)

  unfoldable pub retry_relay_operation : ℕ → ℕ → W → Option (Result RelayError (Unit {0})) × W
  unfolding retry_until
  retry_relay_operation fuel total_delay w = retry_until fuel (world.now w + total_delay) w
