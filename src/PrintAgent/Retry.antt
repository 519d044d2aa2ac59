-- ===== src/PrintAgent/Retry.antt =====
-- retry_call of magazyn/services/print_agent_retry.py. The outcome of each call of `func`, and what
-- the stop event says after each, are arguments; times are whole ticks of the clock.
use retrievershop_suite.Prelude.{
  ℕ, zero, suc, ◌+◌, ◌-◌, ◌*◌, ◌^◌, Option, none, some, Bool, ◌||◌, leb, if◌then◌else◌,
}

-- What one call of `func` comes to: `failed` is one of `retry_exceptions`.
pub data Attempt {ℓ} (A : Type ℓ) : Type ℓ where
  returned : A → Attempt A
  shipment_expired failed raised : Attempt A

pub record Retry : Type 0 where
  pub max_attempts : ℕ
  pub base_delay : ℕ
  -- stop_event.is_set() and stop_event.wait(delay) after so many failed attempts
  pub is_set : ℕ → Bool
  pub wait : ℕ → Bool

-- How the loop ended: the outcome passed on, the calls of `func` and the metrics.
pub record Ended {ℓ} (A : Type ℓ) : Type ℓ where
  pub outcome : Attempt A
  pub calls : ℕ
  pub retry_metric : ℕ
  pub downtime_metric : ℕ

module _ {ℓ} {A : Type ℓ} (r : Retry) (func : ℕ → Attempt A) where
  -- The turn after a failed call: `again` is the rest of the loop.
  unfoldable pub after_failure : ℕ → ℕ → Option (Ended A) → Option (Ended A)
  after_failure attempts downtime again =
      let delay = r.base_delay * 2 ^ (attempts - 1) in
      if leb r.max_attempts attempts || r.is_set attempts
      then some (record {
        outcome = failed;
        calls = attempts;
        retry_metric = attempts - 1;
        downtime_metric = downtime;
      })
      else if r.wait attempts
      then some (record {
        outcome = failed;
        calls = attempts;
        retry_metric = attempts;
        downtime_metric = downtime + delay;
      })
      else again

  -- `while True`, with fuel; `attempts` calls have failed.
  unfoldable pub retry_loop : ℕ → ℕ → ℕ → Option (Ended A)
  unfolding after_failure
  retry_loop zero attempts downtime = none
  retry_loop (suc fuel) attempts downtime =
      let again = retry_loop fuel (suc attempts) (downtime + r.base_delay * 2 ^ attempts) in
      let passed : Attempt A → Option (Ended A) = λ o. some (record {
        outcome = o;
        calls = suc attempts;
        retry_metric = attempts;
        downtime_metric = downtime;
      }) in
      elim (func attempts) [
        | returned a ↦ passed (returned a)
        | shipment_expired ↦ passed shipment_expired
        | raised ↦ passed raised
        | failed ↦ after_failure (suc attempts) downtime again
      ]

  unfoldable pub retry_call : Option (Ended A)
  unfolding retry_loop
  retry_call = retry_loop (suc r.max_attempts) 0 0
