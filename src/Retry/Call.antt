-- ===== src/Retry/Call.antt =====
-- app/core/resilience.py, `retry_call`. `func n` is how the n-th call of the function ends, counted
-- from 1. Numbers of seconds are counted in a unit that keeps them whole.
use fastapi.Prelude.{ℕ, zero, suc, ◌+◌, ◌-◌, ◌*◌, ◌^◌, min, max, Bool, List, [], ◌∷◌, if◌then◌else◌}

pub data CallResult (E T : Type 0) : Type 0 where
  value : T → CallResult E T
  error : E → CallResult E T

pub record RetryPolicy : Type 0 where
  pub timeout_seconds : ℕ
  pub max_attempts : ℕ
  pub backoff_seconds : ℕ
  pub max_backoff_seconds : ℕ
  pub retry_on_statuses : List ℕ

-- The delay of `_sleep_for_attempt`.
unfoldable pub delay_for : RetryPolicy → ℕ → ℕ
delay_for policy attempt =
    min (policy.backoff_seconds * 2 ^ max (attempt - 1) 0) policy.max_backoff_seconds

-- What a `retry_call` did: how it ended, the calls it made, and the delays between them.
pub record Retried (E T : Type 0) : Type 0 where
  pub result : CallResult E T
  pub calls : ℕ
  pub sleeps : List ℕ

module _ {E T : Type 0} (func : ℕ → CallResult E T) (is_retryable : E → Bool)
    (policy : RetryPolicy) where
  -- The `except` block of an attempt, where `rest` is what the attempts after it do.
  abbrev pub after_error : ℕ → E → Retried E T → Retried E T
  after_error attempt e rest =
      if is_retryable e
      then record rest { sleeps = delay_for policy attempt ∷ rest.sleeps }
      else record { result = error e; calls = attempt; sleeps = [] }

  -- The loop from an attempt on, with the number of attempts after it.
  unfoldable pub retry_from : ℕ → ℕ → Retried E T
  retry_from zero attempt = record { result = func attempt; calls = attempt; sleeps = [] }
  retry_from (suc left) attempt =
      let rest = retry_from left (attempt + 1) in
      elim (func attempt) [
        | value v ↦ record { result = value v; calls = attempt; sleeps = [] }
        | error e ↦ after_error attempt e rest
      ]

  unfoldable pub retry_call : Retried E T
  retry_call = retry_from (max policy.max_attempts 1 - 1) 1
