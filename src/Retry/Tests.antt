-- ===== src/Retry/Tests.antt =====
-- A call that returns at the second attempt.
use fastapi.Prelude.{ℕ, String, ◌≡◌, ◌≤◌, inl, false, [], ◌∷◌, arith, ◌==◌, if◌then◌else◌}
use fastapi.Retry.Call.{CallResult, value, error, RetryPolicy, retry_call}
use fastapi.Retry.Policies.{RequestError, http_error, is_retryable_http_error, is_one_of}
use fastapi.Retry.Attempts.{is_final, delays, retry_call_lem}

abbrev policy : RetryPolicy
policy = record {
  timeout_seconds = 5;
  max_attempts = 3;
  backoff_seconds = 1;
  max_backoff_seconds = 8;
  retry_on_statuses = 429 ∷ 503 ∷ [];
}

abbrev second_time : ℕ → CallResult RequestError String
second_time n = if n == 1 then error (http_error 503) else value "done"

retried :
    (j : ℕ)
    → 1 ≤ j
    → j ≤ 1
    → is_final second_time (is_retryable_http_error policy) policy (second_time j) ≡ false
unfolding is_retryable_http_error is_one_of
retried j from bound = ground (arith, from, bound)

retry_call_lem_example : retry_call second_time (is_retryable_http_error policy) policy ≡ record {
  result = value "done";
  calls = 2;
  sleeps = delays second_time (is_retryable_http_error policy) policy 1 1;
}
retry_call_lem_example =
    retry_call_lem second_time (is_retryable_http_error policy) policy 1 retried (omega arith)
      (inl (unfold is_retryable_http_error is_one_of in ground arith))
