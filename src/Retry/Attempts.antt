-- ===== src/Retry/Attempts.antt =====
-- `retry_call` against a description of it: the first call that ends the matter.
use fastapi.Prelude.{
  ℕ, zero, suc, ◌≡◌, ◌≤◌, ◌<◌, ◌+◌, ◌-◌, max, ap, ◌⊎◌, inl, inr, Bool, true, false, List, [], ◌∷◌,
  arith, if◌then◌else◌,
}
use fastapi.Retry.Call.{CallResult, value, error, RetryPolicy, delay_for, retry_from, retry_call}

module _ {E T : Type 0} (func : ℕ → CallResult E T) (is_retryable : E → Bool)
    (policy : RetryPolicy) where
  -- A call after which there is nothing to try again.
  abbrev pub is_final : CallResult E T → Bool
  is_final (value _) = true
  is_final (error e) = if is_retryable e then false else true

  -- The delays after the calls `from`, `from + 1`, ..., as many as `n`.
  unfoldable pub delays : ℕ → ℕ → List ℕ
  delays zero from = []
  delays (suc n) from = delay_for policy from ∷ delays n (from + 1)

  -- From an attempt on, where the `k` calls before the call `m` are errors to retry.
  retry_from_lem :
      (k left attempt m : ℕ)
      → attempt + k ≡ m
      → ((j : ℕ) → attempt ≤ j → j < m → is_final (func j) ≡ false)
      → k ≤ left
      → (is_final (func m) ≡ true) ⊎ (k ≡ left)
      → retry_from func is_retryable policy left attempt
        ≡ record { result = func m; calls = m; sleeps = delays k attempt }
  unfolding retry_from delays
  retry_from_lem zero zero attempt m e passed bound last =
      ap (λ n. record { result = func n; calls = n; sleeps = [] }) (omega (arith, e))
  retry_from_lem zero (suc left) attempt m e passed bound last = ground (arith, e, last)
  retry_from_lem (suc k) zero attempt m e passed bound last = absurd (omega (arith, bound))
  retry_from_lem (suc k) (suc left) attempt m e passed bound (inl last) =
      let ih =
        retry_from_lem k left (attempt + 1) m (omega (arith, e))
          (λ j from before. passed j (omega (arith, from)) before) (omega (arith, bound))
          (inl last) in
      ground (arith, ih, passed attempt (omega arith) (omega (arith, e)))
  retry_from_lem (suc k) (suc left) attempt m e passed bound (inr last) =
      let ih =
        retry_from_lem k left (attempt + 1) m (omega (arith, e))
          (λ j from before. passed j (omega (arith, from)) before) (omega (arith, bound))
          (inr (omega (arith, last))) in
      ground (arith, ih, passed attempt (omega arith) (omega (arith, e)))

  -- `retry_call` ends as the first call does that returns or raises an error not to be retried, or as
  -- the last call that the policy allows, one at least. It makes the calls up to that one and no
  -- other, and sleeps between them for the delays of the policy. `n` is how many calls come before.
  pub retry_call_lem :
      (n : ℕ)
      → ((j : ℕ) → 1 ≤ j → j ≤ n → is_final (func j) ≡ false)
      → n < max policy.max_attempts 1
      → (is_final (func (n + 1)) ≡ true) ⊎ (n + 1 ≡ max policy.max_attempts 1)
      → retry_call func is_retryable policy
        ≡ record { result = func (n + 1); calls = n + 1; sleeps = delays n 1 }
  unfolding retry_call
  retry_call_lem n passed bound (inl last) =
      retry_from_lem n (max policy.max_attempts 1 - 1) 1 (n + 1) (omega arith)
        (λ j from before. passed j from (omega (arith, before))) (omega (arith, bound)) (inl last)
  retry_call_lem n passed bound (inr last) =
      retry_from_lem n (max policy.max_attempts 1 - 1) 1 (n + 1) (omega arith)
        (λ j from before. passed j from (omega (arith, before))) (omega (arith, bound))
        (inr (omega (arith, last)))
