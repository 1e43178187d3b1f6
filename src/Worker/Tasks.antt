-- ===== src/Worker/Tasks.antt =====
-- app/worker/tasks.py and schemas.py: envelopes, the registry and the retry policies.
use fastapi.Prelude.{
  ℕ, String, ◌*◌, ◌^◌, min, Bool, true, false, List, [], ◌∷◌, str_eq, if◌then◌else◌,
}

-- `payload` stands for the JSON object, which the envelope carries unread.
pub record TaskEnvelope (Payload : Type 0) : Type 0 where
  pub task : String
  pub payload : Payload
  pub task_id : String

pub record TaskRetryPolicy : Type 0 where
  pub max_retries : ℕ
  pub base_delay_ms : ℕ
  pub max_delay_ms : ℕ

abbrev pub policy_of : ℕ → ℕ → ℕ → TaskRetryPolicy
policy_of r b m = record { max_retries = r; base_delay_ms = b; max_delay_ms = m }

abbrev pub default_task_retry_policy : TaskRetryPolicy
default_task_retry_policy = policy_of 3 30_000 300_000

abbrev pub task_retry_policies : List (String × TaskRetryPolicy)
task_retry_policies =
    ("user.registered", policy_of 2 5_000 30_000)
    ∷ ("email.send_welcome", policy_of 5 30_000 600_000)
    ∷ ("webhook.user_registered", policy_of 6 60_000 900_000)
    ∷ ("email.send_password_reset", policy_of 5 30_000 600_000)
    ∷ ("email.send_verification", policy_of 5 30_000 600_000)
    ∷ ("webhook.worker_failure_alert", policy_of 8 60_000 900_000)
    ∷ []

-- `policies.get(task_name, default)`
unfoldable pub policy_for :
    List (String × TaskRetryPolicy) → TaskRetryPolicy → String → TaskRetryPolicy
policy_for [] default task_name = default
policy_for ((k, p) ∷ rest) default task_name =
    let later = policy_for rest default task_name in if str_eq k task_name then p else later

unfoldable pub get_task_retry_policy : String → TaskRetryPolicy
unfolding policy_for
get_task_retry_policy = policy_for task_retry_policies default_task_retry_policy

-- The names under `@register_task`, which are those of `parse_task_payload`.
abbrev pub task_registry : List String
task_registry =
    "user.registered" ∷ "email.send_welcome" ∷ "webhook.user_registered"
    ∷ "email.send_password_reset" ∷ "email.send_verification" ∷ "webhook.worker_failure_alert" ∷ []

unfoldable pub is_registered : List String → String → Bool
is_registered [] name = false
is_registered (k ∷ ks) name =
    let later = is_registered ks name in if str_eq k name then true else later

-- The pydantic models check a payload, and the handlers call the email and webhook services: both
-- are parameters. `true`: the call returns.
module _ {Payload : Type 0} (validates handles : String → Payload → Bool) where
  -- `true` if `dispatch_envelope` returns.
  unfoldable pub dispatch_envelope : TaskEnvelope Payload → Bool
  dispatch_envelope envelope =
      if is_registered task_registry envelope.task
      then if validates envelope.task envelope.payload
        then handles envelope.task envelope.payload
        else false
      else false

-- The delay of a message that has failed `n` times before, in milliseconds.
unfoldable pub backoff_ms : TaskRetryPolicy → ℕ → ℕ
backoff_ms p n = min (p.base_delay_ms * 2 ^ n) p.max_delay_ms
