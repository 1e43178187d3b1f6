-- ===== src/RateLimit/Memory.antt =====
-- app/core/rate_limit.py, `InMemoryFixedWindowRateLimiter`. A time is a number of microseconds of
-- the monotonic clock. The lock is left out: a method runs whole.
use Prim.Native.Nat.{◌/◌}
use fastapi.Prelude.{
  ℕ, String, ◌+◌, ◌-◌, max, Option, none, some, Bool, true, false, List, [], ◌∷◌, ◌++◌, leb, length,
  if◌then◌else◌,
}
use fastapi.Prelude.Dict.{Dict, empty, put, remove}
use fastapi.Db.{seconds}

pub record RateLimitDecision : Type 0 where
  pub allowed : Bool
  pub retry_after_seconds : ℕ

abbrev pub Attempts : Type 0
Attempts = Dict (List ℕ)

-- The `defaultdict` has an empty queue for a missing key.
abbrev pub queue_of : Option (List ℕ) → List ℕ
queue_of none = []
queue_of (some q) = q

-- The loop of `_prune`, `attempts[0] <= now - window_seconds`.
unfoldable pub drop_old : ℕ → ℕ → List ℕ → List ℕ
drop_old now window [] = []
drop_old now window (t ∷ ts) =
    let rest = drop_old now window ts in if leb (t + seconds window) now then rest else t ∷ ts

-- `self._attempts` after `_prune`: an empty queue is popped.
abbrev pub keep_queue : String → List ℕ → Attempts → Attempts
keep_queue key [] d = remove key d
keep_queue key (t ∷ ts) d = put key (t ∷ ts) d

abbrev pub pruned : String → ℕ → ℕ → Attempts → List ℕ
pruned key now window d = drop_old now window (queue_of (d key))

abbrev pub retry_after : ℕ → ℕ → ℕ → ℕ
retry_after now window first = max 1 (((seconds window + first) - now) / 1_000_000)

-- The decision on the pruned queue, `none` for the `IndexError` of `attempts[0]`.
abbrev pub refusal : ℕ → ℕ → List ℕ → Option RateLimitDecision
refusal now window [] = none
refusal now window (t ∷ ts) =
    some (record { allowed = false; retry_after_seconds = retry_after now window t })

unfoldable pub decide : ℕ → ℕ → ℕ → List ℕ → Option RateLimitDecision
decide now max_attempts window attempts =
    if leb max_attempts (length attempts)
    then refusal now window attempts
    else some (record { allowed = true; retry_after_seconds = 0 })

unfoldable pub check : String → ℕ → ℕ → ℕ → Attempts → Option RateLimitDecision × Attempts
check key max_attempts window now d =
    let attempts = pruned key now window d in
    (decide now max_attempts window attempts, keep_queue key attempts d)

unfoldable pub hit : String → ℕ → ℕ → ℕ → Attempts → Option RateLimitDecision × Attempts
hit key max_attempts window now d =
    let attempts = pruned key now window d ++ now ∷ [] in
    (decide now max_attempts window attempts, put key attempts d)

unfoldable pub reset : String → Attempts → Attempts
reset key d = remove key d

unfoldable pub clear : Attempts → Attempts
clear d = empty
