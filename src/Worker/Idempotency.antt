-- ===== src/Worker/Idempotency.antt =====
-- app/worker/idempotency.py, `InMemoryWorkerIdempotencyStore`: which tasks are in progress or done.
-- A time is a number; `now` is the time that `_prune` reads, `later` the one that the expiry is
-- counted from. The lock is left out: a method runs whole.
use fastapi.Prelude.{
  ℕ, String, ◌≡◌, ◌≤◌, ◌+◌, Option, none, some, Bool, true, false, arith, ltb, not, if◌then◌else◌,
  eq_iff, str_eq, is_some,
}
use fastapi.Prelude.Dict.{Dict, empty, put, remove, keep}

pub data TaskState : Type 0 where
  processing completed : TaskState

pub record StateRecord : Type 0 where
  pub state : TaskState
  pub expires_at : ℕ

abbrev pub Records : Type 0
Records = Dict StateRecord

abbrev pub prune : ℕ → Records → Records
prune now = keep (λ k r. ltb now r.expires_at)

abbrev pub start_record : ℕ → ℕ → String → Records → Option StateRecord → Bool × Records
start_record later ttl task_id records none =
    (true, put task_id (record { state = processing; expires_at = later + ttl }) records)
start_record later ttl task_id records (some _) = (false, records)

unfoldable pub start : ℕ → ℕ → ℕ → String → Records → Bool × Records
start now later ttl task_id records =
    let pruned = prune now records in start_record later ttl task_id pruned (pruned task_id)

unfoldable pub complete : ℕ → ℕ → String → Records → Records
complete now ttl task_id records =
    put task_id (record { state = completed; expires_at = now + ttl }) records

unfoldable pub release : String → Records → Records
release task_id records = remove task_id records

abbrev pub is_completed_state : Option StateRecord → Bool
is_completed_state none = false
is_completed_state (some r) = elim r.state [ processing ↦ false | completed ↦ true ]

unfoldable pub is_completed : ℕ → String → Records → Bool × Records
is_completed now task_id records =
    let pruned = prune now records in (is_completed_state (pruned task_id), pruned)

unfoldable pub clear : Records → Records
clear records = empty

-- What the store says of a task at a time: the state of its record, until that expires.
abbrev pub live_state : ℕ → Option StateRecord → Option TaskState
live_state now none = none
live_state now (some r) = if ltb now r.expires_at then some r.state else none

unfoldable pub live : ℕ → Records → String → Option TaskState
live now records task_id = live_state now (records task_id)

abbrev pub until : ℕ → ℕ → TaskState → Option TaskState
until now expires st = if ltb now expires then some st else none

abbrev pub is_live_completed : Option TaskState → Bool
is_live_completed none = false
is_live_completed (some processing) = false
is_live_completed (some completed) = true

-- `start` takes a task exactly if nothing is known of it, and then holds it until the time to live
-- is over. It changes what is known of no other task, now or later, and nothing if it refuses.
pub start_lem :
    (now later ttl t : ℕ) (task_id j : String) (records : Records)
    → now ≤ t
    → let (taken, records') = start now later ttl task_id records in
      (taken ≡ not (is_some (live now records task_id)))
      × (live t records' j ≡ (
          if taken
          then (if str_eq task_id j then until t (later + ttl) processing else live t records j)
          else live t records j))
unfolding start live
start_lem now later ttl t task_id j records h = (ground arith, ground (arith, eq_iff task_id j))

-- `complete` marks a task as completed until the time to live is over, `release` forgets it, and
-- `is_completed` answers whether it is so marked; none of them changes what is known of another task.
pub completion_lem :
    (now ttl t : ℕ) (task_id j : String) (records : Records)
    → now ≤ t
    → (live t (complete now ttl task_id records) j
        ≡ (if str_eq task_id j then until t (now + ttl) completed else live t records j))
      × (live t (release task_id records) j ≡ (if str_eq task_id j then none else live t records j))
      × ((is_completed now task_id records).0 ≡ is_live_completed (live now records task_id))
      × (live t (is_completed now task_id records).1 j ≡ live t records j)
unfolding complete release is_completed live
completion_lem now ttl t task_id j records h =
    (ground arith, ground arith, ground arith, ground arith)

-- What is not known at a time is not known later.
pub live_later :
    (now t : ℕ) (records : Records) (task_id : String)
    → now ≤ t
    → live now records task_id ≡ none
    → live t records task_id ≡ none
unfolding live
live_later now t records task_id h free = ground arith
