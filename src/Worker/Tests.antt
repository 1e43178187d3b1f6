-- ===== src/Worker/Tests.antt =====
-- A worker on concrete messages, and one instance of each theorem on deliveries.
use fastapi.Prelude.{
  ◌≡◌, ◌+◌, refl, none, some, Bool, true, false, not, [], arith, str_eq, is_some, if◌then◌else◌,
  length,
}
use fastapi.Prelude.Dict.{empty, put}
use fastapi.Exec.{returned}
use fastapi.Worker.Idempotency.{
  Records, processing, completed, start, complete, release, is_completed, live, until,
  is_live_completed, start_lem, completion_lem,
}
use fastapi.Worker.Tasks.{TaskEnvelope, dispatch_envelope, is_registered}
use fastapi.Worker.Steps.{after_failure}
use fastapi.Worker.Runner.{
  acked, observed, timed, ran, Worker, Environment, absent, count, extract_retry_count,
  handle_delivery, ◌▹◌,
}
use fastapi.Worker.Deliveries.{delivery_succeeds, delivery_fails}
use fastapi.Worker.Duplicates.{skipped, duplicate_skipped}

abbrev welcome : TaskEnvelope Bool
welcome = record { task = "email.send_welcome"; payload = true; task_id = "t1" }

-- The payload says whether its handler returns.
abbrev broken : TaskEnvelope Bool
broken = record welcome { payload = false }

-- The time is the number of effects, every call returns, and a body is its envelope.
abbrev env : Environment Bool (TaskEnvelope Bool)
env = record {
  settings = record {
    requeue_on_failure = false;
    idempotency_enabled = true;
    idempotency_ttl = 100;
  };
  answers = λ l e. true;
  time_at = length;
  parse = some;
  validates = λ name payload. true;
  handles = λ name payload. payload;
}

abbrev idle : Worker Bool
idle = record { records = empty; log = [] }

abbrev busy : Records
busy = put "t1" (record { state = processing; expires_at = 50 }) empty

start_lem_example :
    let (taken, records') = start 1 2 100 "t1" busy in
    (taken ≡ not (is_some (live 1 busy "t1")))
    × (live 5 records' "t1" ≡ (
        if taken
        then (if str_eq "t1" "t1" then until 5 (2 + 100) processing else live 5 busy "t1")
        else live 5 busy "t1"))
start_lem_example = start_lem 1 2 100 5 "t1" "t1" busy (omega arith)

completion_lem_example :
    (live 5 (complete 1 100 "t1" busy) "t1"
      ≡ (if str_eq "t1" "t1" then until 5 (1 + 100) completed else live 5 busy "t1"))
    × (live 5 (release "t1" busy) "t1" ≡ (if str_eq "t1" "t1" then none else live 5 busy "t1"))
    × ((is_completed 1 "t1" busy).0 ≡ is_live_completed (live 1 busy "t1"))
    × (live 5 (is_completed 1 "t1" busy).1 "t1" ≡ live 5 busy "t1")
completion_lem_example = completion_lem 1 100 5 "t1" "t1" busy (omega arith)

nothing_known : live (env.time_at idle.log) idle.records "t1" ≡ none
unfolding live
nothing_known = refl

welcome_done : dispatch_envelope env.validates env.handles welcome ≡ true
unfolding dispatch_envelope is_registered
welcome_done = refl

broken_raises : dispatch_envelope env.validates env.handles broken ≡ false
unfolding dispatch_envelope is_registered
broken_raises = refl

delivery_succeeds_example :
    let log = idle.log ▹ timed ▹ timed ▹ timed ▹ ran welcome true in
    let w' = (handle_delivery env absent welcome idle).1 in
    ((handle_delivery env absent welcome idle).0 ≡ returned tt)
    × (w'.log ≡ log ▹ timed ▹ acked ▹ observed)
    × (live 20 w'.records "t1" ≡ until 20 (env.time_at log + 100) completed)
delivery_succeeds_example =
    delivery_succeeds env welcome refl (λ l e. refl) idle nothing_known (omega arith) absent welcome
      refl 20 welcome_done (omega arith)

delivery_fails_example :
    let w' = (handle_delivery env (count 2) broken idle).1 in
    ((handle_delivery env (count 2) broken idle).0 ≡ returned tt)
    × (w'.log
        ≡ idle.log
          ▹ timed
          ▹ timed
          ▹ timed
          ▹ ran broken false
          ▹ after_failure broken (extract_retry_count (count 2))
          ▹ acked
          ▹ observed)
    × (live 20 w'.records "t1" ≡ none)
delivery_fails_example =
    delivery_fails env broken refl (λ l e. refl) idle nothing_known (omega arith) (count 2) broken
      refl 20 broken_raises refl

abbrev occupied : Worker Bool
occupied = record { records = busy; log = [] }

busy_now : live (env.time_at occupied.log) occupied.records "t1" ≡ some processing
unfolding live
busy_now = refl

busy_later : live (env.time_at (occupied.log ▹ timed)) occupied.records "t1" ≡ some processing
unfolding live
busy_later = refl

duplicate_skipped_example :
    ((handle_delivery env absent welcome occupied).0 ≡ returned tt)
    × ((handle_delivery env absent welcome occupied).1.log ≡ skipped processing occupied.log)
duplicate_skipped_example =
    duplicate_skipped env welcome refl absent welcome occupied processing refl (λ l e. refl)
      busy_now busy_later (omega arith)
