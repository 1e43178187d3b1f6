-- ===== src/Replay/Tests.antt =====
-- A replay of two dead letters, of which the second is not acknowledged.
use fastapi.Prelude.{ℕ, zero, suc, String, none, some, true, [], ◌==◌}
use fastapi.Replay.Channel.{Message, Got, no_message, delivered, Channel}
use fastapi.Replay.Queue.{replay_dead_letter_queue}
use fastapi.Replay.Effect.{Replays, replay_dead_letter_queue_outcome}

abbrev letter : Message String ℕ
letter = record { body = "b"; content_type = none; retry_count = some 3; rest = 0 }

abbrev two_letters : ℕ → Got String ℕ
two_letters zero = delivered 1 letter
two_letters (suc zero) = delivered 2 letter
two_letters (suc (suc _)) = no_message

abbrev channel : Channel String ℕ
channel = record { get = two_letters; publishes = λ i. true; acknowledges = λ i. i == 0 }

replay_dead_letter_queue_outcome_example :
    Replays channel 0 100 [] (replay_dead_letter_queue channel 100 [])
replay_dead_letter_queue_outcome_example = replay_dead_letter_queue_outcome channel 100 []
