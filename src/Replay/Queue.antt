-- ===== src/Replay/Queue.antt =====
-- app/jobs/replay_dead_letter_queue.py, `replay_dead_letter_queue`, on an open channel.
use fastapi.Prelude.{
  ℕ, zero, suc, String, ◌+◌, Option, none, some, Bool, List, [], ◌∷◌, ◌++◌, if◌then◌else◌,
}
use fastapi.Prelude.Text.{is_nonempty}
use fastapi.Exec.{Exec, returned, raised, raise, other, pure, ◌>>◌}
use fastapi.Replay.Channel.{
  Message, Got, get_raised, no_message, delivered, Channel, Sent, published, acknowledged,
}

-- `properties.content_type or "application/json"`
abbrev pub content_type_of : Option String → String
content_type_of none = "application/json"
content_type_of (some t) = if is_nonempty t then t else "application/json"

module _ {Body Headers : Type 0} where
  -- `headers.pop("x-retry-count", None)`, and a content type where there is none.
  unfoldable pub as_new : Message Body Headers → Message Body Headers
  as_new m = record m { content_type = some (content_type_of m.content_type); retry_count = none }

  module _ (channel : Channel Body Headers) where
    open channel use {get, publishes, acknowledges}

    -- A call is made, and it returns or raises.
    abbrev pub call : Bool → Sent Body Headers → Exec (List (Sent Body Headers)) (Unit {0})
    call returns x log = (if returns then returned tt else raised other, log ++ x ∷ [])

    -- A round with a message, by whether its two calls return; `rest` are the rounds after it.
    abbrev pub replay_round :
        Bool
        → Bool
        → ℕ
        → Message Body Headers
        → Exec (List (Sent Body Headers)) ℕ
        → Exec (List (Sent Body Headers)) ℕ
    replay_round publishes acknowledges tag m rest = do
      call publishes (published (as_new m))
      call acknowledges (acknowledged tag)
      rest

    -- The body of the loop, by what is got.
    abbrev pub replay_got :
        ℕ → Exec (List (Sent Body Headers)) ℕ → Got Body Headers → Exec (List (Sent Body Headers)) ℕ
    replay_got replayed rest get_raised = raise other
    replay_got replayed rest no_message = pure replayed
    replay_got replayed rest (delivered tag m) =
        replay_round (publishes replayed) (acknowledges replayed) tag m rest

    -- `while replayed < limit`, with the number of messages that are left to the limit.
    unfoldable pub replay_loop : ℕ → ℕ → Exec (List (Sent Body Headers)) ℕ
    replay_loop zero replayed = pure replayed
    replay_loop (suc left) replayed =
        replay_got replayed (replay_loop left (replayed + 1)) (get replayed)

    unfoldable pub replay_dead_letter_queue : ℕ → Exec (List (Sent Body Headers)) ℕ
    replay_dead_letter_queue limit = replay_loop limit 0
