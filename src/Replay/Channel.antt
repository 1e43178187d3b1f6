-- ===== src/Replay/Channel.antt =====
-- The calls of the channel that the replay makes, and what the broker answers to them. The broker is
-- not the program's: its answers are a parameter, with no law on them.
use fastapi.Prelude.{ℕ, String, Option, Bool}

-- `retry_count` is the header `x-retry-count`; `rest` the other headers.
pub record Message (Body Headers : Type 0) : Type 0 where
  pub body : Body
  pub content_type : Option String
  pub retry_count : Option ℕ
  pub rest : Headers

-- What `basic_get` ends in: it raises, there is no message, or one with its delivery tag.
pub data Got (Body Headers : Type 0) : Type 0 where
  get_raised no_message : Got Body Headers
  delivered : ℕ → Message Body Headers → Got Body Headers

-- The answers of one connection, by the number of the round: the message that is got, and whether
-- the publication and the acknowledgement return.
pub record Channel (Body Headers : Type 0) : Type 0 where
  pub get : ℕ → Got Body Headers
  pub publishes : ℕ → Bool
  pub acknowledges : ℕ → Bool

-- The calls that are made, in order: a publication to the work queue, an acknowledgement of a tag.
pub data Sent (Body Headers : Type 0) : Type 0 where
  published : Message Body Headers → Sent Body Headers
  acknowledged : ℕ → Sent Body Headers
