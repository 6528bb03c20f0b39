-- ===== src/Platform/Relay.antt =====
-- backend/src/spidey/platform/events/relay.py: the relay from the outbox to the streams. The rows that
-- `_claim` locks are the relay's alone, so a drain is one step; `sent` counts the messages that a
-- drain publishes before it dies, when it does.
pub mod Claims
pub mod Publishing
use spidey.Base.{
  ℕ, String, not, Option, some, List, [], ◌∷◌, ◌++◌, leb, str_eq, if◌then◌else◌, is_some, Table,
  update, take, length,
}
use spidey.Platform.Outbox.{Event, OutboxRecord, firehose}
use spidey.Platform.Streams.{Redis, publish}

-- `json.dumps` and `EventEnvelope.model_validate_json`.
pub record Codec (Content : Type 0) : Type 0 where
  pub dumps : Event → Content
  pub validate : Content → Option Event

-- The rows that are not relayed yet, oldest first.
abbrev pub insert_row : OutboxRecord → List OutboxRecord → List OutboxRecord
insert_row r [] = r ∷ []
insert_row r (x ∷ xs) = if leb r.created_at x.created_at then r ∷ x ∷ xs else x ∷ insert_row r xs

abbrev pub unrelayed : Table OutboxRecord → List OutboxRecord
unrelayed [] = []
unrelayed ((_, r) ∷ t) = if is_some r.relayed_at then unrelayed t else insert_row r (unrelayed t)

unfoldable pub claim : (batch : ℕ) → Table OutboxRecord → List OutboxRecord
claim batch outbox = take batch (unrelayed outbox)

abbrev pub set_relayed : (now : ℕ) → OutboxRecord → OutboxRecord
set_relayed now r = record r { relayed_at = some now }

unfoldable pub mark_relayed : (now : ℕ) → OutboxRecord → Table OutboxRecord → Table OutboxRecord
mark_relayed now row outbox = update row.event_id (set_relayed now) outbox

abbrev pub mark_all : (now : ℕ) → List OutboxRecord → Table OutboxRecord → Table OutboxRecord
mark_all now [] outbox = outbox
mark_all now (r ∷ rows) outbox = mark_all now rows (mark_relayed now r outbox)

abbrev pub default_batch : ℕ
default_batch = 128

module _ {Content : Type 0} (redis : Redis Content) (codec : Codec Content) where
  -- The messages of a row in their order: the firehose, and the run's stream if it is another.
  abbrev pub messages_of : OutboxRecord → List (String × Content)
  messages_of row =
      let content = codec.dumps row.envelope in
      if not (str_eq row.stream_key firehose)
      then (firehose, content) ∷ (row.stream_key, content) ∷ []
      else (firehose, content) ∷ []

  abbrev pub fan_out : List OutboxRecord → List (String × Content)
  fan_out [] = []
  fan_out (r ∷ rows) = messages_of r ++ fan_out rows

  unfoldable pub publish_all : List (String × Content) → redis.State → redis.State
  unfolding publish
  publish_all [] s = s
  publish_all ((key, content) ∷ ms) s = publish_all ms (publish redis key content s)

  pub record Drained : Type 0 where
    pub count : ℕ
    pub outbox : Table OutboxRecord
    pub streams : redis.State

  -- `drain`: every row is published and marked, then the marks are committed.
  unfoldable pub drain : (batch now : ℕ) → Table OutboxRecord → redis.State → Drained
  unfolding claim publish_all
  drain batch now outbox s =
      let rows = claim batch outbox in
      record {
        count = length rows;
        outbox = mark_all now rows outbox;
        streams = publish_all (fan_out rows) s;
      }

  -- A drain that dies after some messages: the marks are rolled back, what was published stays.
  unfoldable pub drain_cut : (batch sent : ℕ) → Table OutboxRecord → redis.State → redis.State
  unfolding claim publish_all
  drain_cut batch sent outbox s = publish_all (take sent (fan_out (claim batch outbox))) s
