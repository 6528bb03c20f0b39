-- ===== src/Platform/Outbox.antt =====
-- backend/src/spidey/platform/events/outbox.py and the `event_outbox` table of
-- backend/src/spidey/platform/events/orm.py. A ULID and a `datetime` are numbers; a `uuid` is a number
-- whose text are its digits. The rows stand behind their `event_id`, which is unique.
use spidey.Base.{
  ℕ, String, Option, none, some, [], ◌∷◌, if◌then◌else◌, is_some, Table, find, str_concat, str_of_ℕ,
}
use spidey.Platform.Events.{EventEnvelope}

-- An envelope with its generated fields.
pub record Event : Type 0 where
  pub event_id : ℕ
  pub occurred_at : ℕ
  pub envelope : EventEnvelope

pub record OutboxRecord : Type 0 where
  pub event_id : ℕ
  pub stream_key : String
  pub envelope : Event
  pub created_at : ℕ
  pub relayed_at : Option ℕ

abbrev pub firehose : String
firehose = "events:all"

unfoldable pub stream_key_for : Option ℕ → String
stream_key_for none = firehose
stream_key_for (some run_id) = str_concat ("run:" ∷ str_of_ℕ run_id ∷ ":events" ∷ [])

abbrev pub pending_record : Event → (now : ℕ) → OutboxRecord
pending_record e now = record {
  event_id = e.event_id;
  stream_key = stream_key_for e.envelope.run_id;
  envelope = e;
  created_at = now;
  relayed_at = none;
}

-- `OutboxWriter.add`, and the commit of its session: a second row of an event breaks the constraint.
unfoldable pub add : Event → (now : ℕ) → Table OutboxRecord → Option (Table OutboxRecord)
add e now outbox =
    if is_some (find e.event_id outbox)
    then none
    else some ((e.event_id, pending_record e now) ∷ outbox)
