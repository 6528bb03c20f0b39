-- ===== src/Platform/Consumers.antt =====
-- backend/src/spidey/platform/events/consumers.py: the two consumer groups of the firehose, and the task
-- of backend/src/spidey/workers/tasks/events.py that pumps them. The `run_events` table stands behind its
-- primary key; a message that does not validate raises.
pub mod Counting
pub mod Persisting
use spidey.Base.{
  ℕ, ◌+◌, ◌≡◌, Bool, true, false, ◌&&◌, str_eq, String, Option, none, some, List, [], ◌∷◌,
  if◌then◌else◌, is_some, Table, find, add_row, length,
}
use spidey.Platform.Events.{EventPayload}
use spidey.Platform.Outbox.{Event, OutboxRecord, firehose}
use spidey.Platform.Streams.{Redis, ensure_group, read_group, ack, ack_all}
use spidey.Platform.Relay.{Codec, drain, default_batch}

abbrev pub consumer_batch : ℕ
consumer_batch = 128

abbrev pub persister : String
persister = "persister"

abbrev pub metrics : String
metrics = "metrics"

abbrev pub worker : String
worker = "worker"

-- `_persist`: INSERT … ON CONFLICT DO NOTHING.
unfoldable pub persist : Event → Table Event → Table Event
persist e events = if is_some (find e.event_id events) then events else add_row e.event_id e events

-- The loop of `EventPersister.pump`; none is a raise.
unfoldable pub persist_all :
    {Content : Type 0} → Codec Content → List (ℕ × Content) → Table Event → Option (Table Event)
unfolding persist
persist_all codec [] events = some events
persist_all codec ((_, content) ∷ ms) events = elim (codec.validate content) [
  | none ↦ none
  | some e ↦ persist_all codec ms (persist e events)
]

abbrev pub same_labels : List String → List String → Bool
same_labels [] [] = true
same_labels [] (y ∷ ys) = false
same_labels (x ∷ xs) [] = false
same_labels (x ∷ xs) (y ∷ ys) = str_eq x y && same_labels xs ys

-- The counters of prometheus_client: `labels(…).inc(…)` adds to the one series of the counter with
-- these labels.
pub record Prometheus : Type 1 where
  pub State : Type 0
  pub inc : (counter : String) (labels : List String) (amount : ℕ) → State → State
  pub value : (counter : String) (labels : List String) → State → ℕ
  pub value-inc :
      (c c' : String) (ls ls' : List String) (n : ℕ) (s : State)
      → value c ls (inc c' ls' n s)
        ≡ value c ls s + (if str_eq c c' && same_labels ls ls' then n else 0)

module _ {Content : Type 0} (redis : Redis Content) (codec : Codec Content) where
  -- What a pump answers, if it does not raise, and what it leaves.
  pub record Pumped (Sink : Type 0) : Type 0 where
    pub count : Option ℕ
    pub sink : Sink
    pub streams : redis.State

  -- What was read stays read, whatever happens to the session.
  abbrev pub commit_batch :
      List (ℕ × Content) → Option (Table Event) → Table Event → redis.State → Pumped (Table Event)
  commit_batch ms none events s = record { count = none; sink = events; streams = s }
  commit_batch ms (some events') events s = record {
    count = some (length ms);
    sink = events';
    streams = ack_all redis firehose persister ms s;
  }

  abbrev pub persist_batch : List (ℕ × Content) → Table Event → redis.State → Pumped (Table Event)
  persist_batch ms events s = commit_batch ms (persist_all codec ms events) events s

  -- A read that times out raises.
  abbrev pub persist_read :
      Option (List (ℕ × Content)) → Table Event → redis.State → Pumped (Table Event)
  persist_read none events s = record { count = none; sink = events; streams = s }
  persist_read (some ms) events s = persist_batch ms events s

  -- `EventPersister.pump`
  unfoldable pub pump_persister : Table Event → redis.State → Pumped (Table Event)
  pump_persister events s =
      let (ms, s') =
        read_group redis firehose persister worker consumer_batch
          (ensure_group redis firehose persister s) in
      persist_read ms events s'

  module _ (prometheus : Prometheus) where
    abbrev project_payload : EventPayload → prometheus.State → prometheus.State
    project_payload
          (EventPayload.llm_call_completed provider model role prompt completion _ cost _ _) c =
        prometheus.inc "spidey_llm_cost_usd" (provider ∷ model ∷ role ∷ []) cost (
          prometheus.inc "spidey_llm_tokens" (provider ∷ model ∷ role ∷ "completion" ∷ [])
            completion
            (prometheus.inc "spidey_llm_tokens" (provider ∷ model ∷ role ∷ "prompt" ∷ []) prompt c))
    project_payload (EventPayload.tool_invocation_completed tool side_effect outcome _) c =
        prometheus.inc "spidey_tool_invocations" (tool ∷ side_effect ∷ outcome ∷ []) 1 c
    project_payload _ c = c

    -- `_project`
    unfoldable pub project : Event → prometheus.State → prometheus.State
    project e c = project_payload e.envelope.payload c

    -- The loop of `MetricsProjector.pump`: each message is counted and acknowledged by itself.
    unfoldable pub project_all :
        (total : ℕ) → List (ℕ × Content) → prometheus.State → redis.State → Pumped prometheus.State
    unfolding project ack
    project_all total [] c s = record { count = some total; sink = c; streams = s }
    project_all total ((mid, content) ∷ ms) c s = elim (codec.validate content) [
      | none ↦ record { count = none; sink = c; streams = s }
      | some e ↦ project_all total ms (project e c) (ack redis firehose metrics mid s)
    ]

    -- A read that times out raises.
    unfoldable pub project_read :
        Option (List (ℕ × Content)) → prometheus.State → redis.State → Pumped prometheus.State
    unfolding project_all
    project_read none c s = record { count = none; sink = c; streams = s }
    project_read (some ms) c s = project_all (length ms) ms c s

    -- `MetricsProjector.pump`
    unfoldable pub pump_metrics : prometheus.State → redis.State → Pumped prometheus.State
    unfolding ensure_group read_group project_read
    pump_metrics c s =
        let (ms, s') =
          read_group redis firehose metrics worker consumer_batch
            (ensure_group redis firehose metrics s) in
        project_read ms c s'

    -- The tables, the streams and the counters.
    pub record Plane : Type 0 where
      pub outbox : Table OutboxRecord
      pub streams : redis.State
      pub run_events : Table Event
      pub counters : prometheus.State

    unfoldable pub relay_step : (batch now : ℕ) → Plane → Plane
    relay_step batch now p =
        let d = drain redis codec batch now p.outbox p.streams in
        record p { outbox = d.outbox; streams = d.streams }

    unfoldable pub persist_step : Plane → Plane
    persist_step p =
        let r = pump_persister p.run_events p.streams in
        record p { run_events = r.sink; streams = r.streams }

    unfoldable pub metrics_step : Plane → Plane
    metrics_step p =
        let r = pump_metrics p.counters p.streams in
        record p { counters = r.sink; streams = r.streams }

    -- The persister dies, or its session raises, between the read and the commit. The group reads only
    -- what it was never handed, and nobody claims what it has not acknowledged.
    unfoldable pub pump_cut : Plane → Plane
    pump_cut p =
        let read =
          read_group redis firehose persister worker consumer_batch
            (ensure_group redis firehose persister p.streams) in
        record p { streams = read.1 }

    -- `_pump`: a persister that raises, as on an empty backlog, ends the task.
    unfoldable pub pump_events : (now : ℕ) → Plane → Plane
    pump_events now p =
        let q = relay_step default_batch now p in
        if is_some (pump_persister q.run_events q.streams).count
        then metrics_step (persist_step q)
        else persist_step q
