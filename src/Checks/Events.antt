-- ===== src/Checks/Events.antt =====
-- Runs of the event plane (backend/src/spidey/platform/events) over a small Redis whose streams hold
-- the events themselves.
use spidey.Base.{
  ℕ, ◌+◌, ◌≡◌, refl, String, true, false, ◌&&◌, none, some, List, [], ◌∷◌, ◌++◌, if◌then◌else◌,
  take, drop, str_eq, eq_refl, arith, find, str_of_ℕ,
}
use spidey.Platform.Events.{EventPayload, envelope_of}
use spidey.Platform.Outbox.{Event, add, pending_record, stream_key_for}
use spidey.Platform.Streams.{Redis, publish}
use spidey.Platform.Relay.{Codec, default_batch, drain, claim, mark_relayed, publish_all}
use spidey.Platform.Consumers.{
  Prometheus, Plane, relay_step, persist_step, pump_events, pump_cut, pump_metrics, metrics,
  same_labels,
}
use spidey.Platform.Streams.Backlog.{backlog}
use spidey.Platform.Consumers.Counting.{pump_metrics_lem}
use spidey.Platform.EventPlane.{Step, Steps, IsSound, Spec, view}
use spidey.Platform.EventPlane.Invariant.{Steps-IsSound}
use spidey.Platform.EventPlane.Refinement.{Step-Spec}
use spidey.Platform.EventPlane.Arrival.{find-pump_events}
use spidey.Platform.EventPlane.Loss.{pump_cut-Steps}

record Memory : Type 0 where
  next : ℕ
  queues : String → String → List (ℕ × Event)

abbrev small_redis : Redis Event
small_redis = record {
  State = Memory;
  xadd = λ key content maxlen s. (
    s.next,
    record {
      next = s.next + 1;
      queues = λ k g. s.queues k g ++ (if str_eq key k then (s.next, content) ∷ [] else []);
    },
  );
  xgroup_create = λ key group s. (true, s);
  xreadgroup = λ key group consumer n s. (
    take n (s.queues key group),
    record s {
      queues =
          λ k g. if str_eq group g && str_eq key k then drop n (s.queues k g) else s.queues k g;
    },
  );
  xack = λ key group mid s. s;
  waiting = λ k g s. s.queues k g;
  waiting-xadd = λ k g key content maxlen s room. refl;
  waiting-xgroup_create = λ k g key group s. refl;
  xreadgroup_messages = λ k g consumer n s. refl;
  waiting-xreadgroup = λ k g consumer n s. rw (eq_refl g, eq_refl k) refl;
  waiting-xreadgroup_other = λ k g key group consumer n s other. rw other refl;
  waiting-xack = λ k g key group mid s. refl;
}

abbrev plain : Codec Event
plain = record { dumps = λ e. e; validate = λ e. some e }

-- A table of series.
abbrev counting : Prometheus
counting = record {
  State = String → List String → ℕ;
  inc = λ counter labels amount c counter' labels'.
      c counter' labels'
      + (if str_eq counter' counter && same_labels labels' labels then amount else 0);
  value = λ counter labels c. c counter labels;
  value-inc = λ c c' ls ls' n s. refl;
}

abbrev no_counts : String → List String → ℕ
no_counts counter labels = 0

abbrev opened : Event
opened = record {
  event_id = 7;
  occurred_at = 40;
  envelope =
      envelope_of (EventPayload.pull_request_opened 3 "https://example.org/3" "spidey/run-1")
        (some 1) none none none none none;
}

abbrev SmallPlane : Type 0
SmallPlane = Plane small_redis plain counting

abbrev silent : Memory
silent = record { next = 0; queues = λ k g. [] }

abbrev quiet : SmallPlane
quiet = record { outbox = []; streams = silent; run_events = []; counters = no_counts }

quiet-IsSound : IsSound quiet
quiet-IsSound = record {
  keyed = tt;
  distinct = tt;
  waiting = [];
  queued = refl;
  recorded = tt;
  logged = λ i e h. absurd (ground (arith, h));
  covered = λ i r h m. absurd (ground (arith, h));
}

abbrev one_event : SmallPlane
one_event = record quiet { outbox = (7, pending_record opened 41) ∷ [] }

stream_keys : (stream_key_for none ≡ "events:all") × (stream_key_for (some 12) ≡ "run:12:events")
unfolding stream_key_for str_of_ℕ
stream_keys = (refl, refl)

abbrev pumped : SmallPlane
pumped =
    persist_step small_redis plain counting
      (relay_step small_redis plain counting default_batch 50 one_event)

delivery : Steps small_redis plain counting quiet pumped
unfolding add
delivery =
    Steps.next
      (Steps.next (Steps.next Steps.here (Step.produce quiet opened 41 refl))
        (Step.relay one_event default_batch 50 (omega arith)))
      (Step.pump (relay_step small_redis plain counting default_batch 50 one_event))

Steps-IsSound_example : IsSound pumped
Steps-IsSound_example = Steps-IsSound small_redis plain counting (λ e. refl) quiet-IsSound delivery

one_event-IsSound : IsSound one_event
unfolding add
one_event-IsSound =
    Steps-IsSound small_redis plain counting (λ e. refl) quiet-IsSound
      (Steps.next Steps.here (Step.produce quiet opened 41 refl))

sent-IsSound : IsSound (relay_step small_redis plain counting default_batch 50 one_event)
sent-IsSound =
    Steps-IsSound small_redis plain counting (λ e. refl) one_event-IsSound
      (Steps.next Steps.here (Step.relay one_event default_batch 50 (omega arith)))

Step-Spec_example :
    Spec (view (relay_step small_redis plain counting default_batch 50 one_event)) (view pumped)
Step-Spec_example =
    Step-Spec small_redis plain counting (λ e. refl) sent-IsSound
      (Step.pump (relay_step small_redis plain counting default_batch 50 one_event))

find-pump_events_example :
    find 7 (pump_events small_redis plain counting 50 one_event).run_events ≡ some opened
find-pump_events_example =
    find-pump_events small_redis plain counting (λ e. refl) 50 one_event one_event-IsSound
      (omega arith) 7 (pending_record opened 41) refl

-- The relayed row, and a persister that dies with its batch: the next pump brings nothing.
pump_cut-Steps_example :
    find 7
      (persist_step small_redis plain counting (
        pump_cut small_redis plain counting
          (relay_step small_redis plain counting default_batch 50 one_event))).run_events
    ≡ none
unfolding relay_step drain claim mark_relayed publish_all publish stream_key_for str_of_ℕ
pump_cut-Steps_example =
    pump_cut-Steps small_redis plain counting 7 (λ e. refl)
      (relay_step small_redis plain counting default_batch 50 one_event) sent-IsSound (omega arith)
      (record (pending_record opened 41) { relayed_at = some 50 }) refl refl refl
      (Steps.next Steps.here (
        Step.pump (
          pump_cut small_redis plain counting
            (relay_step small_redis plain counting default_batch 50 one_event))))

-- The same event waits twice for the metrics group, as it does when the relay died before its commit.
abbrev called : Event
called = record {
  event_id = 8;
  occurred_at = 42;
  envelope =
      envelope_of (EventPayload.llm_call_completed "p" "m" "chat" 10 20 5 3 none false) none none
        none none none none;
}

abbrev twice : Memory
twice = record { next = 2; queues = λ k g. (0, called) ∷ (1, called) ∷ [] }

pump_metrics_lem_example :
    let p = pump_metrics small_redis plain counting no_counts twice in
    (p.count ≡ some 2)
    × (p.sink "spidey_llm_tokens" ("p" ∷ "m" ∷ "chat" ∷ "prompt" ∷ []) ≡ 20)
    × (backlog small_redis metrics p.streams ≡ [])
pump_metrics_lem_example =
    pump_metrics_lem small_redis plain counting (λ e. refl) "spidey_llm_tokens"
      ("p" ∷ "m" ∷ "chat" ∷ "prompt" ∷ []) called (called ∷ []) no_counts twice refl
