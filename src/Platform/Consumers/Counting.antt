-- ===== src/Platform/Consumers/Counting.antt =====
-- What a pump of the metrics group adds to the counters.
use spidey.Base.{
  ℕ, suc, ◌+◌, ◌≡◌, refl, ap, subst, ◌∙◌, String, ◌&&◌, str_eq, if◌then◌else◌, Option, none, some,
  List, [], ◌∷◌, take, drop, map, length, arith,
}
use spidey.Platform.Events.{EventPayload}
use spidey.Platform.Outbox.{Event, firehose}
use spidey.Platform.Streams.{Redis, read_group, ensure_group, ack, ack_all}
use spidey.Platform.Streams.Backlog.{
  contents, backlog, backlog-ensure_group, backlog-ack_all, Answers, read_group-Answers,
  backlog-read_group, length-contents,
}
use spidey.Platform.Relay.{Codec}
use spidey.Platform.Consumers.{
  Prometheus, project, project_all, project_read, pump_metrics, same_labels, consumer_batch,
  metrics, worker,
}
use spidey.Platform.Consumers.Persisting.{take-map, drop-map}

length-dumps :
    {Content : Type 0} (codec : Codec Content) (es : List Event)
    → length (map codec.dumps es) ≡ length es
length-dumps codec [] = refl
length-dumps codec (e ∷ es) = omega (arith, length-dumps codec es)

module _ {Content : Type 0} (redis : Redis Content) (codec : Codec Content)
    (prometheus : Prometheus) where
  -- What an event adds to a series: its tokens, its cost, or itself.
  abbrev in_series : String → List String → String → List String → ℕ → ℕ
  in_series counter labels name of n = if str_eq counter name && same_labels labels of then n else 0

  abbrev pub adds : String → List String → EventPayload → ℕ
  adds counter labels
        (EventPayload.llm_call_completed provider model role prompt completion _ cost _ _) =
      in_series counter labels "spidey_llm_tokens" (provider ∷ model ∷ role ∷ "prompt" ∷ []) prompt
      + in_series counter labels "spidey_llm_tokens" (provider ∷ model ∷ role ∷ "completion" ∷ [])
          completion
      + in_series counter labels "spidey_llm_cost_usd" (provider ∷ model ∷ role ∷ []) cost
  adds counter labels (EventPayload.tool_invocation_completed tool side_effect outcome _) =
      in_series counter labels "spidey_tool_invocations" (tool ∷ side_effect ∷ outcome ∷ []) 1
  adds counter labels _ = 0

  -- Every event counts, a second delivery of one too.
  abbrev pub adds_all : String → List String → List Event → ℕ
  adds_all counter labels [] = 0
  adds_all counter labels (e ∷ es) =
      adds counter labels e.envelope.payload + adds_all counter labels es

  value-project :
      (counter : String) (labels : List String) (e : Event) (c : prometheus.State)
      → prometheus.value counter labels (project redis codec prometheus e c)
        ≡ prometheus.value counter labels c + adds counter labels e.envelope.payload
  unfolding project
  value-project counter labels e c = grind (arith, prometheus.value-inc)

  module _ (law : (e : Event) → codec.validate (codec.dumps e) ≡ some e) where
    project_all-dumps :
        (counter : String) (labels : List String) (total : ℕ) (ms : List (ℕ × Content))
        (es : List Event) (c : prometheus.State) (s : redis.State)
        → contents ms ≡ map codec.dumps es
        → ((project_all redis codec prometheus total ms c s).count ≡ some total)
          × (prometheus.value counter labels (project_all redis codec prometheus total ms c s).sink
              ≡ prometheus.value counter labels c + adds_all counter labels es)
          × (backlog redis metrics (project_all redis codec prometheus total ms c s).streams
              ≡ backlog redis metrics s)
    unfolding project_all ack_all
    project_all-dumps counter labels total [] [] c s q = (refl, omega arith, refl)
    project_all-dumps counter labels total [] (e ∷ es) c s q = absurd (ground arith)
    project_all-dumps counter labels total (m ∷ ms) [] c s q = absurd (ground arith)
    project_all-dumps counter labels total ((mid, x) ∷ ms) (e ∷ es) c s q =
        let hd : x ≡ codec.dumps e = cc in
        let tl : contents ms ≡ map codec.dumps es = cc in
        let rest =
          project_all-dumps counter labels total ms es (project redis codec prometheus e c)
            (ack redis firehose metrics mid s) tl in
        rw (hd, project_all, law e)
          (
            rest.0,
            omega (arith, rest.1, value-project counter labels e c),
            rest.2 ∙ backlog-ack_all redis metrics firehose metrics ((mid, x) ∷ []) s,
          )

    length-read :
        (ms : List (ℕ × Content)) (es : List Event)
        → contents ms ≡ map codec.dumps es
        → length ms ≡ length es
    length-read ms es q = omega (arith, ap length q, length-contents ms, length-dumps codec es)

    project_read-some :
        (counter : String) (labels : List String) (answer : Option (List (ℕ × Content))) (e : Event)
        (es : List Event) (c : prometheus.State) (s : redis.State)
        → Answers redis metrics answer (map codec.dumps (e ∷ es))
        → ((project_read redis codec prometheus answer c s).count ≡ some (suc (length es)))
          × (prometheus.value counter labels (project_read redis codec prometheus answer c s).sink
              ≡ prometheus.value counter labels c + adds_all counter labels (e ∷ es))
          × (backlog redis metrics (project_read redis codec prometheus answer c s).streams
              ≡ backlog redis metrics s)
    unfolding project_read
    project_read-some counter labels none e es c s q = absurd (ground arith)
    project_read-some counter labels (some ms) e es c s q =
        let b = project_all-dumps counter labels (length ms) ms (e ∷ es) c s q.0 in
        (b.0 ∙ ap some (length-read ms (e ∷ es) q.0), b.1, b.2)

    -- A pump on a backlog that is not empty counts the events that wait, up to a batch of them, each once
    -- for every time that it waits there: every series grows by what these events add to it, prompt and
    -- completion tokens, cost and invocations, and no other grows. It answers how many it counted, and
    -- leaves the others waiting in their order.
    pub pump_metrics_lem :
        (counter : String) (labels : List String) (e : Event) (es : List Event)
        (c : prometheus.State) (s : redis.State)
        → backlog redis metrics s ≡ map codec.dumps (e ∷ es)
        → ((pump_metrics redis codec prometheus c s).count
            ≡ some (length (take consumer_batch (e ∷ es))))
          × (prometheus.value counter labels (pump_metrics redis codec prometheus c s).sink
              ≡ prometheus.value counter labels c
                + adds_all counter labels (take consumer_batch (e ∷ es)))
          × (backlog redis metrics (pump_metrics redis codec prometheus c s).streams
              ≡ map codec.dumps (drop consumer_batch (e ∷ es)))
    unfolding pump_metrics
    pump_metrics_lem counter labels e es c s q =
        let s0 = ensure_group redis firehose metrics s in
        let answer = (read_group redis firehose metrics worker consumer_batch s0).0 in
        let s1 = (read_group redis firehose metrics worker consumer_batch s0).1 in
        let read : Answers redis metrics answer (map codec.dumps (take consumer_batch (e ∷ es))) =
          subst (Answers redis metrics answer)
            (rw (backlog-ensure_group redis metrics metrics s, q)
              (take-map consumer_batch codec.dumps (e ∷ es)))
            (read_group-Answers redis metrics worker consumer_batch s0) in
        let left : backlog redis metrics s1 ≡ map codec.dumps (drop consumer_batch (e ∷ es)) =
          backlog-read_group redis metrics worker consumer_batch s0
          ∙ rw (backlog-ensure_group redis metrics metrics s, q)
              (drop-map consumer_batch codec.dumps (e ∷ es)) in
        let b = project_read-some counter labels answer e (take 127 es) c s1 read in
        (b.0, b.1, b.2 ∙ left)
