-- ===== src/Platform/EventPlane/Invariant.antt =====
-- Every step of the event plane keeps it sound.
use spidey.Base.{
  ℕ, subst, ◌≡◌, refl, sym, ap, ◌∙◌, Option, none, some, List, [], ◌∷◌, ◌==◌, Table, find, or_else,
  All, arith, Bool-cases, Option-cases, inl, inr, take, drop,
}
use spidey.Platform.Outbox.{Event, OutboxRecord, firehose, add, pending_record}
use spidey.Platform.Streams.{Redis, read_group, ensure_group, ack, ack_all}
use spidey.Platform.Streams.Backlog.{
  backlog, backlog-ensure_group, backlog-read_group_other, backlog-ack_all,
}
use spidey.Platform.Relay.{Codec}
use spidey.Platform.Relay.Claims.{All-take}
use spidey.Platform.Consumers.{
  Prometheus, Plane, persist_step, metrics_step, persister, consumer_batch, project_all,
  project_read, project, metrics, worker, pump_metrics, pump_persister,
}
use spidey.Platform.Consumers.Persisting.{
  first, Recorded, find-log_all, Distinct-log_all, first-Recorded, pump_persister_lem,
}
use spidey.Platform.EventPlane.{written, Step, Steps, IsSound}
use spidey.Platform.EventPlane.Growth.{relay-IsSound, relay_cut-IsSound, is_event-take, All-drop}

pub add_lem :
    (e : Event) (now : ℕ) (o : Table OutboxRecord) {t : Table OutboxRecord}
    → add e now o ≡ some t
    → (find e.event_id o ≡ none) × (t ≡ (e.event_id, pending_record e now) ∷ o)
unfolding add
add_lem e now o h = elim (Option-cases (find e.event_id o)) [
  | inl n ↦ (n, ground (arith, n))
  | inr (r, q) ↦ absurd (ground (arith, q))
]

Recorded-fresh :
    (e : Event) (now : ℕ) (o : Table OutboxRecord)
    → find e.event_id o ≡ none
    → (es : List Event) → All (Recorded (written o)) es
    → All (Recorded (written ((e.event_id, pending_record e now) ∷ o))) es
Recorded-fresh e now o fresh [] a = tt
Recorded-fresh e now o fresh (x ∷ es) a = (
  elim (Bool-cases (x.event_id == e.event_id)) [
    | inl same ↦ let q : x.event_id ≡ e.event_id = ground arith in absurd (ground (arith, a.0))
    | inr other ↦ simp (other, a.0)
  ],
  Recorded-fresh e now o fresh es a.1,
)

module _ {Content : Type 0} (redis : Redis Content) (codec : Codec Content)
    (prometheus : Prometheus) where
  -- The other group takes nothing from the persister.
  backlog-project_all :
      (total : ℕ) (ms : List (ℕ × Content)) (c : prometheus.State) (s : redis.State)
      → backlog redis persister (project_all redis codec prometheus total ms c s).streams
        ≡ backlog redis persister s
  unfolding project_all ack_all
  backlog-project_all total [] c s = refl
  backlog-project_all total ((mid, content) ∷ ms) c s =
      elim (Option-cases (codec.validate content)) [
        | inl n ↦ rw (n, project_all) refl
        | inr (e, q) ↦
            rw (q, project_all)
              (backlog-project_all total ms (project redis codec prometheus e c)
                  (ack redis firehose metrics mid s)
                ∙ backlog-ack_all redis persister firehose metrics ((mid, content) ∷ []) s)
      ]

  backlog-project_read :
      (answer : Option (List (ℕ × Content))) (c : prometheus.State) (s : redis.State)
      → backlog redis persister (project_read redis codec prometheus answer c s).streams
        ≡ backlog redis persister s
  unfolding project_read
  backlog-project_read none c s = refl
  backlog-project_read (some ms) c s = backlog-project_all _ ms c s

  pub backlog-pump_metrics :
      (c : prometheus.State) (s : redis.State)
      → backlog redis persister (pump_metrics redis codec prometheus c s).streams
        ≡ backlog redis persister s
  unfolding pump_metrics
  backlog-pump_metrics c s =
      let s0 = ensure_group redis firehose metrics s in
      let read = read_group redis firehose metrics worker consumer_batch s0 in
      backlog-project_read read.0 c read.1
      ∙ backlog-read_group_other redis persister metrics worker consumer_batch s0 refl
      ∙ backlog-ensure_group redis persister metrics s

  count-IsSound :
      (p : Plane redis codec prometheus)
      → IsSound p
      → IsSound (metrics_step redis codec prometheus p)
  unfolding metrics_step
  count-IsSound p s = record {
    keyed = s.keyed;
    distinct = s.distinct;
    waiting = s.waiting;
    queued = backlog-pump_metrics p.counters p.streams ∙ s.queued;
    recorded = s.recorded;
    logged = s.logged;
    covered = s.covered;
  }

  pump-IsSound :
      (law : (e : Event) → codec.validate (codec.dumps e) ≡ some e)
      (p : Plane redis codec prometheus)
      → IsSound p
      → IsSound (persist_step redis codec prometheus p)
  unfolding persist_step
  pump-IsSound law p s =
      let (es, t) : List Event × Table Event = (take consumer_batch s.waiting, p.run_events) in
      let done = pump_persister_lem redis codec law s.waiting p.run_events p.streams s.queued in
      let found : (i : ℕ)
          → find i (pump_persister redis codec t p.streams).sink ≡ or_else (find i t) (first i es) =
        λ i. ap (find i) done.0 ∙ find-log_all i es t in
      let taken = All-take (Recorded (written p.outbox)) consumer_batch s.waiting s.recorded in
      record {
        keyed = s.keyed;
        distinct = rw done.0 (Distinct-log_all es t s.distinct);
        waiting = drop consumer_batch s.waiting;
        queued = done.1;
        recorded = All-drop (Recorded (written p.outbox)) consumer_batch s.waiting s.recorded;
        logged = λ i e h.
            ground
              (arith, found i, s.logged i e, first-Recorded (written p.outbox) i es {e = e} taken);
        covered = λ i r f m.
            ground (arith, found i, s.covered i r f m, is_event-take i consumer_batch s.waiting);
      }

  produce-IsSound :
      (p : Plane redis codec prometheus) (e : Event) (now : ℕ) {t : Table OutboxRecord}
      → add e now p.outbox ≡ some t
      → IsSound p
      → IsSound (record p { outbox = t })
  produce-IsSound p e now {t} h s =
      let (fresh, q) = add_lem e now p.outbox h in
      let o = p.outbox in
      subst
        (λ (u : Table OutboxRecord).
          IsSound {redis = redis} {codec = codec} {prometheus = prometheus}
            (record p { outbox = u }))
        (sym q)
        (record {
          keyed = (refl, refl, fresh, s.keyed);
          distinct = s.distinct;
          waiting = s.waiting;
          queued = s.queued;
          recorded = Recorded-fresh e now o fresh s.waiting s.recorded;
          logged = λ i x l. ground (arith, s.logged i x l);
          covered = λ i r f m. ground (arith, s.covered i r);
        })

  pub Step-IsSound :
      (law : (e : Event) → codec.validate (codec.dumps e) ≡ some e)
      → {p q : Plane redis codec prometheus} → Step redis codec prometheus p q
      → IsSound p
      → IsSound q
  Step-IsSound law (Step.produce p e now h) s = produce-IsSound p e now h s
  Step-IsSound law (Step.relay p batch now h) s = relay-IsSound p s batch now h
  Step-IsSound law (Step.relay_cut p batch sent h) s = relay_cut-IsSound p s batch sent h
  Step-IsSound law (Step.pump p) s = pump-IsSound law p s
  Step-IsSound law (Step.count p) s = count-IsSound p s

  -- A sound event plane stays sound under any sequence of writes of the outbox, relay runs that find
  -- room on the firehose and may die before their commit, and pumps of either group (a persister that
  -- dies between its read and its commit is not among them): the outbox and `run_events` hold each event
  -- once, `run_events` holds only events as they were written, only written events wait for the
  -- persister, and every relayed event waits there or stands in `run_events`.
  pub Steps-IsSound :
      (law : (e : Event) → codec.validate (codec.dumps e) ≡ some e)
      → {p q : Plane redis codec prometheus} → IsSound p
      → Steps redis codec prometheus p q
      → IsSound q
  Steps-IsSound law s Steps.here = s
  Steps-IsSound law s (Steps.next r st) = Step-IsSound law st (Steps-IsSound law s r)
