-- ===== src/Platform/EventPlane/Arrival.antt =====
-- What a round of pumps brings into `run_events`.
use spidey.Base.{
  ℕ, zero, suc, ◌+◌, ◌≤◌, ◌≡◌, refl, ap, ◌∙◌, true, ◌||◌, some, List, [], ◌∷◌, ◌==◌, is_some, Table,
  find, length, map, arith, Bool-cases, Option-cases, inl, inr, take, length-append, length-take,
  or_else,
}
use spidey.Platform.Outbox.{Event, OutboxRecord}
use spidey.Platform.Streams.{Redis}
use spidey.Platform.Streams.Backlog.{backlog}
use spidey.Platform.Relay.{
  Codec, claim, drain, unrelayed, insert_row, default_batch, mark_all, fan_out,
}
use spidey.Platform.Relay.Claims.{Keyed, is_row, find-mark_all}
use spidey.Platform.Relay.Publishing.{backlog-publish_all, for_firehose-fan_out, length-fan_out}
use spidey.Platform.Consumers.{
  Prometheus, Plane, relay_step, persist_step, metrics_step, persister, consumer_batch, pump_events,
  pump_persister,
}
use spidey.Platform.Consumers.Persisting.{first, find-log_all, pump_persister_lem, first-Recorded}
use spidey.Platform.EventPlane.{written, Step, IsSound, HasRoom}
use spidey.Platform.EventPlane.Growth.{written-mark_all, length-claim}
use spidey.Platform.EventPlane.Invariant.{Step-IsSound}

take_all {ℓ} : {A : Type ℓ} (n : ℕ) (xs : List A) → length xs ≤ n → take n xs ≡ xs
take_all zero [] h = refl
take_all zero (x ∷ xs) h = absurd (omega arith)
take_all (suc n) [] h = refl
take_all (suc n) (x ∷ xs) h = ap (λ ys. x ∷ ys) (take_all n xs (omega arith))

is_row-insert_row :
    (i : ℕ) (r : OutboxRecord) (xs : List OutboxRecord)
    → is_row i (insert_row r xs) ≡ (r.event_id == i || is_row i xs)
is_row-insert_row i r [] = refl
is_row-insert_row i r (x ∷ xs) = ground (arith, is_row-insert_row i r xs)

-- A row is relayed, or among those that are not.
relayed_or_not :
    (i : ℕ) (r : OutboxRecord) (t : Table OutboxRecord)
    → Keyed t
    → find i t ≡ some r
    → (is_some r.relayed_at || is_row i (unrelayed t)) ≡ true
relayed_or_not i r [] h e = absurd (ground arith)
relayed_or_not i r ((k, q) ∷ t) h e =
    ground (arith, h.0, relayed_or_not i r t h.3, is_row-insert_row i q (unrelayed t))

-- A drain of all that waits leaves no row unmarked.
drained_all :
    (i batch now : ℕ) (r : OutboxRecord) (t : Table OutboxRecord)
    → Keyed t
    → length (unrelayed t) ≤ batch
    → find i (mark_all now (claim batch t) t) ≡ some r
    → is_some r.relayed_at ≡ true
unfolding claim
drained_all i batch now r t h len e =
    let rows : take batch (unrelayed t) ≡ unrelayed t = take_all batch (unrelayed t) len in
    let marks = find-mark_all i now (unrelayed t) t in
    let e' : find i (mark_all now (unrelayed t) t) ≡ some r = rw (← rows) e in
    elim (Option-cases (find i t)) [
      | inl n ↦ absurd (ground (arith, marks))
      | inr (q, f) ↦ ground (arith, marks, relayed_or_not i q t h f)
    ]

length-map {ℓ κ} :
    {A : Type ℓ} {B : Type κ} (f : A → B) (xs : List A) → length (map f xs) ≡ length xs
length-map f [] = refl
length-map f (x ∷ xs) = omega (arith, length-map f xs)

length-claimed :
    (batch : ℕ) (t : Table OutboxRecord) → length (claim batch t) ≤ length (unrelayed t)
unfolding claim
length-claimed batch t = omega (arith, length-take batch (unrelayed t))

module _ {Content : Type 0} (redis : Redis Content) (codec : Codec Content)
    (prometheus : Prometheus) (law : (e : Event) → codec.validate (codec.dumps e) ≡ some e) where
  -- A pump that reads the whole backlog brings every relayed event into `run_events`.
  pub relayed-persist_step :
      (p : Plane redis codec prometheus)
      → IsSound p
      → length (backlog redis persister p.streams) ≤ consumer_batch
      → (i : ℕ) (r : OutboxRecord) → find i p.outbox ≡ some r
      → is_some r.relayed_at ≡ true
      → find i (persist_step redis codec prometheus p).run_events ≡ some r.envelope
  unfolding persist_step
  relayed-persist_step p s len i r f m =
      let t = p.run_events in
      let done = pump_persister_lem redis codec law s.waiting t p.streams s.queued in
      let all : take consumer_batch s.waiting ≡ s.waiting =
        take_all consumer_batch s.waiting
          (omega (arith, len, ap length s.queued, length-map codec.dumps s.waiting)) in
      let found : find i (persist_step redis codec prometheus p).run_events
          ≡ or_else (find i t) (first i s.waiting) =
        ap (find i) done.0
        ∙ find-log_all i (take consumer_batch s.waiting) t
        ∙ ap (λ es. or_else (find i t) (first i es)) all in
      elim (Option-cases (find i t)) [
        | inl n ↦ elim (Option-cases (first i s.waiting)) [
          | inl none_waits ↦ absurd (ground (arith, s.covered i r f m))
          | inr (e, w) ↦
              found
              ∙ ground (arith, first-Recorded (written p.outbox) i s.waiting {e = e} s.recorded w)
        ]
        | inr (e, l) ↦ found ∙ ground (arith, s.logged i e l)
      ]

  length-relay_step :
      (batch now : ℕ) (p : Plane redis codec prometheus)
      → HasRoom redis codec prometheus batch p
      → length (backlog redis persister (relay_step redis codec prometheus batch now p).streams)
        ≡ length (backlog redis persister p.streams) + length (claim batch p.outbox)
  unfolding relay_step drain
  length-relay_step batch now p h =
      let rows = claim batch p.outbox in
      rw
        (
          backlog-publish_all redis persister codec (fan_out redis codec rows) p.streams
              (omega (arith, length-fan_out redis codec rows, length-claim batch p.outbox)),
          for_firehose-fan_out redis codec rows,
          length-append,
          length-map (λ (r : OutboxRecord). codec.dumps r.envelope) rows,
        )
        refl

  run_events-metrics_step :
      (p : Plane redis codec prometheus)
      → (metrics_step redis codec prometheus p).run_events ≡ p.run_events
  unfolding metrics_step
  run_events-metrics_step p = refl

  run_events-pump_events :
      (now : ℕ) (p : Plane redis codec prometheus)
      → (pump_events redis codec prometheus now p).run_events
        ≡ (persist_step redis codec prometheus
            (relay_step redis codec prometheus default_batch now p)).run_events
  unfolding pump_events
  run_events-pump_events now p =
      let q = relay_step redis codec prometheus default_batch now p in
      elim (Bool-cases (is_some (pump_persister redis codec q.run_events q.streams).count)) [
        | inl e ↦ rw e (run_events-metrics_step (persist_step redis codec prometheus q))
        | inr e ↦ rw e refl
      ]

  relayed-relay_step :
      (batch now : ℕ) (p : Plane redis codec prometheus)
      → Keyed p.outbox
      → length (unrelayed p.outbox) ≤ batch
      → (i : ℕ) (r : OutboxRecord) → find i p.outbox ≡ some r
      → (q : OutboxRecord) × (find i (relay_step redis codec prometheus batch now p).outbox
          ≡ some q)
        × (is_some q.relayed_at ≡ true)
        × (q.envelope ≡ r.envelope)
  unfolding relay_step drain
  relayed-relay_step batch now p h len i r f =
      let rows = claim batch p.outbox in
      let same = written-mark_all i now rows p.outbox in
      elim (Option-cases (find i (mark_all now rows p.outbox))) [
        | inl n ↦ absurd (ground (arith, same))
        | inr (q, g) ↦ (q, g, drained_all i batch now q p.outbox h len g, ground (arith, same))
      ]

  -- A round of the pumps, with no more events waiting than it takes at a time, brings every event of
  -- the outbox into `run_events`.
  pub find-pump_events :
      (now : ℕ) (p : Plane redis codec prometheus)
      → IsSound p
      → length (unrelayed p.outbox) + length (backlog redis persister p.streams) ≤ default_batch
      → (i : ℕ) (r : OutboxRecord) → find i p.outbox ≡ some r
      → find i (pump_events redis codec prometheus now p).run_events ≡ some r.envelope
  find-pump_events now p s len i r f =
      let q = relay_step redis codec prometheus default_batch now p in
      let room : HasRoom redis codec prometheus default_batch p = omega arith in
      let sound : IsSound {redis = redis} {codec = codec} {prometheus = prometheus} q =
        Step-IsSound redis codec prometheus law (Step.relay p default_batch now room) s in
      let less : length (backlog redis persister q.streams) ≤ consumer_batch = omega (
        arith,
        length-relay_step default_batch now p room,
        length-claimed default_batch p.outbox,
      ) in
      let (x, g, m, same) = relayed-relay_step default_batch now p s.keyed (omega arith) i r f in
      ap (find i) (run_events-pump_events now p)
      ∙ relayed-persist_step q sound less i x g m
      ∙ ap some same
