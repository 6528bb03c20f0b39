-- ===== src/Platform/EventPlane/Loss.antt =====
-- What a persister that dies between its read and its commit has taken is never read again.
use spidey.Base.{
  ℕ, zero, suc, ◌≤◌, ◌≡◌, refl, ap, ◌∙◌, true, false, none, some, List, [], ◌∷◌, ◌++◌, ◌==◌,
  is_some, Table, find, length, map, arith, Bool-cases, inl, inr, take, drop, All, length-take,
}
use mathlib.Core.List.{map-append}
use spidey.Platform.Outbox.{Event, OutboxRecord, firehose, pending_record}
use spidey.Platform.Streams.{Redis, ensure_group}
use spidey.Platform.Streams.Backlog.{backlog, backlog-ensure_group, backlog-read_group}
use spidey.Platform.Relay.{Codec, drain, drain_cut, claim, mark_all, fan_out}
use spidey.Platform.Relay.Claims.{Keyed, Stands, is_row, All-claim, find-mark_all, Keyed-mark_all}
use spidey.Platform.Relay.Publishing.{backlog-publish_all, for_firehose-fan_out, length-fan_out}
use spidey.Platform.Consumers.{
  Prometheus, Plane, relay_step, persist_step, metrics_step, persister, consumer_batch, pump_cut,
  worker,
}
use spidey.Platform.Consumers.Persisting.{first, find-log_all, pump_persister_lem}
use spidey.Platform.EventPlane.{Step, Steps, IsSound, HasRoom, is_event}
use spidey.Platform.EventPlane.Growth.{
  envelopes, map-envelopes, is_event-envelopes, is_event-append, is_event-take, for_firehose-take,
  length-claim,
}
use spidey.Platform.EventPlane.Invariant.{add_lem, backlog-pump_metrics}

-- The event is marked as relayed, but neither waits nor stands in the log.
record IsLost {Content : Type 0} {redis : Redis Content} {codec : Codec Content}
    {prometheus : Prometheus} (i : ℕ) (p : Plane redis codec prometheus) : Type 0 where
  keyed : Keyed p.outbox
  row : OutboxRecord
  stands : find i p.outbox ≡ some row
  relayed : is_some row.relayed_at ≡ true
  waiting : List Event
  queued : backlog redis persister p.streams ≡ map codec.dumps waiting
  absent : is_event i waiting ≡ false
  missing : find i p.run_events ≡ none

is_row-claimed :
    (t : Table OutboxRecord) (i : ℕ) (r : OutboxRecord) (rows : List OutboxRecord)
    → find i t ≡ some r
    → is_some r.relayed_at ≡ true
    → All (Stands t) rows
    → is_row i rows ≡ false
is_row-claimed t i r [] f m a = refl
is_row-claimed t i r (x ∷ rows) f m a = elim (Bool-cases (x.event_id == i)) [
  | inl e ↦ let q : x.event_id ≡ i = ground arith in absurd (ground (arith, a.0.0, a.0.2))
  | inr e ↦ rw e (is_row-claimed t i r rows f m a.1)
]

drop_all {ℓ} : {A : Type ℓ} (n : ℕ) (xs : List A) → length xs ≤ n → drop n xs ≡ []
drop_all zero [] h = refl
drop_all zero (x ∷ xs) h = absurd (omega arith)
drop_all (suc n) [] h = refl
drop_all (suc n) (x ∷ xs) h = drop_all n xs (omega arith)

absent_parts :
    (i n : ℕ) (es : List Event)
    → is_event i es ≡ false
    → (first i (take n es) ≡ none) × (is_event i (drop n es) ≡ false)
absent_parts i n es h = ground (arith, is_event-take i n es)

stands-add :
    (e : Event) (now : ℕ) (o : Table OutboxRecord) (i : ℕ) (r : OutboxRecord)
    → find e.event_id o ≡ none
    → find i o ≡ some r
    → find i ((e.event_id, pending_record e now) ∷ o) ≡ some r
stands-add e now o i r fresh f = elim (Bool-cases (i == e.event_id)) [
  | inl same ↦ let q : i ≡ e.event_id = ground arith in absurd (ground (arith, f, fresh))
  | inr other ↦ rw other f
]

module _ {Content : Type 0} (redis : Redis Content) (codec : Codec Content)
    (prometheus : Prometheus) (i : ℕ) where
  -- What the relay publishes holds no event that is relayed already.
  behind :
      (p : Plane redis codec prometheus) (l : IsLost i p) (t : Table OutboxRecord)
      (streams : redis.State) (es : List Event) (r : OutboxRecord)
      → Keyed t
      → find i t ≡ some r
      → is_some r.relayed_at ≡ true
      → backlog redis persister streams ≡ backlog redis persister p.streams ++ map codec.dumps es
      → is_event i es ≡ false
      → IsLost {redis = redis} {codec = codec} {prometheus = prometheus} i
          (record p { outbox = t; streams = streams })
  behind p l t streams es r k f m more none_of = record {
    keyed = k;
    row = r;
    stands = f;
    relayed = m;
    waiting = l.waiting ++ es;
    queued = more ∙ rw (l.queued, map-append) refl;
    absent = ground (arith, is_event-append i l.waiting es, l.absent);
    missing = l.missing;
  }

  relay-IsLost :
      (batch now : ℕ) (p : Plane redis codec prometheus)
      → HasRoom redis codec prometheus batch p
      → IsLost i p
      → IsLost i (relay_step redis codec prometheus batch now p)
  unfolding relay_step drain
  relay-IsLost batch now p h l =
      let rows = claim batch p.outbox in
      let ok = All-claim batch p.outbox l.keyed in
      let unclaimed = is_row-claimed p.outbox i l.row rows l.stands l.relayed ok in
      behind p l (mark_all now rows p.outbox) _ (envelopes rows) l.row
        (Keyed-mark_all now rows p.outbox l.keyed)
        (find-mark_all i now rows p.outbox ∙ rw unclaimed l.stands) l.relayed
        (backlog-publish_all redis persister codec (fan_out redis codec rows) p.streams
            (omega (arith, length-fan_out redis codec rows, length-claim batch p.outbox))
          ∙ ap (λ xs. backlog redis persister p.streams ++ xs)
              (for_firehose-fan_out redis codec rows ∙ map-envelopes codec rows))
        (is_event-envelopes p.outbox i rows ok ∙ unclaimed)

  relay_cut-IsLost :
      (batch sent : ℕ) (p : Plane redis codec prometheus)
      → HasRoom redis codec prometheus batch p
      → IsLost i p
      → IsLost {redis = redis} {codec = codec} {prometheus = prometheus} i
          (record p { streams = drain_cut redis codec batch sent p.outbox p.streams })
  unfolding drain_cut
  relay_cut-IsLost batch sent p h l =
      let rows = claim batch p.outbox in
      let ok = All-claim batch p.outbox l.keyed in
      let (k, q) = for_firehose-take redis codec sent rows in
      let unclaimed =
        is_event-envelopes p.outbox i rows ok
        ∙ is_row-claimed p.outbox i l.row rows l.stands l.relayed ok in
      behind p l p.outbox _ (take k (envelopes rows)) l.row l.keyed l.stands l.relayed
        (backlog-publish_all redis persister codec (take sent (fan_out redis codec rows)) p.streams
            (omega (
              arith,
              length-take sent (fan_out redis codec rows),
              length-fan_out redis codec rows,
              length-claim batch p.outbox,
            ))
          ∙ ap (λ xs. backlog redis persister p.streams ++ xs) q)
        (ground (arith, is_event-take i k (envelopes rows)))

  module _ (law : (e : Event) → codec.validate (codec.dumps e) ≡ some e) where
    Step-IsLost :
        {p q : Plane redis codec prometheus}
        → Step redis codec prometheus p q
        → IsLost i p
        → IsLost i q
    unfolding persist_step metrics_step
    Step-IsLost (Step.produce p e now {t} h) l = record {
      keyed = rw ((add_lem e now p.outbox h).1) (refl, refl, (add_lem e now p.outbox h).0, l.keyed);
      row = l.row;
      stands =
          let (fresh, eq) = add_lem e now p.outbox h in
          rw eq (stands-add e now p.outbox i l.row fresh l.stands);
      relayed = l.relayed;
      waiting = l.waiting;
      queued = l.queued;
      absent = l.absent;
      missing = l.missing;
    }
    Step-IsLost (Step.relay p batch now h) l = relay-IsLost batch now p h l
    Step-IsLost (Step.relay_cut p batch sent h) l = relay_cut-IsLost batch sent p h l
    Step-IsLost (Step.pump p) l =
        let done = pump_persister_lem redis codec law l.waiting p.run_events p.streams l.queued in
        let none_of = absent_parts i consumer_batch l.waiting l.absent in
        record {
          keyed = l.keyed;
          row = l.row;
          stands = l.stands;
          relayed = l.relayed;
          waiting = drop consumer_batch l.waiting;
          queued = done.1;
          absent = none_of.1;
          missing =
              ap (find i) done.0
              ∙ find-log_all i (take consumer_batch l.waiting) p.run_events
              ∙ rw (l.missing, none_of.0) refl;
        }
    Step-IsLost (Step.count p) l = record {
      keyed = l.keyed;
      row = l.row;
      stands = l.stands;
      relayed = l.relayed;
      waiting = l.waiting;
      queued = backlog-pump_metrics redis codec prometheus p.counters p.streams ∙ l.queued;
      absent = l.absent;
      missing = l.missing;
    }

    Steps-IsLost :
        {p q : Plane redis codec prometheus}
        → IsLost i p
        → Steps redis codec prometheus p q
        → IsLost i q
    Steps-IsLost l Steps.here = l
    Steps-IsLost l (Steps.next r st) = Step-IsLost st (Steps-IsLost l r)

    -- If the persister of a sound plane dies after it has read everything that waits and before it
    -- commits, an event of the outbox that is marked as relayed and that `run_events` does not hold never
    -- gets there, whatever writes, relay runs and pumps follow.
    pub pump_cut-Steps :
        (p : Plane redis codec prometheus)
        → IsSound p
        → length (backlog redis persister p.streams) ≤ consumer_batch
        → (r : OutboxRecord) → find i p.outbox ≡ some r
        → is_some r.relayed_at ≡ true
        → find i p.run_events ≡ none
        → {q : Plane redis codec prometheus}
        → Steps redis codec prometheus (pump_cut redis codec prometheus p) q
        → find i q.run_events ≡ none
    unfolding pump_cut
    pump_cut-Steps p s len r f m gone st = (Steps-IsLost start st).missing
      where
        start : IsLost i (pump_cut redis codec prometheus p)
        start = record {
          keyed = s.keyed;
          row = r;
          stands = f;
          relayed = m;
          waiting = [];
          queued =
              backlog-read_group redis persister worker consumer_batch
                (ensure_group redis firehose persister p.streams)
              ∙ rw (backlog-ensure_group redis persister persister p.streams)
                  (drop_all consumer_batch (backlog redis persister p.streams) len);
          absent = refl;
          missing = gone;
        }
