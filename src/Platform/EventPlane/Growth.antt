-- ===== src/Platform/EventPlane/Growth.antt =====
-- The steps of the relay put events of the outbox behind those that wait.
use spidey.Base.{
  ℕ, zero, suc, ◌≤◌, ◌≡◌, refl, sym, ap, ◌∙◌, true, ◌||◌, Option, some, List, [], ◌∷◌, ◌++◌,
  is_some, Table, find, length, map, All, All-append, arith, Bool-cases, subst, ◌⊎◌, str_eq, inl,
  inr, take, drop, length-take,
}
use mathlib.Core.List.{map-append}
use mathlib.Core.Path.{fun_ext}
use spidey.Platform.Outbox.{firehose, Event, OutboxRecord}
use spidey.Platform.Streams.{Redis}
use spidey.Platform.Streams.Backlog.{backlog, for_firehose}
use spidey.Platform.Relay.{Codec, drain, drain_cut, claim, mark_all, fan_out, unrelayed}
use spidey.Platform.Relay.Claims.{
  Keyed, Stands, is_row, All-claim, find-mark_all, Keyed-mark_all, All-take,
}
use spidey.Platform.Relay.Publishing.{backlog-publish_all, for_firehose-fan_out, length-fan_out}
use spidey.Platform.Consumers.{Prometheus, Plane, relay_step, persister}
use spidey.Platform.Consumers.Persisting.{Recorded}
use spidey.Platform.EventPlane.{written, HasRoom, IsSound, is_event}

-- Marks change no event.
pub written-mark_all :
    (i now : ℕ) (rows : List OutboxRecord) (t : Table OutboxRecord)
    → written (mark_all now rows t) i ≡ written t i
written-mark_all i now rows t = ground (arith, find-mark_all i now rows t)

unfoldable pub envelopes : List OutboxRecord → List Event
envelopes [] = []
envelopes (r ∷ rows) = r.envelope ∷ envelopes rows

pub Recorded-envelopes :
    (t : Table OutboxRecord) (rows : List OutboxRecord)
    → All (Stands t) rows
    → All (Recorded (written t)) (envelopes rows)
unfolding envelopes
Recorded-envelopes t [] a = tt
Recorded-envelopes t (r ∷ rows) a = (simp (a.0.1, a.0.0), Recorded-envelopes t rows a.1)

pub map-envelopes :
    {Content : Type 0} (codec : Codec Content) (rows : List OutboxRecord)
    → map (λ (r : OutboxRecord). codec.dumps r.envelope) rows ≡ map codec.dumps (envelopes rows)
unfolding envelopes
map-envelopes codec [] = refl
map-envelopes codec (r ∷ rows) = ap (λ xs. codec.dumps r.envelope ∷ xs) (map-envelopes codec rows)

pub is_event-envelopes :
    (t : Table OutboxRecord) (i : ℕ) (rows : List OutboxRecord)
    → All (Stands t) rows
    → is_event i (envelopes rows) ≡ is_row i rows
unfolding envelopes
is_event-envelopes t i [] a = refl
is_event-envelopes t i (r ∷ rows) a = ground (arith, a.0.1, is_event-envelopes t i rows a.1)

pub is_event-append :
    (i : ℕ) (xs ys : List Event) → is_event i (xs ++ ys) ≡ (is_event i xs || is_event i ys)
is_event-append i [] ys = refl
is_event-append i (x ∷ xs) ys = ground (arith, is_event-append i xs ys)

pub is_event-take :
    (i n : ℕ) (es : List Event) → is_event i es ≡ (is_event i (take n es) || is_event i (drop n es))
is_event-take i zero es = refl
is_event-take i (suc n) [] = refl
is_event-take i (suc n) (e ∷ es) = ground (arith, is_event-take i n es)

pub All-drop : (P : Event → Type 0) (n : ℕ) (es : List Event) → All P es → All P (drop n es)
All-drop P zero es a = a
All-drop P (suc n) [] a = tt
All-drop P (suc n) (e ∷ es) a = All-drop P n es a.1

pub for_firehose-take :
    {Content : Type 0} (redis : Redis Content) (codec : Codec Content) (n : ℕ)
    (rows : List OutboxRecord)
    → (k : ℕ) × (for_firehose (take n (fan_out redis codec rows))
        ≡ map codec.dumps (take k (envelopes rows)))
unfolding envelopes
for_firehose-take redis codec zero rows = (0, refl)
for_firehose-take redis codec (suc n) [] = (0, refl)
for_firehose-take redis codec (suc zero) (r ∷ rows) =
    elim (Bool-cases (str_eq r.stream_key firehose)) [
      | inl e ↦ (1, rw e refl)
      | inr e ↦ (1, rw e refl)
    ]
for_firehose-take redis codec (suc (suc n)) (r ∷ rows) =
    elim (Bool-cases (str_eq r.stream_key firehose)) [
      | inl e ↦
          let (k, q) = for_firehose-take redis codec (suc n) rows in
          (suc k, rw e (ap (λ xs. codec.dumps r.envelope ∷ xs) q))
      | inr e ↦
          let (k, q) = for_firehose-take redis codec n rows in
          (suc k, rw (e, e) (ap (λ xs. codec.dumps r.envelope ∷ xs) q))
    ]

pub length-claim : (batch : ℕ) (t : Table OutboxRecord) → length (claim batch t) ≤ batch
unfolding claim
length-claim batch t = omega (arith, length-take batch (unrelayed t))

module _ {Content : Type 0} {redis : Redis Content} {codec : Codec Content}
    {prometheus : Prometheus} (p : Plane redis codec prometheus) (s : IsSound p) where
  open s use {waiting}

  -- More events of the outbox come behind the others, and with them rows that are marked.
  grow :
      (t : Table OutboxRecord) (streams : redis.State) (es : List Event)
      → Keyed t
      → ((i : ℕ) → written t i ≡ written p.outbox i)
      → backlog redis persister streams ≡ backlog redis persister p.streams ++ map codec.dumps es
      → All (Recorded (written p.outbox)) es
      → ((i : ℕ) (r : OutboxRecord)
          → find i t ≡ some r
          → is_some r.relayed_at ≡ true
          → ((is_event i es ≡ true)
              ⊎ ((q : OutboxRecord) × (find i p.outbox ≡ some q) × (is_some q.relayed_at ≡ true))))
      → IsSound (record p { outbox = t; streams = streams })
  grow t streams es keyed same more recorded marked = record {
    keyed = keyed;
    distinct = s.distinct;
    waiting = waiting ++ es;
    queued = more ∙ rw (s.queued, map-append) refl;
    recorded =
        subst (λ (w : ℕ → Option Event). All (Recorded w) (waiting ++ es)) (sym (fun_ext same))
          (All-append (Recorded (written p.outbox)) waiting es s.recorded recorded);
    logged = λ i e h. same i ∙ s.logged i e h;
    covered = λ i r f m. elim (marked i r f m) [
      | inl new ↦ ground (arith, is_event-append i waiting es)
      | inr (q, g, o) ↦ ground (arith, is_event-append i waiting es, s.covered i q g o)
    ];
  }

  pub relay_cut-IsSound :
      (batch sent : ℕ)
      → HasRoom redis codec prometheus batch p
      → IsSound (record p { streams = drain_cut redis codec batch sent p.outbox p.streams })
  unfolding drain_cut
  relay_cut-IsSound batch sent h =
      let rows = claim batch p.outbox in
      let (k, q) = for_firehose-take redis codec sent rows in
      let ok = All-claim batch p.outbox s.keyed in
      grow p.outbox _ (take k (envelopes rows)) s.keyed (λ i. refl)
        (backlog-publish_all redis persister codec (take sent (fan_out redis codec rows)) p.streams
            (omega (
              arith,
              length-take sent (fan_out redis codec rows),
              length-fan_out redis codec rows,
              length-claim batch p.outbox,
            ))
          ∙ ap (λ xs. backlog redis persister p.streams ++ xs) q)
        (All-take (Recorded (written p.outbox)) k (envelopes rows)
          (Recorded-envelopes p.outbox rows ok))
        (λ i r f m. inr (r, f, m))

  pub relay-IsSound :
      (batch now : ℕ)
      → HasRoom redis codec prometheus batch p
      → IsSound (relay_step redis codec prometheus batch now p)
  unfolding relay_step drain
  relay-IsSound batch now h =
      let rows = claim batch p.outbox in
      let ok = All-claim batch p.outbox s.keyed in
      grow (mark_all now rows p.outbox) _ (envelopes rows)
        (Keyed-mark_all now rows p.outbox s.keyed) (λ i. written-mark_all i now rows p.outbox)
        (backlog-publish_all redis persister codec (fan_out redis codec rows) p.streams
            (omega (arith, length-fan_out redis codec rows, length-claim batch p.outbox))
          ∙ ap (λ xs. backlog redis persister p.streams ++ xs)
              (for_firehose-fan_out redis codec rows ∙ map-envelopes codec rows))
        (Recorded-envelopes p.outbox rows ok)
        (λ i r f m. elim (Bool-cases (is_row i rows)) [
          | inl e ↦ inl (is_event-envelopes p.outbox i rows ok ∙ e)
          | inr e ↦ inr (r, ground (arith, find-mark_all i now rows p.outbox), m)
        ])
