-- ===== src/Platform/Consumers/Persisting.antt =====
-- What a pump of the persister leaves in `run_events` and on the stream.
use spidey.Base.{
  ℕ, zero, suc, ◌≡◌, refl, subst, ◌∙◌, Option, none, some, List, [], ◌∷◌, ◌==◌, if◌then◌else◌,
  is_some, Table, find, add_row, or_else, find-add_row, take, drop, map, All, arith, Bool-cases,
  Option-cases, inl, inr,
}
use spidey.Platform.Outbox.{Event, firehose}
use spidey.Platform.Streams.{Redis, read_group, ensure_group}
use spidey.Platform.Streams.Backlog.{
  contents, backlog, backlog-ensure_group, backlog-ack_all, Answers, read_group-Answers,
  backlog-read_group,
}
use spidey.Platform.Relay.{Codec}
use spidey.Platform.Consumers.{
  persist, persist_all, pump_persister, consumer_batch, persister, worker, persist_read,
  persist_batch, commit_batch,
}

-- `run_events` after the events of a batch.
abbrev pub log_all : List Event → Table Event → Table Event
log_all [] t = t
log_all (e ∷ es) t = log_all es (persist e t)

-- The first event of an id.
abbrev pub first : ℕ → List Event → Option Event
first i [] = none
first i (e ∷ es) = if i == e.event_id then some e else first i es

-- The rows stand behind their keys, once each.
abbrev pub Distinct : Table Event → Type 0
Distinct [] = Unit
Distinct ((k, _) ∷ t) = (find k t ≡ none) × Distinct t

-- The event is the one that was written under its id.
abbrev pub Recorded : (ℕ → Option Event) → Event → Type 0
Recorded w e = w e.event_id ≡ some e

find-persist :
    (i : ℕ) (e : Event) (t : Table Event)
    → find i (persist e t) ≡ or_else (find i t) (if i == e.event_id then some e else none)
unfolding persist
find-persist i e t = elim (Option-cases (find e.event_id t)) [
  | inl n ↦ rw (n, is_some) (find-add_row i e.event_id e t)
  | inr (x, q) ↦
      rw (q, is_some)
        (elim (Bool-cases (i == e.event_id)) [
          | inl s ↦ let same : i ≡ e.event_id = ground arith in rw (same, q) refl
          | inr d ↦ elim (Option-cases (find i t)) [
            | inl n ↦ rw (d, n) refl
            | inr (y, m) ↦ rw (d, m) refl
          ]
        ])
]

pub find-log_all :
    (i : ℕ) (es : List Event) (t : Table Event)
    → find i (log_all es t) ≡ or_else (find i t) (first i es)
find-log_all i [] t = ground arith
find-log_all i (e ∷ es) t = ground (arith, find-log_all i es (persist e t), find-persist i e t)

Distinct-add_row :
    (k : ℕ) (e : Event) (t : Table Event) → find k t ≡ none → Distinct t → Distinct (add_row k e t)
Distinct-add_row k e [] f d = (refl, tt)
Distinct-add_row k e ((j, x) ∷ t) f d =
    ground (arith, Distinct-add_row k e t, d, find-add_row j k e t)

Distinct-persist : (e : Event) (t : Table Event) → Distinct t → Distinct (persist e t)
unfolding persist
Distinct-persist e t d = elim (Option-cases (find e.event_id t)) [
  | inl n ↦ rw (n, is_some) (Distinct-add_row e.event_id e t n d)
  | inr (x, q) ↦ rw (q, is_some) d
]

pub Distinct-log_all : (es : List Event) (t : Table Event) → Distinct t → Distinct (log_all es t)
Distinct-log_all [] t d = d
Distinct-log_all (e ∷ es) t d = Distinct-log_all es (persist e t) (Distinct-persist e t d)

pub first-Recorded :
    (w : ℕ → Option Event) (i : ℕ) (es : List Event) {e : Event}
    → All (Recorded w) es
    → first i es ≡ some e
    → w i ≡ some e
first-Recorded w i [] a q = absurd (ground arith)
first-Recorded w i (x ∷ es) a q = elim (Bool-cases (i == x.event_id)) [
  | inl s ↦ let same : i ≡ x.event_id = ground arith in ground (arith, a.0)
  | inr d ↦ first-Recorded w i es a.1 (ground arith)
]

pub take-map :
    (n : ℕ) {Content : Type 0} (f : Event → Content) (es : List Event)
    → take n (map f es) ≡ map f (take n es)
take-map zero f es = refl
take-map (suc n) f [] = refl
take-map (suc n) f (e ∷ es) = simp (take-map n f es)

pub drop-map :
    (n : ℕ) {Content : Type 0} (f : Event → Content) (es : List Event)
    → drop n (map f es) ≡ map f (drop n es)
drop-map zero f es = refl
drop-map (suc n) f [] = refl
drop-map (suc n) f (e ∷ es) = drop-map n f es

module _ {Content : Type 0} (redis : Redis Content) (codec : Codec Content)
    (law : (e : Event) → codec.validate (codec.dumps e) ≡ some e) where
  persist_all-dumps :
      (ms : List (ℕ × Content)) (es : List Event) (t : Table Event)
      → contents ms ≡ map codec.dumps es
      → persist_all codec ms t ≡ some (log_all es t)
  unfolding persist_all
  persist_all-dumps [] [] t q = refl
  persist_all-dumps [] (e ∷ es) t q = absurd (ground arith)
  persist_all-dumps (m ∷ ms) [] t q = absurd (ground arith)
  persist_all-dumps ((mid, c) ∷ ms) (e ∷ es) t q =
      let hd : c ≡ codec.dumps e = cc in
      let tl : contents ms ≡ map codec.dumps es = cc in
      rw (hd, persist_all, law e) (persist_all-dumps ms es (persist e t) tl)

  persist_batch_lem :
      (ms : List (ℕ × Content)) (es : List Event) (t : Table Event) (s : redis.State)
      → contents ms ≡ map codec.dumps es
      → ((persist_batch redis codec ms t s).sink ≡ log_all es t)
        × (backlog redis persister (persist_batch redis codec ms t s).streams
            ≡ backlog redis persister s)
  persist_batch_lem ms es t s q =
      rw (persist_all-dumps ms es t q, commit_batch)
        (refl, backlog-ack_all redis persister firehose persister ms s)

  persist_read_lem :
      (answer : Option (List (ℕ × Content))) (es : List Event) (t : Table Event) (s : redis.State)
      → Answers redis persister answer (map codec.dumps es)
      → ((persist_read redis codec answer t s).sink ≡ log_all es t)
        × (backlog redis persister (persist_read redis codec answer t s).streams
            ≡ backlog redis persister s)
  persist_read_lem none [] t s q = (refl, refl)
  persist_read_lem none (e ∷ es) t s q = absurd (ground arith)
  persist_read_lem (some ms) es t s q = persist_batch_lem ms es t s q.0

  pub pump_persister_lem :
      (es : List Event) (t : Table Event) (s : redis.State)
      → backlog redis persister s ≡ map codec.dumps es
      → ((pump_persister redis codec t s).sink ≡ log_all (take consumer_batch es) t)
        × (backlog redis persister (pump_persister redis codec t s).streams
            ≡ map codec.dumps (drop consumer_batch es))
  unfolding pump_persister
  pump_persister_lem es t s q =
      let s0 = ensure_group redis firehose persister s in
      let answer = (read_group redis firehose persister worker consumer_batch s0).0 in
      let s1 = (read_group redis firehose persister worker consumer_batch s0).1 in
      let read : Answers redis persister answer (map codec.dumps (take consumer_batch es)) =
        subst (Answers redis persister answer)
          (rw (backlog-ensure_group redis persister persister s, q)
            (take-map consumer_batch codec.dumps es))
          (read_group-Answers redis persister worker consumer_batch s0) in
      let left : backlog redis persister s1 ≡ map codec.dumps (drop consumer_batch es) =
        backlog-read_group redis persister worker consumer_batch s0
        ∙ rw (backlog-ensure_group redis persister persister s, q)
            (drop-map consumer_batch codec.dumps es) in
      let b = persist_read_lem answer (take consumer_batch es) t s1 read in (b.0, b.1 ∙ left)
