-- ===== src/Platform/EventPlane.antt =====
-- The event plane as a whole: producers, backend/src/spidey/platform/events/relay.py and
-- backend/src/spidey/platform/events/consumers.py, by the steps that the processes take, and the log that
-- they implement. A step of the relay asks for room on the firehose, which `MAXLEN` caps.
pub mod Growth
pub mod Invariant
pub mod Refinement
pub mod Arrival
pub mod Loss
use spidey.Base.{
  ℕ, ◌+◌, ◌*◌, ◌≤◌, ◌≡◌, String, Bool, true, ◌||◌, Option, none, some, List, [], ◌∷◌, ◌==◌,
  if◌then◌else◌, is_some, Table, find, map_option, or_else, length, map, All,
}
use spidey.Platform.Outbox.{Event, OutboxRecord, add}
use spidey.Platform.Streams.{Redis, default_maxlen}
use spidey.Platform.Streams.Backlog.{backlog}
use spidey.Platform.Relay.{Codec, drain_cut}
use spidey.Platform.Relay.Claims.{Keyed}
use spidey.Platform.Consumers.{Prometheus, Plane, relay_step, persist_step, metrics_step, persister}
use spidey.Platform.Consumers.Persisting.{first, Distinct, Recorded}

abbrev pub written : Table OutboxRecord → ℕ → Option Event
written t i = map_option (λ r. r.envelope) (find i t)

module _ {Content : Type 0} (redis : Redis Content) (codec : Codec Content)
    (prometheus : Prometheus) where
  -- A batch finds room behind what the persister has still to read.
  abbrev pub HasRoom : (batch : ℕ) → Plane redis codec prometheus → Type 0
  HasRoom batch p = 2 * batch + length (backlog redis persister p.streams) ≤ default_maxlen

  -- The steps that lose nothing. A task that dies between two of its pumps has taken the first.
  pub data Step : Plane redis codec prometheus → Plane redis codec prometheus → Type 0 where
    produce :
        (p : Plane redis codec prometheus) (e : Event) (now : ℕ) {t : Table OutboxRecord}
        → add e now p.outbox ≡ some t
        → Step p (record p { outbox = t })
    relay :
        (p : Plane redis codec prometheus) (batch now : ℕ)
        → HasRoom batch p
        → Step p (relay_step redis codec prometheus batch now p)
    -- The relay dies after it has published some messages.
    relay_cut :
        (p : Plane redis codec prometheus) (batch sent : ℕ)
        → HasRoom batch p
        → Step p (record p { streams = drain_cut redis codec batch sent p.outbox p.streams })
    pump : (p : Plane redis codec prometheus) → Step p (persist_step redis codec prometheus p)
    count : (p : Plane redis codec prometheus) → Step p (metrics_step redis codec prometheus p)

  pub data Steps (p : Plane redis codec prometheus) : Plane redis codec prometheus → Type 0 where
    here : Steps p p
    next : {q r : Plane redis codec prometheus} → Steps p q → Step q r → Steps p r

-- The abstract log: what was written, and what the spine holds of it.
pub record View : Type 0 where
  pub written : ℕ → Option Event
  pub logged : ℕ → Option Event

abbrev pub view :
    {Content : Type 0} {redis : Redis Content} {codec : Codec Content} {prometheus : Prometheus}
    → Plane redis codec prometheus
    → View
view p = record { written = written p.outbox; logged = λ i. find i p.run_events }

-- The log may take over any written events at any time; it forgets and changes none.
pub data Spec : View → View → Type 0 where
  write :
      (v : View) (e : Event)
      → v.written e.event_id ≡ none
      → Spec v (record v { written = λ i. if i == e.event_id then some e else v.written i })
  log :
      (v : View) (es : List Event)
      → All (Recorded v.written) es
      → Spec v (record v { logged = λ i. or_else (v.logged i) (first i es) })

-- An event of the batch has the id.
abbrev pub is_event : ℕ → List Event → Bool
is_event i es = is_some (first i es)

-- What every step keeps. Whatever is relayed waits for the persister or stands in `run_events`.
module _ {Content : Type 0} {redis : Redis Content} {codec : Codec Content}
    {prometheus : Prometheus} where
  pub record IsSound (p : Plane redis codec prometheus) : Type 0 where
    pub keyed : Keyed p.outbox
    pub distinct : Distinct p.run_events
    pub waiting : List Event
    pub queued : backlog redis persister p.streams ≡ map codec.dumps waiting
    pub recorded : All (Recorded (written p.outbox)) waiting
    pub logged : (i : ℕ) (e : Event) → find i p.run_events ≡ some e → written p.outbox i ≡ some e
    pub covered :
        (i : ℕ) (r : OutboxRecord)
        → find i p.outbox ≡ some r
        → is_some r.relayed_at ≡ true
        → (is_some (find i p.run_events) || is_event i waiting) ≡ true
