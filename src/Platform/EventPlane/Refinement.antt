-- ===== src/Platform/EventPlane/Refinement.antt =====
-- The event plane implements the abstract log, and every event arrives there.
use mathlib.Core.Path.{fun_ext}
use spidey.Base.{
  ℕ, ◌≡◌, refl, sym, ap, subst, ◌∙◌, Option, none, some, [], find, or_else, arith, take,
}
use spidey.Platform.Outbox.{Event}
use spidey.Platform.Streams.{Redis}
use spidey.Platform.Relay.{Codec, claim, drain}
use spidey.Platform.Relay.Claims.{All-take}
use spidey.Platform.Consumers.{
  Prometheus, Plane, relay_step, persist_step, metrics_step, consumer_batch,
}
use spidey.Platform.Consumers.Persisting.{Recorded, find-log_all, pump_persister_lem}
use spidey.Platform.EventPlane.{written, view, View, Spec, Step, IsSound}
use spidey.Platform.EventPlane.Growth.{written-mark_all}
use spidey.Platform.EventPlane.Invariant.{add_lem}

View-ext :
    (v u : View)
    → ((i : ℕ) → v.written i ≡ u.written i)
    → ((i : ℕ) → v.logged i ≡ u.logged i)
    → v ≡ u
View-ext v u f g = λ j. record { written = (fun_ext f) j; logged = (fun_ext g) j }

-- A step that the log does not see.
Spec-same :
    (v u : View)
    → ((i : ℕ) → v.written i ≡ u.written i)
    → ((i : ℕ) → v.logged i ≡ u.logged i)
    → Spec v u
Spec-same v u f g =
    subst (Spec v)
      (View-ext (record v { logged = λ i. or_else (v.logged i) none }) u f
        (λ i. or_else_none (v.logged i) ∙ g i))
      (Spec.log v [] tt)
  where
    or_else_none : (o : Option Event) → or_else o none ≡ o
    or_else_none none = refl
    or_else_none (some e) = refl

module _ {Content : Type 0} (redis : Redis Content) (codec : Codec Content)
    (prometheus : Prometheus) (law : (e : Event) → codec.validate (codec.dumps e) ≡ some e) where
  -- Every step of a sound plane, a relay that dies halfway included, is a step of the abstract log: it
  -- writes a fresh event, or the log takes over written events that it does not hold, or neither changes.
  pub Step-Spec :
      {p q : Plane redis codec prometheus}
      → IsSound p
      → Step redis codec prometheus p q
      → Spec (view p) (view q)
  unfolding relay_step drain persist_step metrics_step
  Step-Spec s (Step.produce p e now {t} h) =
      let (fresh, eq) = add_lem e now p.outbox h in
      subst (Spec (view p))
        (View-ext _ (view (record p { outbox = t })) (λ i. rw eq (ground arith)) (λ i. refl))
        (Spec.write (view p) e (rw fresh refl))
  Step-Spec s (Step.relay p batch now h) =
      Spec-same (view p) _ (λ i. sym (written-mark_all i now (claim batch p.outbox) p.outbox))
        (λ i. refl)
  Step-Spec s (Step.relay_cut p batch sent h) = Spec-same (view p) _ (λ i. refl) (λ i. refl)
  Step-Spec s (Step.pump p) =
      let es = take consumer_batch s.waiting in
      let done = pump_persister_lem redis codec law s.waiting p.run_events p.streams s.queued in
      subst (Spec (view p))
        (View-ext _ (view (persist_step redis codec prometheus p)) (λ i. refl)
          (λ i. sym (ap (find i) done.0 ∙ find-log_all i es p.run_events)))
        (Spec.log (view p) es
          (All-take (Recorded (written p.outbox)) consumer_batch s.waiting s.recorded))
  Step-Spec s (Step.count p) = Spec-same (view p) _ (λ i. refl) (λ i. refl)
