-- ===== src/Base/Action/Rules.antt =====
-- A sequence of calls that succeeded, taken apart.
use mathlib.Core.Path.{◌≡◌, refl, ap}
use native.Mathlib.Omega.{arith}
use mathlib.Core.Bool.{Bool, true, false}
use spidey.Base.Action.{Action, Result, ok, err, raise_if, ◌>>=◌}
use spidey.Platform.Errors.{Error}

-- A sequence that succeeds has two parts that succeed.
pub >>=-eq-ok :
    {S A B : Type 0} (m : Action S A) (f : A → Action S B) (s : S) {b : B} {t : S}
    → (m >>= f) s ≡ (ok b, t)
    → (a : A) × (u : S) × (m s ≡ (ok a, u)) × (f a u ≡ (ok b, t))
>>=-eq-ok {S} {A} {B} m f s {b} {t} e = go (m s) refl e
  where
    go :
        (p : Result A × S)
        → m s ≡ p
        → elim p.0 [ ok a ↦ f a p.1 | err x ↦ (err x, p.1) ] ≡ (ok b, t)
        → (a : A) × (u : S) × (m s ≡ (ok a, u)) × (f a u ≡ (ok b, t))
    go (ok a, u) q h = (a, u, q, h)
    go (err x, u) q h = absurd (ground arith)

-- A sequence behind a part whose result is known.
pub >>=-ok :
    {S A B : Type 0} (m : Action S A) (f : A → Action S B) (s : S) {a : A} {t : S}
    → m s ≡ (ok a, t)
    → (m >>= f) s ≡ f a t
>>=-ok {S} {A} {B} m f s e =
    ap
      (λ (p : Result A × S). elim p.0 as (λ _. Result B × S) [
        | ok a ↦ f a p.1
        | err x ↦ (err x, p.1)
      ])
      e

pub >>=-err :
    {S A B : Type 0} (m : Action S A) (f : A → Action S B) (s : S) {x : Error} {t : S}
    → m s ≡ (err x, t)
    → (m >>= f) s ≡ (err x, t)
>>=-err {S} {A} {B} m f s e =
    ap
      (λ (p : Result A × S). elim p.0 as (λ _. Result B × S) [
        | ok a ↦ f a p.1
        | err x ↦ (err x, p.1)
      ])
      e

-- A call that keeps a property of the state, however it ends.
abbrev pub Keeps : {S A : Type 0} → (S → Type 0) → Action S A → Type 0
Keeps {S} Q m = (s : S) → Q s → Q (m s).1

pub >>=-Keeps :
    {S A B : Type 0} (Q : S → Type 0) (m : Action S A) (f : A → Action S B)
    → Keeps Q m
    → ((a : A) → Keeps Q (f a))
    → Keeps Q (m >>= f)
>>=-Keeps {S} {A} {B} Q m f first then s q = go (m s) (first s q)
  where
    go :
        (p : Result A × S)
        → Q p.1
        → Q (elim p.0 as (λ _. Result B × S) [ ok a ↦ f a p.1 | err x ↦ (err x, p.1) ]).1
    go (ok a, t) h = then a t h
    go (err x, t) h = h

pub raise_if-Keeps :
    {S : Type 0} (Q : S → Type 0) (b : Bool) (e : Error) → Keeps Q (raise_if {S = S} b e)
raise_if-Keeps Q true e s q = q
raise_if-Keeps Q false e s q = q
