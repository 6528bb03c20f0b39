-- ===== src/Base/Rows.antt =====
-- A database table as the list of its rows behind their primary keys, which are numbers.
use Prim.Native.Nat.{ℕ}
use mathlib.Core.Path.{◌≡◌, refl}
use mathlib.Core.List.{List, [], ◌∷◌, ◌++◌}
use mathlib.Core.Option.{Option, none, some}
use native.Mathlib.Omega.{arith}
use spidey.Base.Tests.{◌==◌, if◌then◌else◌}

abbrev pub Table {ℓ} : Type ℓ → Type ℓ
Table V = List (ℕ × V)

abbrev pub map_option {ℓ κ} : {A : Type ℓ} {B : Type κ} → (A → B) → Option A → Option B
map_option f none = none
map_option f (some a) = some (f a)

abbrev pub or_else {ℓ} : {A : Type ℓ} → Option A → Option A → Option A
or_else none b = b
or_else (some a) b = some a

module _ {ℓ} {V : Type ℓ} where
  -- `session.get(Record, key)`.
  abbrev pub find : ℕ → Table V → Option V
  find k [] = none
  find k ((j, v) ∷ t) = if k == j then some v else find k t

  -- A write to the row of a key, which changes nothing where there is none.
  abbrev pub update : ℕ → (V → V) → Table V → Table V
  update k f [] = []
  update k f ((j, v) ∷ t) = if k == j then (j, f v) ∷ t else (j, v) ∷ update k f t

  -- A row that is added stands behind the others.
  abbrev pub add_row : ℕ → V → Table V → Table V
  add_row k v t = t ++ ((k, v) ∷ [])

  -- `INSERT … ON CONFLICT DO UPDATE`.
  abbrev pub upsert : ℕ → V → Table V → Table V
  upsert k v [] = (k, v) ∷ []
  upsert k v ((j, w) ∷ t) = if k == j then (j, v) ∷ t else (j, w) ∷ upsert k v t

  -- A row that is deleted, if it is there.
  abbrev pub delete_row : ℕ → Table V → Table V
  delete_row k [] = []
  delete_row k ((j, v) ∷ t) = let r = delete_row k t in if k == j then r else (j, v) ∷ r

  pub find-delete_row :
      (j k : ℕ) (t : Table V) → find j (delete_row k t) ≡ (if j == k then none else find j t)
  find-delete_row j k [] = ground arith
  find-delete_row j k ((i, v) ∷ t) = ground (arith, find-delete_row j k t)

  pub find-update :
      (j k : ℕ) (f : V → V) (t : Table V)
      → find j (update k f t) ≡ (if j == k then map_option f (find k t) else find j t)
  find-update j k f [] = ground arith
  find-update j k f ((i, v) ∷ t) = ground (arith, find-update j k f t)

  pub find-upsert :
      (j k : ℕ) (v : V) (t : Table V)
      → find j (upsert k v t) ≡ (if j == k then some v else find j t)
  find-upsert j k v [] = refl
  find-upsert j k v ((i, w) ∷ t) = ground (arith, find-upsert j k v t)

  pub find-add_row :
      (j k : ℕ) (v : V) (t : Table V)
      → find j (add_row k v t) ≡ or_else (find j t) (if j == k then some v else none)
  find-add_row j k v [] = ground arith
  find-add_row j k v ((i, w) ∷ t) = ground (arith, find-add_row j k v t)
