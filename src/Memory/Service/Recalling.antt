-- ===== src/Memory/Service/Recalling.antt =====
-- `recall` in backend/src/spidey/memory/application/memory_service.py.
use spidey.Base.{
  refl, arith, ◌⊎◌, not, is_some, ap, ==_iff, ℕ, zero, suc, ◌≡◌, String, Bool, true, Option, none,
  some, List, [], ◌∷◌, ◌==◌, keep, take, All, Bool-cases, inl, inr,
}
use spidey.Memory.Records.{Floats, MemoryKind, MemoryScope, Memory, RecalledMemory}
use spidey.Memory.Store.{
  Rows, is_visible, kind_in, in_workspace, contents_of, insert_memory, by_confidence, candidates,
}
use spidey.Memory.Service.{
  Recall, MemoryWorld, find_memory, add_hit, recalled, recall_from, recall, search,
}

module _ (F : Floats) (P : Memory F → Type 0) where
  keep-All :
      (p : Memory F → Bool) (ms : List (Memory F))
      → All P ms
      → All (λ m. P m × (p m ≡ true)) (keep p ms)
  keep-All p [] h = tt
  keep-All p (m ∷ ms) h = elim (Bool-cases (p m)) [
    | inl e ↦ rw e ((h.0, e), keep-All p ms h.1)
    | inr e ↦ rw e (keep-All p ms h.1)
  ]

  insert_memory-All :
      (m : Memory F) (ms : List (Memory F)) → P m → All P ms → All P (insert_memory F m ms)
  insert_memory-All m [] x h = (x, tt)
  insert_memory-All m (n ∷ ns) x h = elim (Bool-cases (F.below m.confidence n.confidence)) [
    | inl e ↦ rw e (h.0, insert_memory-All m ns x h.1)
    | inr e ↦ rw e (x, h)
  ]

  by_confidence-All : (ms : List (Memory F)) → All P ms → All P (by_confidence F ms)
  by_confidence-All [] h = tt
  by_confidence-All (m ∷ ms) h =
      insert_memory-All m (by_confidence F ms) h.0 (by_confidence-All ms h.1)

  take-All : (n : ℕ) (ms : List (Memory F)) → All P ms → All P (take n ms)
  take-All zero ms h = tt
  take-All (suc n) [] h = tt
  take-All (suc n) (m ∷ ms) h = (h.0, take-All n ms h.1)

candidates-All :
    (F : Floats) (P : Memory F → Type 0) (kinds : List MemoryKind) (scope : MemoryScope)
    (rows : Rows F)
    → All P (contents_of F rows)
    → All (λ m. P m × (is_visible F kinds scope m ≡ true)) (candidates F kinds scope rows)
unfolding candidates
candidates-All F P kinds scope rows h =
    let Q : Memory F → Type 0 = λ m. P m × (is_visible F kinds scope m ≡ true) in
    let kept = keep (is_visible F kinds scope) (contents_of F rows) in
    take-All F Q 500 (by_confidence F kept)
      (by_confidence-All F Q kept (keep-All F P (is_visible F kinds scope) (contents_of F rows) h))

module _ (R : Recall) (P : Memory R.F → Type 0) where
  abbrev Found : Option (Memory R.F) → Type 0
  Found none = Unit
  Found (some m) = P m

  find_memory-Found : (id : ℕ) (ms : List (Memory R.F)) → All P ms → Found (find_memory R id ms)
  find_memory-Found id [] h = tt
  find_memory-Found id (n ∷ ns) h = elim (Bool-cases (n.id == id)) [
    | inl own ↦ rw own h.0
    | inr other ↦ rw other (find_memory-Found id ns h.1)
  ]

  add_hit-All :
      (found : Option (Memory R.F)) (score : R.F.Float) (rest : List (RecalledMemory R.F))
      → Found found
      → All (λ r. P r.memory) rest
      → All (λ r. P r.memory) (add_hit R found score rest)
  add_hit-All none score rest h q = q
  add_hit-All (some m) score rest h q = (h, q)

  recalled-All :
      (pool : List (Memory R.F)) (hits : List (ℕ × R.F.Float))
      → All P pool
      → All (λ r. P r.memory) (recalled R pool hits)
  recalled-All pool [] h = tt
  recalled-All pool ((id, score) ∷ hits) h =
      add_hit-All (find_memory R id pool) score (recalled R pool hits) (find_memory-Found id pool h)
        (recalled-All pool hits h)

-- A memory that a recall may return.
pub record IsRecallable {F : Floats} (kinds : List MemoryKind) (scope : MemoryScope) (m : Memory F)
    : Type 0 where
  pub asked : kind_in m.kind kinds ≡ true
  pub current : m.superseded_by ≡ none
  pub at_home : (m.scope.workspace_id ≡ none) ⊎ (m.scope.workspace_id ≡ scope.workspace_id)

in_workspace_lem :
    (row query : Option ℕ) → in_workspace row query ≡ true → (row ≡ none) ⊎ (row ≡ query)
in_workspace_lem none query h = inl refl
in_workspace_lem (some w) none h = absurd (ground (arith, h))
in_workspace_lem (some w) (some v) h = inr (ap some ((==_iff w v).0 h))

not_some : (o : Option ℕ) → not (is_some o) ≡ true → o ≡ none
not_some none h = refl
not_some (some x) h = absurd (ground (arith, h))

is_visible-IsRecallable :
    (F : Floats) (kinds : List MemoryKind) (scope : MemoryScope) (m : Memory F)
    → is_visible F kinds scope m ≡ true
    → IsRecallable kinds scope m
is_visible-IsRecallable F kinds scope m h = record {
  asked = ground (arith, h);
  current = not_some m.superseded_by (ground (arith, h));
  at_home = in_workspace_lem m.scope.workspace_id scope.workspace_id (ground (arith, h));
}

IsRecallable-All :
    {F : Floats} (P : Memory F → Type 0) (kinds : List MemoryKind) (scope : MemoryScope)
    (ms : List (Memory F))
    → All (λ m. P m × (is_visible F kinds scope m ≡ true)) ms
    → All (λ m. P m × IsRecallable kinds scope m) ms
IsRecallable-All P kinds scope [] h = tt
IsRecallable-All {F} P kinds scope (m ∷ ms) h =
    ((h.0.0, is_visible-IsRecallable F kinds scope m h.0.1), IsRecallable-All P kinds scope ms h.1)

-- Whatever the vector index answers, a recall returns memories of the table alone, each of a kind that was
-- asked for, not superseded, and without a workspace or of the workspace that was asked for.
pub recall-All :
    (R : Recall) (P : Memory R.F → Type 0) (query : String) (kinds : List MemoryKind)
    (scope : MemoryScope) (limit : ℕ) (w : MemoryWorld R)
    → All P (contents_of R.F w.rows)
    → All (λ r. P r.memory × IsRecallable kinds scope r.memory) (recall R query kinds scope limit w)
unfolding recall
recall-All R P query kinds scope limit w h = go (candidates R.F kinds scope w.rows) (
    IsRecallable-All P kinds scope (candidates R.F kinds scope w.rows)
      (candidates-All R.F P kinds scope w.rows h))
  where
    go :
        (pool : List (Memory R.F))
        → All (λ m. P m × IsRecallable kinds scope m) pool
        → All
            (λ r. P r.memory × IsRecallable kinds scope r.memory)
            (recall_from R pool query kinds scope limit w)
    go [] q = tt
    go (m ∷ ms) q =
        recalled-All R (λ n. P n × IsRecallable kinds scope n) (m ∷ ms)
          (search R query kinds scope limit w.points) q
