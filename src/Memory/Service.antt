-- ===== src/Memory/Service.antt =====
-- backend/src/spidey/memory/application/memory_service.py, over the store and the vector index of
-- backend/src/spidey/memory/infrastructure/vector_index.py. The embedding and the neighbours that Qdrant
-- finds among its points are parameters; identifiers and times are drawn from a tick.
pub mod Writing
pub mod Recalling
pub mod Deletion
use spidey.Base.{
  ℕ, suc, String, Bool, true, false, Option, none, some, List, [], ◌∷◌, ◌==◌, ◌++◌, if◌then◌else◌,
  is_some, str_eq, Table, upsert, delete_row, map,
}
use spidey.Memory.Records.{
  Floats, MemoryKind, kind_value, MemoryScope, MemoryCandidate, Memory, RecalledMemory, reinforce,
  decay,
}
use spidey.Memory.Gate.{TextScreens, GateDecision, rejected, accepted, evaluate}
use spidey.Memory.Store
use spidey.Memory.Store.{Rows, candidates, create, record_use}

pub record Recall : Type 1 where
  pub F : Floats
  pub screens : TextScreens
  pub Vector : Type 0
  pub embed_query : String → Vector
  pub fresh : (tick : ℕ) → ℕ
  pub now : (tick : ℕ) → ℕ
  -- The neighbours of a vector among the points, with their scores, under the filter of a search.
  pub neighbours :
      Vector
      → List MemoryKind
      → (workspace_id : Option ℕ) → (limit : ℕ) → Table (Vector × MemoryKind × Option ℕ)
      → List (ℕ × F.Float)

module _ (R : Recall) where
  open R use {F, screens, Vector, embed_query, fresh, now, neighbours}

  -- A point of the index: the vector and its payload.
  abbrev pub Points : Type 0
  Points = Table (Vector × MemoryKind × Option ℕ)

  pub record MemoryWorld : Type 0 where
    pub rows : Rows F
    pub points : Points
    pub tick : ℕ

  abbrev pub upsert_vector : Memory F → Points → Points
  upsert_vector m points = upsert m.id (embed_query m.content, m.kind, m.scope.workspace_id) points

  abbrev pub search :
      (query : String) → List MemoryKind → MemoryScope → (limit : ℕ) → Points → List (ℕ × F.Float)
  search query kinds scope limit points =
      neighbours (embed_query query) kinds scope.workspace_id limit points

  -- The contents of the accepted memories of a kind.
  abbrev pub contents_of_kind : MemoryKind → List (Memory F) → List String
  contents_of_kind kind [] = []
  contents_of_kind kind (m ∷ ms) =
      let rest = contents_of_kind kind ms in
      if str_eq (kind_value m.kind) (kind_value kind) then m.content ∷ rest else rest

  abbrev pub contents : List (Memory F) → List String
  contents ms = map (λ m. m.content) ms

  abbrev pub memory_of : MemoryCandidate F → (content : String) → (id created_at : ℕ) → Memory F
  memory_of candidate content id created_at = record {
    id = id;
    kind = candidate.kind;
    scope = candidate.scope;
    content = content;
    provenance = candidate.provenance;
    confidence = candidate.confidence;
    use_count = 0;
    last_used_at = none;
    created_at = created_at;
    expires_at = none;
    superseded_by = none;
  }

  abbrev pub existing : MemoryCandidate F → List (Memory F) → MemoryWorld → List String
  existing candidate done w =
      contents (candidates F (candidate.kind ∷ []) candidate.scope w.rows)
      ++ contents_of_kind candidate.kind done

  abbrev pub store_memory : Memory F → MemoryWorld → MemoryWorld
  store_memory m w = record {
    rows = create F m w.rows;
    points = upsert_vector m w.points;
    tick = suc (suc w.tick);
  }

  -- One candidate, behind the memories that are accepted so far.
  abbrev pub write_decided :
      MemoryCandidate F
      → GateDecision
      → List (Memory F)
      → MemoryWorld
      → List (Memory F) × MemoryWorld
  write_decided candidate (rejected reason) done w = (done, w)
  write_decided candidate (accepted content) done w =
      let m = memory_of candidate content (fresh w.tick) (now (suc w.tick)) in
      (done ++ (m ∷ []), store_memory m w)

  unfoldable pub write_from :
      List (MemoryCandidate F) → List (Memory F) → MemoryWorld → List (Memory F) × MemoryWorld
  write_from [] done w = (done, w)
  write_from (candidate ∷ rest) done w =
      let (done', w') =
        write_decided candidate (evaluate screens F candidate (existing candidate done w)) done w in
      write_from rest done' w'

  unfoldable pub write : List (MemoryCandidate F) → MemoryWorld → List (Memory F) × MemoryWorld
  write candidates w = write_from candidates [] w

  abbrev pub find_memory : ℕ → List (Memory F) → Option (Memory F)
  find_memory id [] = none
  find_memory id (m ∷ ms) = let rest = find_memory id ms in if m.id == id then some m else rest

  -- `if mid in pool`
  abbrev pub add_hit :
      Option (Memory F) → F.Float → List (RecalledMemory F) → List (RecalledMemory F)
  add_hit none score rest = rest
  add_hit (some m) score rest = record { memory = m; similarity = score } ∷ rest

  abbrev pub recalled : List (Memory F) → List (ℕ × F.Float) → List (RecalledMemory F)
  recalled pool [] = []
  recalled pool ((id, score) ∷ hits) = add_hit (find_memory id pool) score (recalled pool hits)

  abbrev pub recall_from :
      List (Memory F)
      → String
      → List MemoryKind
      → MemoryScope
      → (limit : ℕ) → MemoryWorld
      → List (RecalledMemory F)
  recall_from [] query kinds scope limit w = []
  recall_from (m ∷ ms) query kinds scope limit w =
      recalled (m ∷ ms) (search query kinds scope limit w.points)

  unfoldable pub recall :
      (query : String)
      → List MemoryKind
      → MemoryScope
      → (limit : ℕ) → MemoryWorld
      → List (RecalledMemory F)
  recall query kinds scope limit w =
      recall_from (candidates F kinds scope w.rows) query kinds scope limit w

  abbrev pub record_each : List (Memory F) → (success : Bool) → (now : ℕ) → Rows F → Rows F
  record_each [] success now rows = rows
  record_each (m ∷ ms) success now rows =
      let confidence = if success then reinforce F m.confidence else decay F m.confidence in
      record_each ms success now (record_use F m.id confidence now rows)

  unfoldable pub record_feedback : List (Memory F) → (success : Bool) → MemoryWorld → MemoryWorld
  record_feedback ms success w = record w {
    rows = record_each ms success (now w.tick) w.rows;
    tick = suc w.tick;
  }

  unfoldable pub delete : (user_id memory_id : ℕ) → MemoryWorld → Bool × MemoryWorld
  delete user_id memory_id w =
      let (removed, rows) = Store.delete F user_id memory_id w.rows in
      (
        is_some removed,
        if is_some removed
            then record w { rows = rows; points = delete_row memory_id w.points }
            else record w { rows = rows },
      )
