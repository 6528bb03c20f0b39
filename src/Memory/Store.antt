-- ===== src/Memory/Store.antt =====
-- backend/src/spidey/memory/infrastructure/memory_store.py: the table of the memories.
use spidey.Base.{
  ℕ, ◌+◌, Bool, true, false, ◌&&◌, ◌||◌, Option, none, some, List, [], ◌∷◌, ◌==◌, if◌then◌else◌,
  is_some, str_eq, keep, take, Table, find, update, add_row, delete_row,
}
use spidey.Memory.Records.{Floats, MemoryKind, kind_value, MemoryScope, Memory, is_active}

abbrev pub kind_in : MemoryKind → List MemoryKind → Bool
kind_in kind [] = false
kind_in kind (k ∷ ks) = str_eq (kind_value k) (kind_value kind) || kind_in kind ks

-- A row without a workspace is always visible, one with a workspace within it.
abbrev pub in_workspace : (row query : Option ℕ) → Bool
in_workspace none query = true
in_workspace (some w) none = false
in_workspace (some w) (some v) = w == v

-- `record.user_id in (None, user_id)`
abbrev pub may_touch : (user_id : ℕ) → Option ℕ → Bool
may_touch user_id none = true
may_touch user_id (some u) = u == user_id

module _ (F : Floats) where
  abbrev pub Rows : Type 0
  Rows = Table (Memory F)

  unfoldable pub create : Memory F → Rows → Rows
  create m rows = add_row m.id m rows

  abbrev owned : (user_id : ℕ) → Option (Memory F) → Option (Memory F)
  owned user_id none = none
  owned user_id (some m) = if may_touch user_id m.scope.user_id then some m else none

  unfoldable pub get : (user_id memory_id : ℕ) → Rows → Option (Memory F)
  get user_id memory_id rows = owned user_id (find memory_id rows)

  -- The condition of `candidates`.
  abbrev pub is_visible : List MemoryKind → MemoryScope → Memory F → Bool
  is_visible kinds scope m =
      kind_in m.kind kinds && is_active F m && in_workspace m.scope.workspace_id scope.workspace_id

  abbrev pub contents_of : Rows → List (Memory F)
  contents_of [] = []
  contents_of ((k, m) ∷ t) = m ∷ contents_of t

  -- `ORDER BY confidence DESC`
  abbrev pub insert_memory : Memory F → List (Memory F) → List (Memory F)
  insert_memory m [] = m ∷ []
  insert_memory m (n ∷ ns) =
      let rest = insert_memory m ns in
      if F.below m.confidence n.confidence then n ∷ rest else m ∷ n ∷ ns

  abbrev pub by_confidence : List (Memory F) → List (Memory F)
  by_confidence [] = []
  by_confidence (m ∷ ms) = insert_memory m (by_confidence ms)

  unfoldable pub candidates : List MemoryKind → MemoryScope → Rows → List (Memory F)
  candidates kinds scope rows =
      take 500 (by_confidence (keep (is_visible kinds scope) (contents_of rows)))

  abbrev pub use_memory : (confidence : F.Float) → (last_used_at : ℕ) → Memory F → Memory F
  use_memory confidence last_used_at m = record m {
    confidence = confidence;
    use_count = m.use_count + 1;
    last_used_at = some last_used_at;
  }

  unfoldable pub record_use :
      (memory_id : ℕ) → (confidence : F.Float) → (last_used_at : ℕ) → Rows → Rows
  record_use memory_id confidence last_used_at rows =
      update memory_id (use_memory confidence last_used_at) rows

  unfoldable pub delete : (user_id memory_id : ℕ) → Rows → Option (Memory F) × Rows
  delete user_id memory_id rows =
      let found = get user_id memory_id rows in
      (found, if is_some found then delete_row memory_id rows else rows)
