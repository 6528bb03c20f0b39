-- ===== src/Memory/Records.antt =====
-- backend/src/spidey/memory/domain/longterm.py. A float is a parameter with the interpreter's operations on
-- it; an identifier and a `datetime` are numbers.
use spidey.Base.{ℕ, String, Bool, true, false, not, Option, List, is_some}

pub record Floats : Type 1 where
  pub Float : Type 0
  pub literal : (numerator denominator : ℕ) → Float
  pub add : Float → Float → Float
  pub sub : Float → Float → Float
  pub mul : Float → Float → Float
  pub minimum : Float → Float → Float
  pub maximum : Float → Float → Float
  pub below : Float → Float → Bool
  pub round : Float → (digits : ℕ) → Float

pub data MemoryKind : Type 0 where
  repository semantic procedural episodic evaluation : MemoryKind

abbrev pub kind_value : MemoryKind → String
kind_value MemoryKind.repository = "repository"
kind_value MemoryKind.semantic = "semantic"
kind_value MemoryKind.procedural = "procedural"
kind_value MemoryKind.episodic = "episodic"
kind_value MemoryKind.evaluation = "evaluation"

abbrev pub is_semantic : MemoryKind → Bool
is_semantic MemoryKind.semantic = true
is_semantic _ = false

-- `kind in WORKSPACE_SCOPED_KINDS`
abbrev pub is_workspace_scoped : MemoryKind → Bool
is_workspace_scoped MemoryKind.repository = true
is_workspace_scoped MemoryKind.procedural = true
is_workspace_scoped MemoryKind.episodic = true
is_workspace_scoped _ = false

pub record MemoryScope : Type 0 where
  pub workspace_id : Option ℕ
  pub user_id : Option ℕ

pub record MemoryProvenance : Type 0 where
  pub run_id : Option ℕ
  pub distilled_by : String
  pub source_refs : List String

module _ (F : Floats) where
  open F use {Float, literal, add, sub, mul, minimum, maximum, below, round}

  pub record MemoryCandidate : Type 0 where
    pub kind : MemoryKind
    pub content : String
    pub scope : MemoryScope
    pub provenance : MemoryProvenance
    pub confidence : Float

  pub record Memory : Type 0 where
    pub id : ℕ
    pub kind : MemoryKind
    pub scope : MemoryScope
    pub content : String
    pub provenance : MemoryProvenance
    pub confidence : Float
    pub use_count : ℕ
    pub last_used_at : Option ℕ
    pub created_at : ℕ
    pub expires_at : Option ℕ
    pub superseded_by : Option ℕ

  abbrev pub is_active : Memory → Bool
  is_active m = not (is_some m.superseded_by)

  pub record RecalledMemory : Type 0 where
    pub memory : Memory
    pub similarity : Float

  abbrev pub reinforce : Float → Float
  reinforce c = round (minimum (literal 1 1) (add c (mul (sub (literal 1 1) c) (literal 2 10)))) 4

  abbrev pub decay : Float → Float
  decay c = round (maximum (literal 0 1) (mul c (literal 5 10))) 4
