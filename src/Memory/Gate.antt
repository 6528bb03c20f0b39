-- ===== src/Memory/Gate.antt =====
-- backend/src/spidey/memory/domain/gate.py. `str.lower`, the text screens and the regular expression of
-- imperatives are parameters.
pub mod Admission
use Prim.Native.Char.{Char, code}
use spidey.Base.{
  ℕ, String, Bool, true, false, not, ◌&&◌, ◌||◌, Option, none, some, List, [], ◌∷◌, ltb,
  if◌then◌else◌, is_some, is_space, str_concat, str_eq, str_join, str_len, str_strip,
}
use spidey.Memory.Records.{
  Floats, MemoryKind, kind_value, is_semantic, is_workspace_scoped, MemoryScope, MemoryCandidate,
}

pub record TextScreens : Type 0 where
  pub lower : String → String
  pub looks_like_injection : String → Bool
  pub imperative : String → Bool
  pub scrub_text : String → String

-- `GateDecision`
pub data GateDecision : Type 0 where
  rejected : (reason : String) → GateDecision
  accepted : (content : String) → GateDecision

abbrev starts_word : String → Bool
starts_word String.[] = false
starts_word (String.◌∷◌ c s) = not (is_space (code c))

abbrev prepend : Char → List String → List String
prepend c [] = String.◌∷◌ c String.[] ∷ []
prepend c (w ∷ ws) = String.◌∷◌ c w ∷ ws

-- `s.split()`
abbrev pub words : String → List String
words String.[] = []
words (String.◌∷◌ c s) =
    let rest = words s in
    if is_space (code c)
    then rest
    else if starts_word s
    then prepend c rest
    else String.◌∷◌ c String.[] ∷ rest

abbrev pub scope_reason : MemoryKind → MemoryScope → Option String
scope_reason kind scope =
    if is_semantic kind && is_some scope.workspace_id
    then some "semantic memory must not carry a workspace scope"
    else if is_workspace_scoped kind && not (is_some scope.workspace_id)
    then some (str_concat (kind_value kind ∷ " memory requires a workspace scope" ∷ []))
    else none

module _ (T : TextScreens) where
  open T use {lower, looks_like_injection, imperative, scrub_text}

  -- `_normalize`
  abbrev pub normalize : String → String
  normalize text = str_join " " (words (lower text))

  abbrev pub is_duplicate : String → List String → Bool
  is_duplicate text [] = false
  is_duplicate text (c ∷ cs) = str_eq (normalize text) (normalize c) || is_duplicate text cs

  abbrev pub screen_duplicate : String → (existing_contents : List String) → GateDecision
  screen_duplicate scrubbed existing =
      if is_duplicate scrubbed existing
      then rejected "duplicate of an existing memory"
      else accepted scrubbed

  abbrev pub screen_scope :
      Option String → (raw : String) → (existing_contents : List String) → GateDecision
  screen_scope (some reason) raw existing = rejected reason
  screen_scope none raw existing = screen_duplicate (scrub_text raw) existing

  module _ (F : Floats) where
    unfoldable pub evaluate : MemoryCandidate F → (existing_contents : List String) → GateDecision
    evaluate candidate existing =
        let raw = str_strip is_space candidate.content in
        if ltb (str_len raw) 3
        then rejected "content too short"
        else if ltb 2000 (str_len raw)
        then rejected "content too long"
        else if looks_like_injection raw || imperative raw
        then rejected "content reads as an instruction, not a fact"
        else screen_scope (scope_reason candidate.kind candidate.scope) raw existing
