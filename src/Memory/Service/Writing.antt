-- ===== src/Memory/Service/Writing.antt =====
-- `write` in backend/src/spidey/memory/application/memory_service.py.
use spidey.Base.{ℕ, ◌≡◌, map, String, List, [], ◌∷◌, ◌++◌}
use spidey.Memory.Records.{MemoryCandidate, Memory}
use spidey.Memory.Gate.{rejected, evaluate}
use spidey.Memory.Gate.Admission.{IsAdmitted}
use spidey.Memory.Store.{Rows, contents_of, candidates}
use spidey.Memory.Service.{Recall, MemoryWorld, Points, upsert_vector, contents_of_kind, memory_of}

module _ (R : Recall) where
  open R use {F, screens}

  -- What a write makes of its candidates, in their order, over the rows that it found: a candidate that
  -- the gate rejects adds nothing; one that it accepts adds a memory with its scope and the scrubbed
  -- content. The gate compares the candidate with the visible memories of its kind and scope, in rows
  -- that hold what was there and what this write has added, and with those of its kind that this write
  -- has added.
  pub data Written (found : Rows F) : List (MemoryCandidate F) → List (Memory F) → Type 0 where
    nothing : Written found [] []
    none_more :
        {cs : List (MemoryCandidate F)} {done : List (Memory F)} (candidate : MemoryCandidate F)
        (rows : Rows F) (reason : String)
        → Written found cs done
        → contents_of F rows ≡ contents_of F found ++ done
        → evaluate screens F candidate (
            map (λ m. m.content) (candidates F (candidate.kind ∷ []) candidate.scope rows)
            ++ contents_of_kind R candidate.kind done)
          ≡ rejected reason
        → Written found (cs ++ (candidate ∷ [])) done
    one_more :
        {cs : List (MemoryCandidate F)} {done : List (Memory F)} (candidate : MemoryCandidate F)
        (rows : Rows F) (content : String) (id created_at : ℕ)
        → Written found cs done
        → contents_of F rows ≡ contents_of F found ++ done
        → IsAdmitted screens F candidate
            (map (λ m. m.content) (candidates F (candidate.kind ∷ []) candidate.scope rows)
              ++ contents_of_kind R candidate.kind done)
            content
        → Written found
            (cs ++ (candidate ∷ []))
            (done ++ (memory_of R candidate content id created_at ∷ []))

  abbrev pub index_all : List (Memory F) → Points R → Points R
  index_all [] points = points
  index_all (m ∷ ms) points = index_all ms (upsert_vector R m points)

  -- What a state holds beyond an earlier one: the memories of a list, stored and indexed.
  pub record Holds (w : MemoryWorld R) (cs : List (MemoryCandidate F))
      (p : List (Memory F) × MemoryWorld R) : Type 0 where
    pub written : Written w.rows cs p.0
    pub stored : contents_of F p.1.rows ≡ contents_of F w.rows ++ p.0
    pub indexed : p.1.points ≡ index_all p.0 w.points
