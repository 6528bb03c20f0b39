-- ===== src/Checks/Memory.antt =====
-- backend/src/spidey/memory with confidences in ten-thousandths and an index that finds every point.
use spidey.Base.{
  ℕ, ◌+◌, ◌-◌, ◌*◌, ◌/◌, ◌==◌, ◌≡◌, refl, min, max, String, false, none, some, [], ◌∷◌, All, ltb,
  map, find, str_strip, str_contains,
}
use spidey.Memory.Records.{Floats, MemoryKind, MemoryScope, MemoryCandidate, Memory, RecalledMemory}
use spidey.Memory.Gate.{TextScreens, evaluate}
use spidey.Memory.Store
use spidey.Memory.Store.{candidates, create, is_visible, contents_of}
use spidey.Memory.Service.{
  Recall, MemoryWorld, write, write_from, recall, delete, memory_of, upsert_vector,
}
use spidey.Memory.Service.Recalling.{IsRecallable, recall-All}
use spidey.Memory.Service.Deletion.{delete_erases}

abbrev tenths : Floats
tenths = record {
  Float = ℕ;
  literal = λ n d. n * 10_000 / d;
  add = λ a b. a + b;
  sub = λ a b. a - b;
  mul = λ a b. a * b / 10_000;
  minimum = min;
  maximum = max;
  below = ltb;
  round = λ a digits. a;
}

abbrev plain_screens : TextScreens
plain_screens = record {
  lower = λ s. s;
  looks_like_injection = λ s. str_contains "ignore" s;
  imperative = λ s. str_contains "run" s;
  scrub_text = λ s. s;
}

abbrev small : Recall
small = record {
  F = tenths;
  screens = plain_screens;
  Vector = String;
  embed_query = λ s. s;
  fresh = λ tick. tick;
  now = λ tick. tick;
  neighbours = λ v kinds workspace_id limit points. map (λ p. (p.0, 1)) points;
}

abbrev of_seven : MemoryScope
of_seven = record { workspace_id = none; user_id = some 7 }

abbrev fact : String → MemoryCandidate tenths
fact content = record {
  kind = MemoryKind.semantic;
  content = content;
  scope = of_seven;
  provenance = record { run_id = none; distilled_by = "user"; source_refs = [] };
  confidence = 6000;
}

abbrev empty : MemoryWorld small
empty = record { rows = []; points = []; tick = 40 }

abbrev stored : Memory tenths
stored = memory_of small (fact "tabs are wide") "tabs are wide" 40 41

abbrev with_fact : MemoryWorld small
with_fact = record { rows = (40, stored) ∷ []; points = upsert_vector small stored []; tick = 42 }

-- The second candidate is a duplicate, the third an order.
writes_one :
    write small (fact "tabs are wide" ∷ fact " tabs  are wide " ∷ fact "run it" ∷ []) empty
    ≡ (stored ∷ [], with_fact)
unfolding write write_from evaluate str_strip candidates create
writes_one = refl

-- The memory of user 7 is recalled for user 8.
recalled_for_another :
    recall small "tabs"
      (MemoryKind.semantic ∷ [])
      (record { workspace_id = none; user_id = some 8 })
      5
      with_fact
    ≡ record { memory = stored; similarity = 1 } ∷ []
unfolding recall candidates
recalled_for_another = refl

recall-All_example :
    All
      (λ (r : RecalledMemory tenths).
        (r.memory.content ≡ "tabs are wide")
        × IsRecallable (MemoryKind.semantic ∷ []) of_seven r.memory)
      (recall small "tabs" (MemoryKind.semantic ∷ []) of_seven 5 with_fact)
recall-All_example =
    recall-All small (λ m. m.content ≡ "tabs are wide") "tabs" (MemoryKind.semantic ∷ []) of_seven 5
      with_fact (refl, tt)

delete_erases_example :
    (find 40 (delete small 7 40 with_fact).1.rows ≡ none)
    × (find 40 (delete small 7 40 with_fact).1.points ≡ none)
    × ((k : ℕ)
        → (k == 40) ≡ false
        → (find k (delete small 7 40 with_fact).1.rows ≡ find k with_fact.rows)
          × (find k (delete small 7 40 with_fact).1.points ≡ find k with_fact.points))
unfolding delete Store.delete Store.get
delete_erases_example = delete_erases small 7 40 with_fact refl
