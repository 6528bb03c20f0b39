-- ===== src/Agents/Requests.antt =====
-- backend/src/spidey/api/deps.py `get_session` around the methods of
-- backend/src/spidey/agents/application/run_service.py: one request is one transaction. What a
-- failed request wrote to the tables and the outbox is rolled back; a task put on the queue stays.
pub mod LifeCycle
pub mod Owners
use spidey.Base.{ℕ, String, Bool, Option, List, [], ◌∷◌}
use spidey.Base.Action.{Action, Result, ok, err, ◌>>=◌, pure}
use spidey.Agents.Runs.{Run, RunBudget, PlanStep}
use spidey.Agents.Service
use spidey.Agents.Service.{World}

-- The requests of the API that may change a run, each with who sends it.
pub data Request : Type 0 where
  create :
      (owner_id : ℕ) (goal : String) (workspace_id session_id : Option ℕ)
      (budget : Option RunBudget) (fresh now : ℕ)
      → Request
  edit_plan : (owner_id run_id : ℕ) (steps : Option (List PlanStep)) → Request
  cancel resume : (owner_id run_id now : ℕ) → Request
  resolve_approval : (owner_id run_id approval_id : ℕ) (approved : Bool) (now : ℕ) → Request

abbrev discard : {A : Type 0} → Action World A → Action World (Unit {0})
discard m = m >>= λ _. pure tt

abbrev pub handle : Request → Action World (Unit {0})
handle (Request.create o g ws ss b fresh now) = discard (Service.create o g ws ss b fresh now)
handle (Request.edit_plan o r steps) = discard (Service.edit_plan o r steps)
handle (Request.cancel o r now) = discard (Service.cancel o r now)
handle (Request.resume o r now) = discard (Service.resume o r now)
handle (Request.resolve_approval o r a yes_or_no now) = Service.resolve_approval o r a yes_or_no now

abbrev settle : World → Result (Unit {0}) × World → World
settle w (ok _, w') = w'
settle w (err _, w') = record w { tasks = w'.tasks }

unfoldable pub perform : Request → World → World
perform r w = settle w (handle r w)

-- Requests one after the other.
unfoldable pub perform_all : List Request → World → World
perform_all [] w = w
perform_all (r ∷ rs) w = perform_all rs (perform r w)
