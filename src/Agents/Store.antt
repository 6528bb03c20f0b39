-- ===== src/Agents/Store.antt =====
-- backend/src/spidey/agents/infrastructure/run_store.py: the tables `runs`, `plans` and `approvals`
-- of one database session, and the store's operations on them.
pub mod Laws
pub mod Pending
use spidey.Base.{
  ℕ, String, Bool, true, false, not, ◌&&◌, Option, none, some, List, [], ◌∷◌, map, ◌==◌, ltb,
  if◌then◌else◌, is_some, keep, Table, map_option, find, update, add_row, upsert,
}
use spidey.Base.Action.{Result, ok, err}
use spidey.Platform.Errors.{Error}
use spidey.Agents.Runs.{RunStatus, Run, RunBudget, Plan, Approval, ApprovalStatus, is_pending}

-- A row of `runs`: the run's columns and its JSON column `budget`.
pub record RunRecord : Type 0 where
  pub run : Run
  pub budget : RunBudget

pub record Store : Type 0 where
  pub runs : Table RunRecord
  pub plans : Table Plan
  pub approvals : Table Approval

-- A second row with the same primary key breaks the constraint.
unfoldable pub create_run : Run → RunBudget → Store → Result Store
create_run r b s =
    if is_some (find r.id s.runs)
    then err Error.unhandled
    else ok (record s { runs = add_row r.id (record { run = r; budget = b }) s.runs })

abbrev owned_by : ℕ → RunRecord → Option Run
owned_by owner_id record_ = if record_.run.owner_id == owner_id then some record_.run else none

abbrev owned : ℕ → Option RunRecord → Option Run
owned owner_id none = none
owned owner_id (some r) = owned_by owner_id r

-- Scoped to the owner: a foreign run is as absent as a missing one.
unfoldable pub get_run : ℕ → ℕ → Store → Option Run
get_run owner_id run_id s = owned owner_id (find run_id s.runs)

abbrev run_of : RunRecord → Run
run_of r = r.run

-- Unscoped, for the worker.
unfoldable pub load : ℕ → Store → Option Run
load run_id s = map_option run_of (find run_id s.runs)

abbrev pub write_status : RunStatus → Option String → ℕ → RunRecord → RunRecord
write_status status error now r = record r {
  run = record (r.run) { status = status; error = error; updated_at = now };
}

unfoldable pub set_status : ℕ → RunStatus → Option String → (now : ℕ) → Store → Store
set_status run_id status error now s = record s {
  runs = update run_id (write_status status error now) s.runs;
}

abbrev write_base : Option String → RunRecord → RunRecord
write_base base r = record r { run = record (r.run) { base_commit = base } }

unfoldable pub set_base_commit : ℕ → Option String → Store → Store
set_base_commit run_id base s = record s { runs = update run_id (write_base base) s.runs }

abbrev budget_of : RunRecord → RunBudget
budget_of r = r.budget

unfoldable pub get_budget : ℕ → Store → Option RunBudget
get_budget run_id s = map_option budget_of (find run_id s.runs)

abbrev write_budget : RunBudget → RunRecord → RunRecord
write_budget b r = record r { budget = b }

unfoldable pub set_budget : ℕ → RunBudget → Store → Store
set_budget run_id b s = record s { runs = update run_id (write_budget b) s.runs }

unfoldable pub save_plan : ℕ → Plan → Store → Store
save_plan run_id plan s = record s { plans = upsert run_id plan s.plans }

unfoldable pub get_plan : ℕ → Store → Option Plan
get_plan run_id s = find run_id s.plans

unfoldable pub create_approval : Approval → Store → Result Store
create_approval a s =
    if is_some (find a.id s.approvals)
    then err Error.unhandled
    else ok (record s { approvals = add_row a.id a s.approvals })

abbrev pub is_open_for : ℕ → Approval → Bool
is_open_for run_id a = a.run_id == run_id && is_pending a.status

abbrev pub rows : Table Approval → List Approval
rows [] = []
rows ((k, a) ∷ t) = a ∷ rows t

unfoldable pub pending_approvals : ℕ → Store → List Approval
pending_approvals run_id s = keep (is_open_for run_id) (rows s.approvals)

unfoldable pub get_approval : ℕ → Store → Option Approval
get_approval approval_id s = find approval_id s.approvals

abbrev pub write_decision : ApprovalStatus → ℕ → ℕ → Approval → Approval
write_decision status decided_by now a = record a {
  status = status;
  decided_at = some now;
  decided_by = some decided_by;
}

unfoldable pub resolve_approval : ℕ → ApprovalStatus → (decided_by now : ℕ) → Store → Store
resolve_approval approval_id status decided_by now s = record s {
  approvals = update approval_id (write_decision status decided_by now) s.approvals;
}
