-- ===== src/Agents/Runs.antt =====
-- backend/src/spidey/agents/domain/runs.py: the run's life cycle, plans, budgets and approvals.
-- Costs are in millionths of a dollar; they are only compared. A `datetime` is a number.
pub mod Transitions
use spidey.Base.{
  ℕ, zero, suc, String, Bool, false, true, ◌||◌, Option, none, List, [], ◌∷◌, ◌==◌, leb,
}

pub data RunStatus : Type 0 where
  pending planning awaiting_approval running needs_human completed failed cancelled : RunStatus

-- The string of each member of the enumeration.
abbrev pub status_value : RunStatus → String
status_value RunStatus.pending = "pending"
status_value RunStatus.planning = "planning"
status_value RunStatus.awaiting_approval = "awaiting_approval"
status_value RunStatus.running = "running"
status_value RunStatus.needs_human = "needs_human"
status_value RunStatus.completed = "completed"
status_value RunStatus.failed = "failed"
status_value RunStatus.cancelled = "cancelled"

abbrev status_index : RunStatus → ℕ
status_index RunStatus.pending = 0
status_index RunStatus.planning = 1
status_index RunStatus.awaiting_approval = 2
status_index RunStatus.running = 3
status_index RunStatus.needs_human = 4
status_index RunStatus.completed = 5
status_index RunStatus.failed = 6
status_index RunStatus.cancelled = 7

abbrev pub same_status : RunStatus → RunStatus → Bool
same_status a b = status_index a == status_index b

-- `status in {…}`
abbrev pub status_in : RunStatus → List RunStatus → Bool
status_in s [] = false
status_in s (x ∷ xs) = same_status s x || status_in s xs

abbrev terminal : List RunStatus
terminal = RunStatus.completed ∷ RunStatus.failed ∷ RunStatus.cancelled ∷ []

-- A status with no entry has no transition.
abbrev transitions : RunStatus → List RunStatus
transitions RunStatus.pending = RunStatus.planning ∷ RunStatus.cancelled ∷ RunStatus.failed ∷ []
transitions RunStatus.planning =
    RunStatus.awaiting_approval ∷ RunStatus.running ∷ RunStatus.failed ∷ RunStatus.cancelled ∷ []
transitions RunStatus.awaiting_approval =
    RunStatus.running ∷ RunStatus.cancelled ∷ RunStatus.failed ∷ RunStatus.needs_human ∷ []
transitions RunStatus.running =
    RunStatus.awaiting_approval ∷ RunStatus.needs_human ∷ RunStatus.completed ∷ RunStatus.failed
    ∷ RunStatus.cancelled ∷ []
transitions RunStatus.needs_human = RunStatus.running ∷ RunStatus.cancelled ∷ RunStatus.failed ∷ []
transitions _ = []

unfoldable pub can_transition : RunStatus → RunStatus → Bool
can_transition current target = status_in target (transitions current)

unfoldable pub is_terminal : RunStatus → Bool
is_terminal status = status_in status terminal

pub record Run : Type 0 where
  pub id : ℕ
  pub owner_id : ℕ
  pub workspace_id : Option ℕ
  pub session_id : Option ℕ
  pub goal : String
  pub status : RunStatus
  pub error : Option String
  pub base_commit : Option String
  pub created_at : ℕ
  pub updated_at : ℕ

pub record RunBudget : Type 0 where
  pub max_steps : ℕ
  pub max_tokens : ℕ
  pub max_cost_usd : ℕ
  pub steps_used : ℕ
  pub tokens_used : ℕ
  pub cost_used : ℕ

-- `RunBudget()`
abbrev pub default_budget : RunBudget
default_budget = record {
  max_steps = 25;
  max_tokens = 500_000;
  max_cost_usd = 5_000_000;
  steps_used = 0;
  tokens_used = 0;
  cost_used = 0;
}

unfoldable pub exhausted : RunBudget → Bool
exhausted b =
    leb b.max_steps b.steps_used || leb b.max_tokens b.tokens_used || leb b.max_cost_usd b.cost_used

pub data StepStatus : Type 0 where
  pending active done skipped : StepStatus

pub record PlanStep : Type 0 where
  pub index : ℕ
  pub title : String
  pub detail : String
  pub status : StepStatus

pub record Plan : Type 0 where
  pub version : ℕ
  pub steps : List PlanStep

pub data ApprovalStatus : Type 0 where
  pending approved rejected : ApprovalStatus

abbrev pub is_pending : ApprovalStatus → Bool
is_pending ApprovalStatus.pending = true
is_pending _ = false

abbrev pub is_approved : ApprovalStatus → Bool
is_approved ApprovalStatus.approved = true
is_approved _ = false

pub record Approval : Type 0 where
  pub id : ℕ
  pub run_id : ℕ
  pub tool : String
  pub side_effect : String
  pub arguments_preview : String
  pub status : ApprovalStatus
  pub requested_at : ℕ
  pub decided_at : Option ℕ
  pub decided_by : Option ℕ
