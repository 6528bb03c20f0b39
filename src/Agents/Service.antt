-- ===== src/Agents/Service.antt =====
-- backend/src/spidey/agents/application/run_service.py: the owner-scoped control surface of a run.
-- What the service is given: the clock's reading `now` and a fresh `uuid` for a new run. The state is
-- the session's tables, the events put into the outbox and the tasks put on the queue.
pub mod Moves
pub mod Decisions
pub mod Control
use spidey.Base.{
  ℕ, suc, ◌+◌, String, Bool, true, false, not, ◌&&◌, ◌||◌, Option, none, some, List, [], ◌∷◌, ◌++◌,
  ◌==◌, if◌then◌else◌, is_empty, length, str_concat, map_option,
}
use spidey.Base.Action.{
  Action, Result, ok, err, pure, raise, gets, or_raise, ◌>>=◌, ◌>>◌, raise_if, modify, when,
}
use spidey.Platform.Errors.{Error}
use spidey.Platform.Events.{EventPayload, EventEnvelope, envelope_of}
use spidey.Agents.Runs.{
  RunStatus, status_value, status_in, can_transition, is_terminal, Run, RunBudget, default_budget,
  Plan, PlanStep, Approval, ApprovalStatus, is_pending,
}
use spidey.Agents.Store
use spidey.Agents.Store.{Store}

pub record TaskCall : Type 0 where
  pub name : String
  pub argument : ℕ
  pub queue : String

pub record World : Type 0 where
  pub store : Store
  pub events : List EventEnvelope
  pub tasks : List TaskCall

abbrev pub emit : EventEnvelope → World → World
emit e w = record w { events = w.events ++ (e ∷ []) }

-- `_enqueue`
abbrev pub enqueue : ℕ → World → World
enqueue run_id w = record w {
  tasks =
      w.tasks
      ++ (record { name = "spidey.agents.run"; argument = run_id; queue = "ingestion" } ∷ []);
}

abbrev run_event : EventPayload → (run_id actor : ℕ) → EventEnvelope
run_event p run_id actor = envelope_of p (some run_id) none none (some actor) none none

abbrev pub on_store : (Store → Store) → World → World
on_store f w = record w { store = f w.store }

-- What an insert gives back: the tables, or the constraint that it broke.
abbrev commit_store : Result Store → Action World (Unit {0})
commit_store (ok s) w = (ok tt, record w { store = s })
commit_store (err e) w = (err e, w)

-- `_require`
unfoldable pub require_run : (owner_id run_id : ℕ) → Action World Run
require_run owner_id run_id = do
  or_raise (← gets (λ w. Store.get_run owner_id run_id w.store)) (Error.not_found "run not found")

-- `_transition`
unfoldable pub transition : Run → RunStatus → (actor now : ℕ) → Action World Run
transition run target actor now = do
  raise_if (not (can_transition run.status target)) (
      Error.conflict (
        str_concat
          ("cannot move run from " ∷ status_value run.status ∷ " to " ∷ status_value target ∷ [])))
  modify (on_store (Store.set_status run.id target none now))
  modify
      (emit (run_event (EventPayload.run_status_changed (status_value target) none) run.id actor))
  pure (record run { status = target })

abbrev pub or_default : Option RunBudget → RunBudget
or_default none = default_budget
or_default (some b) = b

abbrev pub new_run :
    (owner_id : ℕ) (goal : String) (workspace_id session_id : Option ℕ) (fresh now : ℕ) → Run
new_run owner_id goal workspace_id session_id fresh now = record {
  id = fresh;
  owner_id = owner_id;
  workspace_id = workspace_id;
  session_id = session_id;
  goal = goal;
  status = RunStatus.pending;
  error = none;
  base_commit = none;
  created_at = now;
  updated_at = now;
}

unfoldable pub create :
    (owner_id : ℕ) (goal : String) (workspace_id session_id : Option ℕ) (budget : Option RunBudget)
    (fresh now : ℕ)
    → Action World Run
create owner_id goal workspace_id session_id budget fresh now = do
  let run : Run = new_run owner_id goal workspace_id session_id fresh now
  commit_store (Store.create_run run (or_default budget) (← gets (λ w. w.store)))
  modify (
      emit (
        envelope_of (EventPayload.run_started goal) (some fresh) session_id workspace_id
          (some owner_id) none none))
  modify (enqueue fresh)
  pure run

unfoldable pub get : (owner_id run_id : ℕ) → Action World Run
get owner_id run_id = require_run owner_id run_id

unfoldable pub get_plan : (owner_id run_id : ℕ) → Action World (Option Plan)
get_plan owner_id run_id = do require_run owner_id run_id; gets (λ w. Store.get_plan run_id w.store)

abbrev pub next_version : Option Plan → ℕ
next_version none = 1
next_version (some p) = p.version + 1

-- The steps come as pydantic read them: `none` where it refused the request's dictionaries.
unfoldable pub edit_plan :
    (owner_id run_id : ℕ) (steps : Option (List PlanStep)) → Action World Plan
edit_plan owner_id run_id steps = do
  run ← require_run owner_id run_id
  raise_if (not (status_in run.status (RunStatus.planning ∷ RunStatus.awaiting_approval ∷ [])))
      (Error.conflict "plan can only be edited before execution")
  existing ← gets (λ w. Store.get_plan run_id w.store)
  valid ← or_raise steps Error.unhandled
  let plan : Plan = record { version = next_version existing; steps = valid }
  modify (on_store (Store.save_plan run_id plan))
  modify (emit (run_event (EventPayload.plan_created plan.version (length valid)) run_id owner_id))
  pure plan

unfoldable pub cancel : (owner_id run_id now : ℕ) → Action World Run
cancel owner_id run_id now = do
  run ← require_run owner_id run_id
  raise_if (is_terminal run.status) (Error.conflict "run has already finished")
  transition run RunStatus.cancelled owner_id now

unfoldable pub resume : (owner_id run_id now : ℕ) → Action World Run
resume owner_id run_id now = do
  run ← require_run owner_id run_id
  raise_if (not (status_in run.status (RunStatus.needs_human ∷ RunStatus.awaiting_approval ∷ [])))
      (Error.conflict "run is not paused")
  raise_if (not (is_empty (← gets (λ w. Store.pending_approvals run_id w.store))))
      (Error.conflict "run has unresolved approvals")
  resumed ← transition run RunStatus.running owner_id now
  modify (enqueue run_id)
  pure resumed

unfoldable pub pending_approvals : (owner_id run_id : ℕ) → Action World (List Approval)
pending_approvals owner_id run_id = do
  require_run owner_id run_id
  gets (λ w. Store.pending_approvals run_id w.store)

-- The approval, if it is there and belongs to the run.
abbrev of_run : ℕ → Option Approval → Option Approval
of_run run_id none = none
of_run run_id (some a) = if a.run_id == run_id then some a else none

abbrev pub decision : Bool → ApprovalStatus
decision true = ApprovalStatus.approved
decision false = ApprovalStatus.rejected

abbrev drop_result : {A : Type 0} → Action World A → Action World (Unit {0})
drop_result m = do m; pure tt

-- What follows a decision: a rejection cancels the run, and the last approval lets it go on.
unfoldable pub after_decision : Run → Bool → (owner_id now : ℕ) → Action World (Unit {0})
after_decision run false owner_id now =
    drop_result (transition run RunStatus.cancelled owner_id now)
after_decision run true owner_id now = do
  still ← gets (λ w. Store.pending_approvals run.id w.store)
  when (is_empty still) (do transition run RunStatus.running owner_id now; modify (enqueue run.id))

unfoldable pub resolve_approval :
    (owner_id run_id approval_id : ℕ) (approved : Bool) (now : ℕ) → Action World (Unit {0})
resolve_approval owner_id run_id approval_id approved now = do
  run ← require_run owner_id run_id
  approval ←
      or_raise (of_run run_id (← gets (λ w. Store.get_approval approval_id w.store)))
        (Error.not_found "approval not found")
  raise_if (not (is_pending approval.status)) (Error.conflict "approval already resolved")
  modify (on_store (Store.resolve_approval approval_id (decision approved) owner_id now))
  modify (emit (run_event (EventPayload.approval_resolved approval_id approved) run_id owner_id))
  after_decision run approved owner_id now
