-- ===== src/Checks/Service.antt =====
-- backend/src/spidey/agents/application/run_service.py on two users and their runs.
use spidey.Base.{ℕ, true, false, none, some, ◌≡◌, refl, List, [], ◌∷◌, arith, find, map_option}
use spidey.Base.Action.{ok, err}
use spidey.Platform.Errors.{Error}
use spidey.Agents.Runs.{
  RunStatus, Run, default_budget, Plan, PlanStep, StepStatus, Approval, ApprovalStatus,
  can_transition,
}
use spidey.Agents.Store
use spidey.Agents.Store.{RunRecord, Store}
use spidey.Agents.Store.Laws.{RunsKeyed}
use spidey.Agents.Service
use spidey.Agents.Service.{World, enqueue}
use spidey.Agents.Service.Decisions.{resolve_approval_once, GoesOn, resolve_approval_approves}
use spidey.Agents.Service.Control.{resume_lem}
use spidey.Agents.Requests.{Request, perform, perform_all}
use spidey.Agents.Requests.LifeCycle.{Continues, perform_all-Continues}
use spidey.Agents.Requests.Owners.{perform_foreign}

abbrev run_with : (id owner_id : ℕ) → RunStatus → Run
run_with id owner_id status = record {
  id = id;
  owner_id = owner_id;
  workspace_id = some 30;
  session_id = none;
  goal = "fix the parser";
  status = status;
  error = none;
  base_commit = none;
  created_at = 1;
  updated_at = 1;
}

abbrev row_with : (id owner_id : ℕ) → RunStatus → RunRecord
row_with id owner_id status = record { run = run_with id owner_id status; budget = default_budget }

abbrev asked : Approval
asked = record {
  id = 5;
  run_id = 1;
  tool = "workspace.edit";
  side_effect = "write";
  arguments_preview = "{}";
  status = ApprovalStatus.pending;
  requested_at = 2;
  decided_at = none;
  decided_by = none;
}

-- User 7 has a run that waits for approval 5 and a paused one; user 8 has a completed run.
abbrev waiting : World
waiting = record {
  store = record {
    runs =
        (1, row_with 1 7 RunStatus.awaiting_approval)
        ∷ (2, row_with 2 8 RunStatus.completed)
        ∷ (3, row_with 3 7 RunStatus.needs_human)
        ∷ [];
    plans = [];
    approvals = (5, asked) ∷ [];
  };
  events = [];
  tasks = [];
}

waiting-RunsKeyed : RunsKeyed waiting.store.runs
waiting-RunsKeyed = (refl, (refl, (refl, tt)))

abbrev decided : World
decided = (Service.resolve_approval 7 1 5 true 9 waiting).1

decided_ok : Service.resolve_approval 7 1 5 true 9 waiting ≡ (ok tt, decided)
unfolding Service.resolve_approval Service.require_run Store.get_run Store.get_approval
    Service.after_decision Store.pending_approvals Store.resolve_approval Service.transition
    can_transition
decided_ok = refl

decided_running :
    map_option (λ r. r.run.status) (find 1 decided.store.runs) ≡ some RunStatus.running
unfolding Service.resolve_approval Service.require_run Store.get_run Store.get_approval
    Service.after_decision Store.pending_approvals Store.resolve_approval Service.transition
    can_transition Store.set_status
decided_running = refl

resolve_approval_once_example :
    (x : Error) × (Service.resolve_approval 8 1 5 false 10 decided ≡ (err x, decided))
resolve_approval_once_example =
    resolve_approval_once 7 1 5 true 9 waiting {w' = decided} 8 1 false 10 decided_ok

resolve_approval_approves_example :
    GoesOn 1 9 waiting (Service.resolve_approval 7 1 5 true 9 waiting)
unfolding Store.get_run can_transition Store.get_approval
resolve_approval_approves_example =
    resolve_approval_approves 7 1 5 9 waiting {run = run_with 1 7 RunStatus.awaiting_approval}
      {a = asked} waiting-RunsKeyed refl refl refl refl refl

resume_example :
    let p = Service.resume 7 3 9 waiting in
    (p.0 ≡ ok (run_with 3 7 RunStatus.running))
    × (p.1.store ≡ Store.set_status 3 RunStatus.running none 9 waiting.store)
    × (p.1.tasks ≡ (enqueue 3 waiting).tasks)
unfolding Store.get_run Store.pending_approvals
resume_example =
    resume_lem 7 3 9 waiting {run = run_with 3 7 RunStatus.needs_human} waiting-RunsKeyed refl

abbrev a_step : PlanStep
a_step = record { index = 0; title = "read"; detail = ""; status = StepStatus.pending }

abbrev an_edit : Plan
an_edit = record { version = 1; steps = a_step ∷ [] }

-- User 7 approves and cancels; user 8 tries to cancel a run of user 7 and one that is over.
abbrev requests : List Request
requests =
    Request.cancel 8 1 8
    ∷ Request.resolve_approval 7 1 5 true 9
    ∷ Request.cancel 7 1 10
    ∷ Request.cancel 8 2 11
    ∷ []

perform_all-Continues_example :
    Continues
      (row_with 1 7 RunStatus.awaiting_approval)
      (find 1 (perform_all requests waiting).store.runs)
    × RunsKeyed (perform_all requests waiting).store.runs
perform_all-Continues_example =
    perform_all-Continues requests 1 waiting {row = row_with 1 7 RunStatus.awaiting_approval}
      waiting-RunsKeyed refl

perform_foreign_example :
    (find 1 (perform (Request.cancel 8 1 8) waiting).store.runs
      ≡ some (row_with 1 7 RunStatus.awaiting_approval))
    × (find 1 (perform (Request.cancel 8 1 8) waiting).store.plans ≡ none)
perform_foreign_example =
    perform_foreign (Request.cancel 8 1 8) 1 waiting
      {row = row_with 1 7 RunStatus.awaiting_approval} waiting-RunsKeyed refl
      (λ e. absurd (omega (arith, e)))
