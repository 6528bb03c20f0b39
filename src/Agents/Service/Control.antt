-- ===== src/Agents/Service/Control.antt =====
-- backend/src/spidey/agents/application/run_service.py: resuming, cancelling and editing a run.
use spidey.Base.{
  ℕ, Bool, ◌&&◌, none, some, ◌≡◌, List, [], ◌∷◌, arith, find, is_empty, if◌then◌else◌, find-upsert,
}
use spidey.Base.Action.{ok, err}
use spidey.Platform.Errors.{Error}
use spidey.Agents.Runs.{RunStatus, Run, Plan, PlanStep, status_in, is_terminal, can_transition}
use spidey.Agents.Store
use spidey.Agents.Store.{Store, get_run, set_status}
use spidey.Agents.Store.Laws.{RunsKeyed}
use spidey.Agents.Service.{
  World, require_run, transition, enqueue, resume, cancel, edit_plan, get_plan, next_version,
}
use spidey.Agents.Service.Decisions.{required_id}

-- A run can be resumed when it is paused and none of its approvals is pending.
abbrev pub is_resumable : Run → ℕ → World → Bool
is_resumable run run_id w =
    status_in run.status (RunStatus.needs_human ∷ RunStatus.awaiting_approval ∷ [])
    && is_empty (Store.pending_approvals run_id w.store)

-- `resume` of an owner's run: a paused run with no pending approval is set running and its task is
-- queued once; any other call is refused as a conflict, and writes and queues nothing.
pub resume_lem :
    (owner_id run_id now : ℕ) (w : World) {run : Run}
    → RunsKeyed w.store.runs
    → get_run owner_id run_id w.store ≡ some run
    → let p = resume owner_id run_id now w in
      let go = is_resumable run run_id w in
      (p.0 ≡ (
        if go
        then ok (record run { status = RunStatus.running })
        else err (
            Error.conflict (
              if status_in run.status (RunStatus.needs_human ∷ RunStatus.awaiting_approval ∷ [])
              then "run has unresolved approvals"
              else "run is not paused"))))
      × (p.1.store ≡ (if go then set_status run_id RunStatus.running none now w.store else w.store))
      × (p.1.tasks ≡ (if go then (enqueue run_id w).tasks else w.tasks))
unfolding resume require_run transition can_transition
resume_lem owner_id run_id now w {run} h e =
    let same = required_id owner_id run_id {run = run} w h e in ground (arith, same)

-- `cancel` of an owner's run succeeds exactly when the run is not terminal; then the run is cancelled,
-- and otherwise nothing is written.
pub cancel_lem :
    (owner_id run_id now : ℕ) (w : World) {run : Run}
    → RunsKeyed w.store.runs
    → get_run owner_id run_id w.store ≡ some run
    → let p = cancel owner_id run_id now w in
      let over = is_terminal run.status in
      (p.0 ≡ (
        if over
        then err (Error.conflict "run has already finished")
        else ok (record run { status = RunStatus.cancelled })))
      × (p.1.store
          ≡ (if over then w.store else set_status run_id RunStatus.cancelled none now w.store))
      × (p.1.tasks ≡ w.tasks)
unfolding cancel require_run transition can_transition is_terminal
cancel_lem owner_id run_id now w {run} h e =
    let same = required_id owner_id run_id {run = run} w h e in ground (arith, same)

-- A plan is edited only before execution; an edit that went through bumps the version, and what is read
-- back is the plan that it returned.
pub get_plan-edit_plan :
    (owner_id run_id : ℕ) (steps : List PlanStep) (w : World) {run : Run}
    → get_run owner_id run_id w.store ≡ some run
    → let p = edit_plan owner_id run_id (some steps) w in
      let early = status_in run.status (RunStatus.planning ∷ RunStatus.awaiting_approval ∷ []) in
      let plan : Plan = record {
        version = next_version (Store.get_plan run_id w.store);
        steps = steps;
      } in
      (p.0 ≡ (
        if early then ok plan else err (Error.conflict "plan can only be edited before execution")))
      × ((get_plan owner_id run_id p.1).0
          ≡ ok (if early then some plan else Store.get_plan run_id w.store))
unfolding edit_plan get_plan require_run Store.save_plan Store.get_plan get_run
get_plan-edit_plan owner_id run_id steps w {run} e =
    let plan : Plan = record {
      version = next_version (find run_id w.store.plans);
      steps = steps;
    } in
    ground (arith, find-upsert run_id run_id plan w.store.plans)
