-- ===== src/Agents/Service/Moves.antt =====
-- backend/src/spidey/agents/application/run_service.py: how each method moves the rows of `runs`.
use spidey.Base.{
  ℕ, String, Bool, true, false, Option, none, some, ◌≡◌, refl, ◌⊎◌, inl, inr, List, ◌==◌, arith,
  find, find-add_row, Bool-cases, Option-cases, is_empty,
}
use spidey.Base.Action.{Result, err}
use spidey.Platform.Errors.{Error}
use spidey.Platform.Events.{EventPayload}
use spidey.Agents.Runs.{Approval, is_pending, RunStatus, Run, RunBudget, PlanStep, can_transition}
use spidey.Agents.Store
use spidey.Agents.Store.{RunRecord, Store, get_run, set_status, write_status}
use spidey.Agents.Store.Laws.{
  RunsKeyed, find-RunsKeyed, update-RunsKeyed, add_row-RunsKeyed, find-set_status, get_run_row,
}
use spidey.Agents.Service.{
  emit, run_event, on_store, decision, or_default, new_run, World, transition, require_run, create,
  edit_plan, cancel, resume, resolve_approval, after_decision,
}

-- What may become of one row of `runs`: nothing, its creation, or a step of the life cycle.
abbrev pub Advances : Option RunRecord → Option RunRecord → Type 0
Advances none none = Unit
Advances none (some r) = r.run.status ≡ RunStatus.pending
Advances (some r) none = ⊥
Advances (some r) (some r') =
    (r'.run.owner_id ≡ r.run.owner_id)
    × ((r'.run.status ≡ r.run.status) ⊎ (can_transition r.run.status r'.run.status ≡ true))

pub Advances-refl : (o : Option RunRecord) → Advances o o
Advances-refl none = tt
Advances-refl (some r) = (refl, inl refl)

-- Every row advances, and the rows stay under their keys.
pub record Moves (w w' : World) : Type 0 where
  pub advances : (j : ℕ) → Advances (find j w.store.runs) (find j w'.store.runs)
  pub keyed : RunsKeyed w.store.runs → RunsKeyed w'.store.runs

pub Moves-refl : (w : World) → Moves w w
Moves-refl w = record { advances = λ j. Advances-refl (find j w.store.runs); keyed = λ h. h }

transition-Advances :
    (run : Run) (target : RunStatus) (actor now : ℕ) (w : World) (j : ℕ) {row : RunRecord}
    → find run.id w.store.runs ≡ some row
    → row.run ≡ run
    → Advances (find j w.store.runs) (find j (transition run target actor now w).1.store.runs)
unfolding transition
transition-Advances run target actor now w j {row} found same =
    ground (arith, find-set_status j run.id target none now w.store)

transition-RunsKeyed :
    (run : Run) (target : RunStatus) (actor now : ℕ) (w : World)
    → RunsKeyed w.store.runs
    → RunsKeyed (transition run target actor now w).1.store.runs
unfolding transition set_status
transition-RunsKeyed run target actor now w h =
    ground
      (arith, update-RunsKeyed run.id (write_status target none now) w.store.runs (λ r. refl) h)

transition-Moves :
    (run : Run) (target : RunStatus) (actor now : ℕ) (w : World) {row : RunRecord}
    → find run.id w.store.runs ≡ some row
    → row.run ≡ run
    → Moves w (transition run target actor now w).1
transition-Moves run target actor now w found same = record {
  advances = λ j. transition-Advances run target actor now w j found same;
  keyed = transition-RunsKeyed run target actor now w;
}

-- The run that `_require` returns is the row that stands under its own identifier.
required_row :
    (owner_id run_id : ℕ) {run : Run} (w : World)
    → RunsKeyed w.store.runs
    → get_run owner_id run_id w.store ≡ some run
    → (row : RunRecord) × (find run.id w.store.runs ≡ some row) × (row.run ≡ run)
required_row owner_id run_id w h e =
    let (row, found, same, _) = get_run_row owner_id run_id w.store e in
    (row, ground (arith, find-RunsKeyed run_id {r = row} w.store.runs h found), same)

-- A write that leaves `runs` alone.
Moves-same : (w w' : World) → w'.store.runs ≡ w.store.runs → Moves w w'
Moves-same w w' e = record {
  advances = λ j. rw e (Advances-refl (find j w.store.runs));
  keyed = λ h. rw e h;
}

-- Each method moves at most the run that it is called for, by a transition of the life cycle.
pub cancel-Moves :
    (owner_id run_id now : ℕ) (w : World)
    → RunsKeyed w.store.runs
    → Moves w (cancel owner_id run_id now w).1
unfolding cancel require_run
cancel-Moves owner_id run_id now w h = elim (Option-cases (get_run owner_id run_id w.store)) [
  | inl absent ↦ Moves-same w _ (ground arith)
  | inr (run, e) ↦
      let (row, found, same) = required_row owner_id run_id w h e in
      ground
        (arith, transition-Moves run RunStatus.cancelled owner_id now w found same, Moves-refl w)
]

-- A state with the same `runs`.
Moves-then : (w w' w'' : World) → w''.store.runs ≡ w'.store.runs → Moves w w' → Moves w w''
Moves-then w w' w'' e m = record {
  advances = λ j. rw e (m.advances j);
  keyed = λ h. rw e (m.keyed h);
}

pub resume-Moves :
    (owner_id run_id now : ℕ) (w : World)
    → RunsKeyed w.store.runs
    → Moves w (resume owner_id run_id now w).1
unfolding resume require_run
resume-Moves owner_id run_id now w h = elim (Option-cases (get_run owner_id run_id w.store)) [
  | inl absent ↦ Moves-same w _ (ground arith)
  | inr (run, e) ↦
      let (row, found, same) = required_row owner_id run_id w h e in
      let moved = transition-Moves run RunStatus.running owner_id now w found same in
      elim (Bool-cases (is_empty (Store.pending_approvals run_id w.store))) [
        | inl resolved ↦ ground (
          arith,
          moved,
          Moves-refl w,
          Moves-then w (transition run RunStatus.running owner_id now w).1
              (resume owner_id run_id now w).1,
        )
        | inr unresolved ↦ ground (arith, Moves-refl w)
      ]
]

pub edit_plan-Moves :
    (owner_id run_id : ℕ) (steps : Option (List PlanStep)) (w : World)
    → Moves w (edit_plan owner_id run_id steps w).1
unfolding edit_plan require_run Store.save_plan
edit_plan-Moves owner_id run_id steps w =
    Moves-same w (edit_plan owner_id run_id steps w).1 (ground arith)

after_decision-Moves :
    (run : Run) (approved : Bool) (owner_id now : ℕ) (w : World) {row : RunRecord}
    → find run.id w.store.runs ≡ some row
    → row.run ≡ run
    → Moves w (after_decision run approved owner_id now w).1
unfolding after_decision
after_decision-Moves run false owner_id now w found same =
    Moves-then w (transition run RunStatus.cancelled owner_id now w).1 _ (ground arith)
      (transition-Moves run RunStatus.cancelled owner_id now w found same)
after_decision-Moves run true owner_id now w found same = ground (
  arith,
  Moves-refl w,
  transition-Moves run RunStatus.running owner_id now w found same,
  Moves-then w (transition run RunStatus.running owner_id now w).1
      (after_decision run true owner_id now w).1,
)

-- The state in which a decision is recorded and announced.
abbrev pub recorded : (owner_id run_id approval_id : ℕ) (approved : Bool) (now : ℕ) → World → World
recorded owner_id run_id approval_id approved now w =
    emit (run_event (EventPayload.approval_resolved approval_id approved) run_id owner_id)
      (on_store (Store.resolve_approval approval_id (decision approved) owner_id now) w)

-- A decision on a pending approval of the owner's run is recorded, and then acted upon.
pub resolve_approval_accepted :
    (owner_id run_id approval_id : ℕ) (approved : Bool) (now : ℕ) (w : World) {run : Run}
    {a : Approval}
    → get_run owner_id run_id w.store ≡ some run
    → Store.get_approval approval_id w.store ≡ some a
    → a.run_id ≡ run_id
    → is_pending a.status ≡ true
    → resolve_approval owner_id run_id approval_id approved now w
      ≡ after_decision run approved owner_id now
          (recorded owner_id run_id approval_id approved now w)
unfolding resolve_approval require_run
resolve_approval_accepted owner_id run_id approval_id approved now w e f same p = ground arith

-- A call is refused and changes nothing, or it decides a pending approval of the owner's run.
pub data Decides (owner_id run_id approval_id : ℕ) (approved : Bool) (now : ℕ) (w : World)
    (out : Result (Unit {0}) × World) : Type 0 where
  refused : (x : Error) → out ≡ (err x, w) → Decides owner_id run_id approval_id approved now w out
  accepted :
      (run : Run) (a : Approval)
      → get_run owner_id run_id w.store ≡ some run
      → Store.get_approval approval_id w.store ≡ some a
      → a.run_id ≡ run_id
      → is_pending a.status ≡ true
      → out
        ≡ after_decision run approved owner_id now
            (recorded owner_id run_id approval_id approved now w)
      → Decides owner_id run_id approval_id approved now w out

pub resolve_approval-Decides :
    (owner_id run_id approval_id : ℕ) (approved : Bool) (now : ℕ) (w : World)
    → Decides owner_id run_id approval_id approved now w
        (resolve_approval owner_id run_id approval_id approved now w)
unfolding resolve_approval require_run
resolve_approval-Decides owner_id run_id approval_id approved now w =
    elim (Option-cases (get_run owner_id run_id w.store)) [
      | inl absent ↦ refused (Error.not_found "run not found") (ground arith)
      | inr (run, e) ↦ elim (Option-cases (Store.get_approval approval_id w.store)) [
        | inl missing ↦ refused (Error.not_found "approval not found") (ground arith)
        | inr (a, f) ↦ elim (Bool-cases (a.run_id == run_id)) [
          | inl same ↦ elim (Bool-cases (is_pending a.status)) [
            | inl waits ↦ accepted run a e f (ground arith) waits (ground arith)
            | inr decided ↦ refused (Error.conflict "approval already resolved") (ground arith)
          ]
          | inr foreign ↦ refused (Error.not_found "approval not found") (ground arith)
        ]
      ]
    ]

Decides-Moves :
    {owner_id run_id approval_id : ℕ} {approved : Bool} {now : ℕ} {w : World}
    {out : Result (Unit {0}) × World}
    → RunsKeyed w.store.runs
    → Decides owner_id run_id approval_id approved now w out
    → Moves w out.1
unfolding Store.resolve_approval
Decides-Moves {w = w} h (refused x same) = rw same (Moves-refl w)
Decides-Moves {owner_id} {run_id} {approval_id} {approved} {now} {w} h (accepted run a e f q p o) =
    let (row, found, same) = required_row owner_id run_id w h e in
    let w' = recorded owner_id run_id approval_id approved now w in
    let m = after_decision-Moves run approved owner_id now w' {row = row} found same in
    rw o (record { advances = m.advances; keyed = m.keyed })

pub resolve_approval-Moves :
    (owner_id run_id approval_id : ℕ) (approved : Bool) (now : ℕ) (w : World)
    → RunsKeyed w.store.runs
    → Moves w (resolve_approval owner_id run_id approval_id approved now w).1
resolve_approval-Moves owner_id run_id approval_id approved now w h =
    Decides-Moves h (resolve_approval-Decides owner_id run_id approval_id approved now w)

pub create-Moves :
    (owner_id : ℕ) (goal : String) (workspace_id session_id : Option ℕ) (budget : Option RunBudget)
    (fresh now : ℕ) (w : World)
    → Moves w (create owner_id goal workspace_id session_id budget fresh now w).1
unfolding create Store.create_run
create-Moves owner_id goal workspace_id session_id budget fresh now w =
    let row : RunRecord = record {
      run = new_run owner_id goal workspace_id session_id fresh now;
      budget = or_default budget;
    } in
    record {
      advances = λ j.
          ground
            (arith, find-add_row j fresh row w.store.runs, Advances-refl (find j w.store.runs));
      keyed = λ h. ground (arith, add_row-RunsKeyed fresh row w.store.runs refl h);
    }
