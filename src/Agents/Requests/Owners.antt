-- ===== src/Agents/Requests/Owners.antt =====
-- backend/src/spidey/agents/application/run_service.py: whose runs a request reaches.
use spidey.Base.{
  ℕ, Bool, true, false, Option, none, some, ◌≡◌, ◌≢◌, refl, ◌∙◌, inl, inr, List, arith, find,
  find-upsert, find-add_row, Option-cases, String,
}
use spidey.Base.Action.{Result, ok, err}
use spidey.Agents.Runs.{RunStatus, Run, RunBudget, Plan, PlanStep}
use spidey.Agents.Store
use spidey.Agents.Store.{RunRecord, Store, get_run, set_status, write_decision}
use spidey.Agents.Store.Laws.{
  RunsKeyed, find-set_status, set_status-others, find-RunsKeyed, get_run_row,
}
use spidey.Agents.Service.{
  World, new_run, or_default, require_run, transition, after_decision, create, edit_plan, cancel,
  resume, next_version,
}
use spidey.Agents.Service.Moves.{recorded, Decides, refused, accepted, resolve_approval-Decides}
use spidey.Agents.Requests.{Request, handle, settle, perform}

-- Who sends a request.
abbrev pub sender : Request → ℕ
sender (Request.create o g ws ss b fresh now) = o
sender (Request.edit_plan o r steps) = o
sender (Request.cancel o r now) = o
sender (Request.resume o r now) = o
sender (Request.resolve_approval o r a y now) = o

module _ (j : ℕ) (w : World) where
  -- The run's row and its plan are as they were.
  abbrev Untouched : World → Type 0
  Untouched w' =
      (find j w'.store.runs ≡ find j w.store.runs) × (find j w'.store.plans ≡ find j w.store.plans)

  transition-Untouched :
      (run : Run) (target : RunStatus) (actor now : ℕ)
      → j ≢ run.id
      → Untouched (transition run target actor now w).1
  unfolding transition
  transition-Untouched run target actor now ne = ground (
    arith,
    find-set_status j run.id target none now w.store,
    set_status-others run.id target none now w.store,
  )

-- The runs that an owner is let at are the owner's.
other_run :
    (owner_id run_id j : ℕ) (w : World) {run : Run} {row : RunRecord}
    → RunsKeyed w.store.runs
    → find j w.store.runs ≡ some row
    → owner_id ≢ row.run.owner_id
    → get_run owner_id run_id w.store ≡ some run
    → (j ≢ run.id) × (j ≢ run_id)
other_run owner_id run_id j w {run} {row} h found foreign e =
    let (r, there, same, mine) = get_run_row owner_id run_id w.store e in
    let keyed = find-RunsKeyed run_id {r = r} w.store.runs h there in (ground arith, ground arith)

module _ (j : ℕ) (w : World) {row : RunRecord} (h : RunsKeyed w.store.runs)
    (found : find j w.store.runs ≡ some row) where
  cancel-Untouched : (o r now : ℕ) → o ≢ row.run.owner_id → Untouched j w (cancel o r now w).1
  unfolding cancel require_run
  cancel-Untouched o r now ne = elim (Option-cases (get_run o r w.store)) [
    | inl absent ↦ ground arith
    | inr (run, e) ↦ ground (
      arith,
      transition-Untouched j w run RunStatus.cancelled o now
          (other_run o r j w {run = run} {row = row} h found ne e).0,
    )
  ]

  resume-Untouched : (o r now : ℕ) → o ≢ row.run.owner_id → Untouched j w (resume o r now w).1
  unfolding resume require_run
  resume-Untouched o r now ne = elim (Option-cases (get_run o r w.store)) [
    | inl absent ↦ ground arith
    | inr (run, e) ↦ ground (
      arith,
      transition-Untouched j w run RunStatus.running o now
          (other_run o r j w {run = run} {row = row} h found ne e).0,
    )
  ]

  edit_plan-Untouched :
      (o r : ℕ) (steps : Option (List PlanStep))
      → o ≢ row.run.owner_id
      → Untouched j w (edit_plan o r steps w).1
  unfolding edit_plan require_run Store.save_plan Store.get_plan
  edit_plan-Untouched o r none ne = ground arith
  edit_plan-Untouched o r (some steps) ne = elim (Option-cases (get_run o r w.store)) [
    | inl absent ↦ ground arith
    | inr (run, e) ↦
        let other = other_run o r j w {run = run} {row = row} h found ne e in
        let plan : Plan = record { version = next_version (find r w.store.plans); steps = steps } in
        ground (arith, other, find-upsert j r plan w.store.plans)
  ]

  after_decision-Untouched :
      (run : Run) (y : Bool) (o now : ℕ)
      → j ≢ run.id
      → Untouched j w (after_decision run y o now w).1
  unfolding after_decision
  after_decision-Untouched run false o now ne =
      ground (arith, transition-Untouched j w run RunStatus.cancelled o now ne)
  after_decision-Untouched run true o now ne =
      ground (arith, transition-Untouched j w run RunStatus.running o now ne)

  create-Untouched :
      (o : ℕ) (g : String) (ws ss : Option ℕ) (b : Option RunBudget) (fresh now : ℕ)
      → Untouched j w (create o g ws ss b fresh now w).1
  unfolding create Store.create_run
  create-Untouched o g ws ss b fresh now =
      let r : RunRecord = record { run = new_run o g ws ss fresh now; budget = or_default b } in
      ground (arith, find-add_row j fresh r w.store.runs)

resolve-Untouched :
    (j : ℕ) (w : World) {row : RunRecord} (h : RunsKeyed w.store.runs)
    (found : find j w.store.runs ≡ some row) (o r a : ℕ) (y : Bool) (now : ℕ)
    → o ≢ row.run.owner_id
    → {out : Result (Unit {0}) × World} → Decides o r a y now w out
    → Untouched j w out.1
unfolding Store.resolve_approval
resolve-Untouched j w h found o r a y now ne (refused x same) = rw same (refl, refl)
resolve-Untouched j w {row} h found o r a y now ne (accepted run ap e f q p out) =
    let w1 = recorded o r a y now w in
    rw out (
      after_decision-Untouched j w1 {row = row} h found run y o now
        (other_run o r j w {run = run} {row = row} h found ne e).0)

handle-Untouched :
    (r : Request) (j : ℕ) (w : World) {row : RunRecord} (h : RunsKeyed w.store.runs)
    (found : find j w.store.runs ≡ some row)
    → sender r ≢ row.run.owner_id
    → Untouched j w (handle r w).1
handle-Untouched (Request.create o g ws ss b fresh now) j w {row} h f ne =
    ground (arith, create-Untouched j w {row = row} h f o g ws ss b fresh now)
handle-Untouched (Request.edit_plan o r steps) j w {row} h f ne =
    ground (arith, edit_plan-Untouched j w {row = row} h f o r steps ne)
handle-Untouched (Request.cancel o r now) j w {row} h f ne =
    ground (arith, cancel-Untouched j w {row = row} h f o r now ne)
handle-Untouched (Request.resume o r now) j w {row} h f ne =
    ground (arith, resume-Untouched j w {row = row} h f o r now ne)
handle-Untouched (Request.resolve_approval o r a y now) j w {row} h f ne =
    resolve-Untouched j w {row = row} h f o r a y now ne (resolve_approval-Decides o r a y now w)

settle-Untouched :
    (j : ℕ) (w : World) (p : Result (Unit {0}) × World)
    → Untouched j w p.1
    → Untouched j w (settle w p)
settle-Untouched j w (ok _, w') u = u
settle-Untouched j w (err _, w') u = (refl, refl)

-- A request changes neither the row nor the plan of a run that belongs to someone else.
pub perform_foreign :
    (r : Request) (j : ℕ) (w : World) {row : RunRecord}
    → RunsKeyed w.store.runs
    → find j w.store.runs ≡ some row
    → sender r ≢ row.run.owner_id
    → (find j (perform r w).store.runs ≡ some row)
      × (find j (perform r w).store.plans ≡ find j w.store.plans)
unfolding perform
perform_foreign r j w {row} h found ne =
    let u = settle-Untouched j w (handle r w) (handle-Untouched r j w {row = row} h found ne) in
    (u.0 ∙ found, u.1)
