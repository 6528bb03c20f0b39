-- ===== src/Agents/Graph/Planning/Waits.antt =====
-- backend/src/spidey/agents/graph/nodes.py `plan`: what becomes of a draft.
use spidey.Base.{true, none, some, ◌≡◌, List, arith, find, find-upsert, map_option, is_some}
use spidey.Base.Action.{ok}
use spidey.Base.Action.Rules.{>>=-eq-ok}
use spidey.Agents.Runs.{PlanStep, RunStatus}
use spidey.Agents.Store
use spidey.Agents.Store.Laws.{find-set_status, set_status-others}
use spidey.Agents.Graph.{Nodes, State, GraphWorld}
use spidey.Agents.Graph.Planning

module _ (N : Nodes) where
  module _ (s : State N) (g : GraphWorld N) where
    draft_lem :
        {steps : List PlanStep} {g' : GraphWorld N}
        → Planning.draft N s g ≡ (ok steps, g')
        → (is_some (find s.run_id g'.store.runs) ≡ is_some (find s.run_id g.store.runs))
          × (Store.get_plan s.run_id g'.store ≡ some (record { version = 1; steps = steps }))
    unfolding Planning.draft Store.save_plan Store.get_plan
    draft_lem {steps} {g'} e =
        let now = N.now g.tick in
        let planning = Store.set_status s.run_id RunStatus.planning none now g.store in
        (
          ground (arith, find-set_status s.run_id s.run_id RunStatus.planning none now g.store),
          ground (
            arith,
            find-upsert s.run_id s.run_id (record { version = 1; steps = steps }) planning.plans,
          ),
        )

    await_plan_lem :
        (steps : List PlanStep) {s' : State N} {g' : GraphWorld N}
        → Planning.await_plan N s steps g ≡ (ok s', g')
        → (s' ≡ record s { plan = steps; status = RunStatus.awaiting_approval })
          × (g'.store
              ≡ Store.set_status s.run_id RunStatus.awaiting_approval none (N.now g.tick) g.store)
    unfolding Planning.await_plan
    await_plan_lem steps e = ground arith

  -- A plan that is drafted for a run of the store is the plan that is saved, and the run waits for its
  -- approval.
  pub plan_lem :
      (s : State N) (g : GraphWorld N) {s' : State N} {g' : GraphWorld N}
      → Planning.plan N s g ≡ (ok s', g')
      → is_some (find s.run_id g.store.runs) ≡ true
      → (map_option (λ r. r.run.status) (find s.run_id g'.store.runs)
          ≡ some RunStatus.awaiting_approval)
        × (Store.get_plan s.run_id g'.store ≡ some (record { version = 1; steps = s'.plan }))
        × (s'.status ≡ RunStatus.awaiting_approval)
  unfolding Planning.plan Store.get_plan
  plan_lem s g {s'} {g'} e there =
      let (steps, g1, drafted, awaits) =
        >>=-eq-ok (Planning.draft N s) (Planning.await_plan N s) g e in
      let (kept, saved) = draft_lem s g {steps = steps} {g' = g1} drafted in
      let (waits, written) = await_plan_lem s g1 steps {s' = s'} {g' = g'} awaits in
      let now = N.now g1.tick in
      let status =
        find-set_status s.run_id s.run_id RunStatus.awaiting_approval none now g1.store in
      let plans = set_status-others s.run_id RunStatus.awaiting_approval none now g1.store in
      (
        ground (arith, there, kept, written, status),
        ground (arith, saved, written, plans, waits),
        ground (arith, waits),
      )
