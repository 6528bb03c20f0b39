-- ===== src/Agents/Graph/Machine.antt =====
-- backend/src/spidey/agents/graph/build.py and the routes of
-- backend/src/spidey/agents/graph/nodes.py: the run graph as a machine.
-- LangGraph runs one node after another. A node whose first call is `interrupt` pauses the graph there,
-- and the next resume runs it from behind that call.
use spidey.Base.{
  ℕ, zero, suc, Bool, true, false, not, ◌&&◌, ◌||◌, Option, none, some, leb, ltb, if◌then◌else◌,
  is_some, is_empty, length, str_truthy,
}
use spidey.Base.Action.{Action, pure, ◌>>=◌}
use spidey.Agents.Runs.{RunStatus, same_status}
use spidey.Agents.Graph.{Nodes, State, GraphWorld}
use spidey.Agents.Graph.Planning
use spidey.Agents.Graph.Coding
use spidey.Agents.Graph.Review
use spidey.Agents.Graph.Review.{max_review_rounds}
use spidey.Agents.Graph.Delivery

pub data Node : Type 0 where
  plan approve branch coder gate_edits apply_edits reviewer commit budget_gate : Node
  test debug document pr_gate open_pr escalate finalize end : Node

abbrev pub max_debug_rounds : ℕ
max_debug_rounds = 2

-- The nodes that begin with an interrupt.
abbrev pub interrupts : Node → Bool
interrupts Node.approve = true
interrupts Node.gate_edits = true
interrupts Node.budget_gate = true
interrupts Node.pr_gate = true
interrupts _ = false

abbrev pub is_end : Node → Bool
is_end Node.end = true
is_end _ = false

abbrev pub stops : Bool → Node → Bool
stops resumed at = is_end at || (interrupts at && not resumed)

abbrev pub failing : Option Bool → Bool
failing none = false
failing (some passed) = not passed

module _ (N : Nodes) where
  unfoldable pub route_after_coder : State N → Node
  route_after_coder s =
      if not (is_empty s.proposals)
      then Node.gate_edits
      else if not (is_empty s.applied)
      then Node.reviewer
      else Node.commit

  unfoldable pub route_after_reviewer : State N → Node
  route_after_reviewer s =
      if str_truthy s.critique && ltb s.review_round max_review_rounds
      then Node.coder
      else Node.commit

  unfoldable pub route_after_commit : State N → Node
  route_after_commit s =
      if leb (length s.plan) s.step_index
      then Node.test
      else if same_status s.status RunStatus.needs_human
      then Node.budget_gate
      else Node.coder

  unfoldable pub route_after_test : State N → Node
  route_after_test s =
      if failing s.tests_passed
      then if ltb s.debug_round max_debug_rounds then Node.debug else Node.escalate
      else Node.document

  unfoldable pub route_after_document : State N → Node
  route_after_document s =
      if is_some N.pr && is_some s.workspace_id then Node.pr_gate else Node.finalize

  -- The edges of `build_run_graph`.
  unfoldable pub next_node : Node → State N → Node
  next_node Node.plan s = Node.approve
  next_node Node.approve s = Node.branch
  next_node Node.branch s = Node.coder
  next_node Node.coder s = route_after_coder s
  next_node Node.gate_edits s = Node.apply_edits
  next_node Node.apply_edits s = Node.reviewer
  next_node Node.reviewer s = route_after_reviewer s
  next_node Node.commit s = route_after_commit s
  next_node Node.budget_gate s = Node.coder
  next_node Node.test s = route_after_test s
  next_node Node.debug s = Node.coder
  next_node Node.document s = route_after_document s
  next_node Node.pr_gate s = Node.open_pr
  next_node Node.open_pr s = Node.finalize
  next_node Node.escalate s = Node.end
  next_node Node.finalize s = Node.end
  next_node Node.end s = Node.end

  unfoldable pub run_node : Node → State N → Action (GraphWorld N) (State N)
  run_node Node.plan = Planning.plan N
  run_node Node.approve = Planning.approve N
  run_node Node.branch = Planning.branch N
  run_node Node.coder = Coding.coder N
  run_node Node.gate_edits = Coding.gate_edits N
  run_node Node.apply_edits = Coding.apply_edits N
  run_node Node.reviewer = Review.reviewer N
  run_node Node.commit = Review.commit N
  run_node Node.budget_gate = Review.budget_gate N
  run_node Node.test = Delivery.test N
  run_node Node.debug = Delivery.debug N
  run_node Node.document = Delivery.document N
  run_node Node.pr_gate = Delivery.pr_gate N
  run_node Node.open_pr = Delivery.open_pr N
  run_node Node.escalate = Delivery.escalate N
  run_node Node.finalize = Delivery.finalize N
  run_node Node.end = pure

  -- How one call of `graph.ainvoke` stops.
  pub data Stop : Type 0 where
    paused : Node → State N → Stop
    ended : State N → Stop
    out_of_fuel : Stop

  abbrev pub stop_at : Node → State N → Stop
  stop_at Node.end s = ended s
  stop_at at s = paused at s

  -- One call of `graph.ainvoke`, from a node on; `resumed` is true where it resumes that node.
  unfoldable pub drive : (fuel : ℕ) → (resumed : Bool) → Node → State N → Action (GraphWorld N) Stop
  drive zero resumed at s = pure out_of_fuel
  drive (suc f) resumed at s = elim (stops resumed at) [
    | true ↦ pure (stop_at at s)
    | false ↦ run_node at s >>= λ s'. drive f false (next_node at s') s'
  ]
