-- ===== src/Agents/Graph/Planning.antt =====
-- backend/src/spidey/agents/graph/nodes.py: the nodes `plan`, `approve` and `branch`.
pub mod Bounds
pub mod Waits
use spidey.Base.{
  ℕ, suc, String, Bool, true, false, not, ◌||◌, Option, none, some, List, [], ◌∷◌, ◌==◌, map,
  if◌then◌else◌, take, is_empty, length, str_take, str_strip, is_space, str_truthy, split_lines,
  str_concat,
}
use spidey.Base.Action.{Action, Result, ok, err, pure, ◌>>=◌, ◌>>◌, modify}
use spidey.Platform.Events.{EventPayload}
use spidey.Llm.Chat
use spidey.Llm.Chat.{text}
use spidey.Agents.Runs.{RunStatus, Plan, PlanStep, StepStatus}
use spidey.Agents.Store
use spidey.Agents.Graph.{
  Nodes, State, GraphWorld, ask, on_store, of_store, emit, set_status, with_git, Recall, RunBranch,
  GitWorkflow,
}

abbrev pub max_steps : ℕ
max_steps = 12

-- The characters of `" -*\t"`.
abbrev is_bullet : ℕ → Bool
is_bullet c = c == b' ' || c == b'-' || c == b'*' || c == 9

-- The lines that are not blank, without their bullets.
plan_lines : List String → List String
plan_lines [] = []
plan_lines (l ∷ ls) =
    if str_truthy (str_strip is_space l)
    then str_strip is_bullet l ∷ plan_lines ls
    else plan_lines ls

abbrev or_goal : List String → List String
or_goal [] = "Complete the goal" ∷ []
or_goal (l ∷ ls) = l ∷ ls

number_steps : ℕ → List String → List PlanStep
number_steps i [] = []
number_steps i (l ∷ ls) =
    record { index = i; title = str_take 200 l; detail = ""; status = StepStatus.pending }
    ∷ number_steps (suc i) ls

-- `_parse_plan`
unfoldable pub parse_plan : String → List PlanStep
unfolding plan_lines number_steps
parse_plan reply = number_steps 0 (or_goal (take max_steps (plan_lines (split_lines reply))))

abbrev plan_system : String
plan_system =
    "You are a planning agent. Break the user's goal into a short, ordered list of concrete steps (one per line, no numbering). Keep it under 8 steps."

module _ (N : Nodes) where
  open N use {services}

  -- `_recall`
  abbrev recall : State N → Action (GraphWorld N) (Option String)
  recall s = elim N.memory [
    | none ↦ pure none
    | some m ↦ ask N (λ t. m.recall t s.goal s.workspace_id s.owner_id)
  ]

  abbrev goal_message : State N → Option String → String
  goal_message s none = s.goal
  goal_message s (some framed) = str_concat (framed ∷ "\n\nGoal: " ∷ s.goal ∷ [])

  -- The draft is asked for, saved and announced.
  unfoldable pub draft : State N → Action (GraphWorld N) (List PlanStep)
  draft s = do
    set_status N RunStatus.planning s
    recalled ← recall s
    response ← ask N (λ t. N.complete t Chat.Role.planner (record {
      messages =
          Chat.system_message _ plan_system ∷ Chat.user_message _ (goal_message s recalled) ∷ [];
      tools = [];
      max_tokens = 512;
      temperature = 0;
    }))
    let steps = parse_plan (text response)
    let drafted : Plan = record { version = 1; steps = steps }
    modify (on_store N (Store.save_plan s.run_id drafted))
    emit N (EventPayload.plan_created 1 (length steps)) s
    pure steps

  -- The run waits for a human to approve the draft.
  unfoldable pub await_plan : State N → List PlanStep → Action (GraphWorld N) (State N)
  await_plan s steps = do
    set_status N RunStatus.awaiting_approval s
    pure (record s { plan = steps; status = RunStatus.awaiting_approval })

  unfoldable pub plan : State N → Action (GraphWorld N) (State N)
  plan s = draft s >>= await_plan s

  abbrev pub approved_steps : Option Plan → List PlanStep → List PlanStep
  approved_steps none steps = steps
  approved_steps (some p) steps = p.steps

  -- The node behind its interrupt, which is its first call.
  unfoldable pub approve : State N → Action (GraphWorld N) (State N)
  approve s = do
    approved ← of_store N (Store.get_plan s.run_id)
    let steps = approved_steps approved s.plan
    set_status N RunStatus.running s
    pure (record s { plan = steps; step_index = 0; transcript = []; status = RunStatus.running })

  abbrev on_branch : GitWorkflow → ℕ → State N → Action (GraphWorld N) (State N)
  on_branch git workspace s = do
    prepared ← ask N (λ t. git.prepare_run_branch t workspace s.run_id)
    modify (on_store N (Store.set_base_commit s.run_id prepared.base_commit))
    pure (record s { branch = prepared.branch; base_commit = prepared.base_commit })

  unfoldable pub branch : State N → Action (GraphWorld N) (State N)
  branch s = with_git N s (λ g ws. on_branch g ws s) (pure s)
