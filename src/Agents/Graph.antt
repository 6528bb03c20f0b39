-- ===== src/Agents/Graph.antt =====
-- backend/src/spidey/agents/graph/state.py, and what the nodes of
-- backend/src/spidey/agents/graph/nodes.py share: the run's state, the services that they hold, and
-- the helpers for events, status and budget.
-- The state between nodes is `RunState`; what a node writes beside it is the `GraphWorld`. A service of
-- another context answers each call by a function of the tick at which it is made, so that nothing is
-- assumed of two answers; a fresh `uuid` and the clock are read in the same way.
pub mod Planning
pub mod Coding
pub mod Review
pub mod Delivery
pub mod Machine
pub mod Frames
pub mod Termination
pub mod Licence
pub mod Outcome
pub mod Proposals
use spidey.Base.{
  ℕ, suc, ◌+◌, String, Bool, true, false, Option, none, some, List, [], ◌∷◌, ◌++◌, if◌then◌else◌,
  get_elem?,
}
use spidey.Base.Action.{Action, Result, ok, err, pure, raise, gets, or_raise, ◌>>=◌, ◌>>◌, modify}
use spidey.Platform.Errors.{Error}
use spidey.Platform.Events.{EventPayload, EventEnvelope, envelope_of}
use spidey.Identity.Roles as IdentityRoles
use spidey.Llm.Chat
use spidey.Agents.Runs.{RunStatus, status_value, RunBudget, PlanStep, Approval}
use spidey.Agents.Store
use spidey.Agents.Store.{Store}
use spidey.Agents.Tools.{ToolContext, ToolResult, ToolSpec}
use spidey.Agents.Registry
use spidey.Agents.Registry.{Services, ToolRegistry, Log}

-- What the parsed output of the test tool says: whether `ran` and `passed` are truthy, and the
-- `framework`; output that is no JSON object has neither.
pub record TestReport : Type 0 where
  pub ran : Bool
  pub passed : Bool
  pub framework : String

-- backend/src/spidey/workspaces/application/git_workflow.py `RunBranch` and `CommitOutcome`, where
-- `blocked` lists the kinds of the secrets that were found.
pub record RunBranch : Type 0 where
  pub branch : String
  pub base_commit : Option String

pub record CommitOutcome : Type 0 where
  pub commit_sha : Option String
  pub blocked : List String

pub record PullRequest : Type 0 where
  pub number : ℕ
  pub url : String

pub record GitWorkflow : Type 0 where
  pub prepare_run_branch : (tick workspace_id run_id : ℕ) → Result RunBranch
  pub commit_step :
      (tick workspace_id run_id step_index : ℕ) (summary : String) → Result CommitOutcome
  pub run_diff : (tick workspace_id : ℕ) (base : Option String) → Result String

pub record PrDelivery : Type 0 where
  pub deliver : (tick workspace_id : ℕ) (branch title body : String) → Result (Option PullRequest)

-- Recalled memories as the block of text that frames them; `none` where nothing is recalled.
pub record Recall : Type 0 where
  pub recall :
      (tick : ℕ) (query : String) (workspace_id : Option ℕ) (user_id : ℕ) → Result (Option String)

-- The services of `GraphNodes.__init__`, and the functions of Python's `json`, `uuid` and `datetime`.
pub record Nodes : Type 1 where
  pub services : Services
  pub registry : ToolRegistry services
  pub complete :
      (tick : ℕ) (role : Chat.Role) (request : Chat.ChatRequest (services.Json))
      → Result (Chat.ChatResponse (services.Json))
  pub git : Option GitWorkflow
  pub pr : Option PrDelivery
  pub memory : Option Recall
  pub dumps : services.Json → String
  pub empty_arguments : services.Json
  pub path_argument : services.Json → Option String
  pub read_report : String → TestReport
  pub fresh : (tick : ℕ) → ℕ
  pub now : (tick : ℕ) → ℕ
  pub latency : (tick : ℕ) → ℕ

-- A write-tool call that waits for a human's approval.
pub record Proposal (Json : Type 0) : Type 0 where
  pub approval_id : ℕ
  pub tool : String
  pub arguments : Json

pub record RunState (Json : Type 0) : Type 0 where
  pub run_id : ℕ
  pub owner_id : ℕ
  pub workspace_id : Option ℕ
  pub goal : String
  pub plan : List PlanStep
  pub step_index : ℕ
  pub transcript : List String
  pub status : RunStatus
  pub proposals : List (Proposal Json)
  pub applied : List String
  pub critique : String
  pub review_round : ℕ
  pub branch : String
  pub base_commit : Option String
  pub test_report : String
  pub tests_passed : Option Bool
  pub debug_round : ℕ
  pub docs : String
  pub pr_url : String

abbrev pub initial_state :
    {Json : Type 0}
    → (run_id owner_id : ℕ) (workspace_id : Option ℕ) (goal : String) → RunState Json
initial_state run_id owner_id workspace_id goal = record {
  run_id = run_id;
  owner_id = owner_id;
  workspace_id = workspace_id;
  goal = goal;
  plan = [];
  step_index = 0;
  transcript = [];
  status = RunStatus.pending;
  proposals = [];
  applied = [];
  critique = "";
  review_round = 0;
  branch = "";
  base_commit = none;
  test_report = "";
  tests_passed = none;
  debug_round = 0;
  docs = "";
  pr_url = "";
}

module _ (N : Nodes) where
  open N use {services}

  pub record GraphWorld : Type 0 where
    pub store : Store
    pub log : Log services
    pub tick : ℕ

  -- A call of a service of another context, or of the clock.
  abbrev pub ask : {A : Type 0} → (ℕ → Result A) → Action GraphWorld A
  ask f w = (f w.tick, record w { tick = suc w.tick })

  abbrev pub read : {A : Type 0} → (ℕ → A) → Action GraphWorld A
  read f w = (ok (f w.tick), record w { tick = suc w.tick })

  abbrev pub on_store : (Store → Store) → GraphWorld → GraphWorld
  on_store f w = record w { store = f w.store }

  abbrev pub of_store : {A : Type 0} → (Store → A) → Action GraphWorld A
  of_store f w = (ok (f w.store), w)

  -- `_emit`
  abbrev pub emit : EventPayload → RunState (services.Json) → Action GraphWorld (Unit {0})
  emit p s w = (
    ok tt,
    record w {
      log = record (w.log) {
        events =
            w.log.events
            ++ (envelope_of p (some s.run_id) none s.workspace_id (some s.owner_id) none none ∷ []);
      };
    },
  )

  -- `_set_status`
  abbrev pub set_status : RunStatus → RunState (services.Json) → Action GraphWorld (Unit {0})
  set_status status s = do
    now ← read N.now
    modify (on_store (Store.set_status s.run_id status none now))
    emit (EventPayload.run_status_changed (status_value status) none) s

  abbrev add_spend : ℕ → Bool → RunBudget → RunBudget
  add_spend tokens count_step b = record b {
    steps_used = b.steps_used + (if count_step then 1 else 0);
    tokens_used = b.tokens_used + tokens;
  }

  abbrev charge : ℕ → ℕ → Bool → Store → Store
  charge run_id tokens count_step s = elim (Store.get_budget run_id s) [
    | none ↦ s
    | some b ↦ Store.set_budget run_id (add_spend tokens count_step b) s
  ]

  -- `_charge_budget`
  abbrev pub charge_budget :
      RunState (services.Json) → (tokens : ℕ) (count_step : Bool) → Action GraphWorld (Unit {0})
  charge_budget s tokens count_step = modify (on_store (charge s.run_id tokens count_step))

  abbrev reset_steps : ℕ → Store → Store
  reset_steps run_id s = elim (Store.get_budget run_id s) [
    | none ↦ s
    | some b ↦ Store.set_budget run_id (record b { steps_used = 0 }) s
  ]

  -- `_grant_budget_window`
  abbrev pub grant_budget_window : RunState (services.Json) → Action GraphWorld (Unit {0})
  grant_budget_window s = modify (on_store (reset_steps s.run_id))

  -- `_tool_context`
  abbrev pub tool_context : RunState (services.Json) → IdentityRoles.Role → ToolContext
  tool_context s role = record {
    actor_user_id = s.owner_id;
    role = role;
    run_id = some s.run_id;
    session_id = none;
    workspace_id = s.workspace_id;
    trace_id = none;
    span_id = none;
  }

  abbrev pub State : Type 0
  State = RunState (services.Json)

  -- What is done with git in a run with a workspace, and what otherwise.
  abbrev pub with_git : {A : Type 0} → RunState (services.Json) → (GitWorkflow → ℕ → A) → A → A
  with_git s f skip = elim N.git [
    | none ↦ skip
    | some g ↦ elim s.workspace_id [ none ↦ skip | some ws ↦ f g ws ]
  ]

  -- `state["plan"][index]`, which raises an IndexError out of range.
  abbrev pub current_step : RunState (services.Json) → Action GraphWorld PlanStep
  current_step s = or_raise (get_elem? s.plan s.step_index) Error.unhandled

  -- A call of the registry, at the clock's latency.
  abbrev pub invoke_tool :
      (name : String) (arguments : services.Json)
      → ToolContext
      → Option Approval
      → Action GraphWorld ToolResult
  invoke_tool name arguments context approval = do
    latency ← read N.latency
    λ w.
        let (r, l) =
          Registry.invoke services N.registry name arguments context approval latency w.log in
        (ok r, record w { log = l })

  abbrev pub tool_spec : String → Option (ToolSpec (services.Json))
  tool_spec name = Registry.spec_for services N.registry name

  -- A line at the end of the transcript.
  abbrev pub note_line : String → RunState (services.Json) → RunState (services.Json)
  note_line line s = record s { transcript = s.transcript ++ (line ∷ []) }
