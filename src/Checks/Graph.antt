-- ===== src/Checks/Graph.antt =====
-- backend/src/spidey/agents/graph with a model that always gives the same reply.
use spidey.Base.{
  ◌+◌, String, true, false, none, some, ◌≡◌, refl, [], ◌∷◌, All, arith, get_elem?, split_lines,
  str_strip, ◌++◌,
}
use spidey.Base.Action.{Result, ok, err}
use spidey.Llm.Chat
use spidey.Agents.Runs.{RunStatus, PlanStep, StepStatus, default_budget, exhausted}
use spidey.Agents.Store
use spidey.Agents.Store.{Store}
use spidey.Agents.Registry
use spidey.Agents.Registry.Naming.{new_registry-Named}
use spidey.Agents.Graph.{Nodes, State, GraphWorld, initial_state}
use spidey.Agents.Graph.Planning.{parse_plan}
use spidey.Agents.Graph.Review
use spidey.Agents.Graph.Review.{is_exhausted}
use spidey.Agents.Graph.Machine.{Node, drive}
use spidey.Agents.Graph.Termination.{nodes_left, Settled, drive-Settled}
use spidey.Agents.Graph.Licence.{Licensed}
use spidey.Agents.Graph.Licence.Drive.{drive-Licensed}
use spidey.Agents.Graph.Coding
use spidey.Agents.Graph.Proposals.{OwnBacked, coder-Backed}
use spidey.Agents.Graph.Outcome.{sound, stops_sound, drive-sound}
use spidey.Checks.Registry.{plain, guarded, provider, grant}

abbrev reply : Chat.ChatMessage String
reply = record {
  role = Chat.MessageRole.assistant;
  content = "- read the parser\n- fix it";
  tool_calls = record { id = "c1"; name = "workspace.edit"; arguments = "{}" } ∷ [];
  tool_call_id = none;
  name = none;
}

abbrev response : Chat.ChatResponse String
response = record {
  message = reply;
  finish_reason = Chat.FinishReason.tool_use;
  usage = record { prompt_tokens = 10; completion_tokens = 5 };
  provider = "fake";
  model = "fake";
}

abbrev pub env : Nodes
env = record {
  services = plain;
  registry = guarded;
  complete = λ tick role request. ok response;
  git = none;
  pr = none;
  memory = none;
  dumps = λ s. s;
  empty_arguments = "{}";
  path_argument = λ s. some "parser.py";
  read_report = λ s. record { ran = true; passed = true; framework = "pytest" };
  fresh = λ tick. 100 + tick;
  now = λ tick. tick;
  latency = λ tick. 1;
}

abbrev pub row : Store.RunRecord
row = record {
  run = record {
    id = 1;
    owner_id = 7;
    workspace_id = some 30;
    session_id = none;
    goal = "fix the parser";
    status = RunStatus.running;
    error = none;
    base_commit = none;
    created_at = 1;
    updated_at = 1;
  };
  budget = default_budget;
}

abbrev begun : GraphWorld env
begun = record {
  store = record { runs = (1, row) ∷ []; plans = []; approvals = (5, grant) ∷ [] };
  log = record { events = []; calls = [] };
  tick = 0;
}

abbrev fresh_run : State env
fresh_run = initial_state 1 7 (some 30) "fix the parser"

abbrev one_step : State env
one_step = record fresh_run {
  plan = record { index = 0; title = "fix"; detail = ""; status = StepStatus.pending } ∷ [];
}

abbrev second : PlanStep
second = record { index = 1; title = "b"; detail = ""; status = StepStatus.pending }

second_step : get_elem? (parse_plan "- a\n\n* b") 1 ≡ some second
unfolding parse_plan split_lines str_strip
second_step = refl

drive-Settled_example : Settled env (drive env 200 false Node.coder one_step begun).0
unfolding nodes_left
drive-Settled_example =
    drive-Settled env 200 false Node.coder one_step begun (λ e. absurd (ground arith)) (omega arith)

drive-Licensed_example :
    let w' = (drive env 200 false Node.coder one_step begun).1 in All (Licensed env w') w'.log.calls
unfolding Registry.new_registry
drive-Licensed_example =
    drive-Licensed env refl (new_registry-Named plain (provider ∷ []) true false) 200 false
      Node.coder one_step begun tt

drive-sound_example : stops_sound env (drive env 200 false Node.coder one_step begun).0 ≡ true
unfolding sound
drive-sound_example = drive-sound env 200 false Node.coder one_step begun refl

abbrev two_steps : State env
two_steps = record one_step { plan = one_step.plan ++ (second ∷ []) }

abbrev committed : State env
committed = Review.next_step env two_steps

commit-two_steps : Review.commit env two_steps begun ≡ (ok committed, begun)
unfolding Review.commit Review.park Store.get_budget exhausted
commit-two_steps = refl

abbrev state_of : Result (State env) × GraphWorld env → State env
state_of (ok s, w) = s
state_of (err e, w) = one_step

abbrev coded : Result (State env) × GraphWorld env
coded = Coding.coder env one_step begun

coded_ok : Coding.coder env one_step begun ≡ (ok (state_of coded), coded.1)
unfolding Coding.coder Coding.finish_coder Coding.coder_rounds Coding.after_reply Coding.coder_calls
    Coding.coder_call Coding.propose Store.create_approval Registry.spec_for Registry.new_registry
    Store.get_budget Store.set_budget Store.set_status
coded_ok = refl

coder-Backed_example : OwnBacked env 1 coded.1 (state_of coded).proposals
coder-Backed_example = coder-Backed env one_step (state_of coded) begun coded.1 (tt, tt) coded_ok
