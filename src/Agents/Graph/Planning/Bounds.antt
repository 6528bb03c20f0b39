-- ===== src/Agents/Graph/Planning/Bounds.antt =====
-- backend/src/spidey/agents/graph/nodes.py `_parse_plan`: how large a drafted plan is.
use spidey.Base.{
  ℕ, zero, suc, ◌+◌, ◌≤◌, String, some, ◌≡◌, refl, List, [], ◌∷◌, arith, length, length-take,
  get_elem?, take, str_len, str_len-str_take, split_lines,
}
use spidey.Agents.Runs.{PlanStep, StepStatus}
use spidey.Agents.Graph.Planning.{max_steps, parse_plan, number_steps, plan_lines, or_goal}

length-number_steps : (i : ℕ) (ls : List String) → length (number_steps i ls) ≡ length ls
unfolding number_steps
length-number_steps i [] = refl
length-number_steps i (l ∷ ls) = omega (arith, length-number_steps (suc i) ls)

length-or_goal :
    (ls : List String) → length ls ≤ 12 → (1 ≤ length (or_goal ls)) × (length (or_goal ls) ≤ 12)
length-or_goal [] h = (omega arith, omega arith)
length-or_goal (l ∷ ls) h = (omega arith, omega arith)

-- A drafted plan has a step at least and twelve at most, whatever the planner replied.
pub length-parse_plan :
    (reply : String) → (1 ≤ length (parse_plan reply)) × (length (parse_plan reply) ≤ max_steps)
unfolding parse_plan
length-parse_plan reply =
    let lines = plan_lines (split_lines reply) in
    let counted = length-number_steps 0 (or_goal (take max_steps lines)) in
    let bounds =
      length-or_goal (take max_steps lines) (omega (arith, length-take max_steps lines)) in
    (omega arith, omega arith)

get_elem?-number_steps :
    (i j : ℕ) (ls : List String) {step : PlanStep}
    → get_elem? (number_steps i ls) j ≡ some step
    → (step.index ≡ i + j) × (str_len step.title ≤ 200) × (step.status ≡ StepStatus.pending)
unfolding number_steps
get_elem?-number_steps i j [] e = absurd (ground arith)
get_elem?-number_steps i zero (l ∷ ls) e = ground (arith, str_len-str_take 200 l)
get_elem?-number_steps i (suc j) (l ∷ ls) {step} e =
    ground (arith, get_elem?-number_steps (suc i) j ls {step = step} e)

-- The step at each place of a drafted plan bears that place as its index, waits, and has a title of at
-- most two hundred characters.
pub get_elem?-parse_plan :
    (reply : String) (i : ℕ) {step : PlanStep}
    → get_elem? (parse_plan reply) i ≡ some step
    → (step.index ≡ i) × (str_len step.title ≤ 200) × (step.status ≡ StepStatus.pending)
unfolding parse_plan
get_elem?-parse_plan reply i {step} e =
    let lines = take max_steps (plan_lines (split_lines reply)) in
    ground (arith, get_elem?-number_steps 0 i (or_goal lines) {step = step} e)
