-- ===== src/Agents/Graph/Frames.antt =====
-- backend/src/spidey/agents/graph/nodes.py: what each node leaves alone in the run's state.
use spidey.Base.{
  ◌+◌, ◌<◌, ◌≡◌, ◌⊎◌, inl, inr, List, [], ◌∷◌, ◌++◌, arith, length, length-append,
  get_elem?-eq_some, Option-cases, get_elem?,
}
use spidey.Base.Action.{ok}
use spidey.Base.Action.Rules.{>>=-eq-ok}
use spidey.Agents.Store
use spidey.Agents.Graph.{Nodes, State, GraphWorld, Proposal}
use spidey.Agents.Graph.Coding
use spidey.Agents.Graph.Planning
use spidey.Agents.Graph.Planning.{approved_steps}
use spidey.Agents.Graph.Review
use spidey.Agents.Graph.Delivery

length-snoc {ℓ} : {A : Type ℓ} (xs : List A) (x : A) → length (xs ++ (x ∷ [])) ≡ length xs + 1
length-snoc xs x = omega (arith, length-append xs (x ∷ []))

module _ (N : Nodes) where
  -- The fields that place the run: who and where it is, its plan, and what its tests said.
  pub record Keeps (s s' : State N) : Type 0 where
    pub run_id : s'.run_id ≡ s.run_id
    pub owner_id : s'.owner_id ≡ s.owner_id
    pub workspace_id : s'.workspace_id ≡ s.workspace_id
    pub plan : s'.plan ≡ s.plan
    pub step_index : s'.step_index ≡ s.step_index
    pub debug_round : s'.debug_round ≡ s.debug_round
    pub tests_passed : s'.tests_passed ≡ s.tests_passed

  module _ (s s' : State N) (w w' : GraphWorld N) where
    pub branch-Keeps :
        Planning.branch N s w ≡ (ok s', w') → Keeps s s' × (s'.review_round ≡ s.review_round)
    unfolding Planning.branch
    branch-Keeps e = ground arith

    pub coder-Keeps :
        Coding.coder N s w ≡ (ok s', w')
        → Keeps s s' × (s'.review_round ≡ s.review_round) × (s'.applied ≡ s.applied)
    unfolding Coding.coder Coding.finish_coder
    coder-Keeps e = ground arith

    pub gate_edits-Keeps :
        Coding.gate_edits N s w ≡ (ok s', w') → Keeps s s' × (s'.review_round ≡ s.review_round)
    unfolding Coding.gate_edits
    gate_edits-Keeps e = ground arith

    pub reviewer-Keeps :
        Review.reviewer N s w ≡ (ok s', w')
        → Keeps s s' × ((s'.critique ≡ "") ⊎ (s'.review_round ≡ s.review_round + 1))
    unfolding Review.reviewer Review.review
    reviewer-Keeps e = ground arith

    pub budget_gate-Keeps :
        Review.budget_gate N s w ≡ (ok s', w') → Keeps s s' × (s'.review_round ≡ s.review_round)
    unfolding Review.budget_gate
    budget_gate-Keeps e = ground arith

    pub document-Keeps : Delivery.document N s w ≡ (ok s', w') → Keeps s s'
    unfolding Delivery.document
    document-Keeps e = ground arith

    pub pr_gate-Keeps : Delivery.pr_gate N s w ≡ (ok s', w') → Keeps s s'
    unfolding Delivery.pr_gate
    pr_gate-Keeps e = ground arith

    pub open_pr-Keeps : Delivery.open_pr N s w ≡ (ok s', w') → Keeps s s'
    unfolding Delivery.open_pr Delivery.deliver_pr
    open_pr-Keeps e = ground arith

    -- A step that is committed was there; its round of review is over.
    pub commit_frame :
        Review.commit N s w ≡ (ok s', w')
        → (s'.plan ≡ s.plan)
          × (s'.step_index ≡ s.step_index + 1)
          × (s'.debug_round ≡ s.debug_round)
          × (s'.review_round ≡ 0)
          × (s.step_index < length s.plan)
    unfolding Review.commit Review.land_step Review.report_commit Review.park
    commit_frame e = elim (Option-cases (get_elem? s.plan s.step_index)) [
      | inl beyond ↦ absurd (ground arith)
      | inr (step, found) ↦ ground (arith, get_elem?-eq_some s.plan s.step_index {x = step} found)
    ]

    pub test_frame :
        Delivery.test N s w ≡ (ok s', w')
        → (s'.plan ≡ s.plan) × (s'.step_index ≡ s.step_index) × (s'.debug_round ≡ s.debug_round)
    unfolding Delivery.test Delivery.run_tests
    test_frame e = ground arith

    -- A failure puts one step at the end of the plan and counts one round.
    pub debug_frame :
        Delivery.debug N s w ≡ (ok s', w')
        → (length s'.plan ≡ length s.plan + 1)
          × (s'.step_index ≡ s.step_index)
          × (s'.debug_round ≡ s.debug_round + 1)
          × (s'.review_round ≡ 0)
    unfolding Delivery.debug
    debug_frame e = grind (arith, length-snoc)

    pub approve_frame :
        Planning.approve N s w ≡ (ok s', w')
        → (s'.plan ≡ approved_steps N (Store.get_plan s.run_id w.store) s.plan)
          × (s'.step_index ≡ 0)
          × (s'.debug_round ≡ s.debug_round)
          × (s'.review_round ≡ s.review_round)
    unfolding Planning.approve
    approve_frame e = ground arith

  Keeps-trans : {s s' s'' : State N} → Keeps s s' → Keeps s' s'' → Keeps s s''
  Keeps-trans a b = ground arith

  apply_one-Keeps :
      (p : Proposal (N.services.Json)) (s s' : State N) (w w' : GraphWorld N)
      → Coding.apply_one N p s w ≡ (ok s', w')
      → Keeps s s' × (s'.review_round ≡ s.review_round)
  unfolding Coding.apply_one
  apply_one-Keeps p s s' w w' e = ground arith

  apply_each-Keeps :
      (ps : List (Proposal (N.services.Json))) (s s' : State N) (w w' : GraphWorld N)
      → Coding.apply_each N ps s w ≡ (ok s', w')
      → Keeps s s' × (s'.review_round ≡ s.review_round)
  unfolding Coding.apply_each
  apply_each-Keeps [] s s' w w' e = ground arith
  apply_each-Keeps (p ∷ ps) s s' w w' e =
      let (s1, w1, first, rest) =
        >>=-eq-ok (Coding.apply_one N p s) (λ t. Coding.apply_each N ps t) w e in
      ground (arith, apply_one-Keeps p s s1 w w1 first, apply_each-Keeps ps s1 s' w1 w' rest)

  pub apply_edits-Keeps :
      (s s' : State N) (w w' : GraphWorld N)
      → Coding.apply_edits N s w ≡ (ok s', w')
      → Keeps s s' × (s'.review_round ≡ s.review_round) × (s'.proposals ≡ [])
  unfolding Coding.apply_edits Coding.announce_edits
  apply_edits-Keeps s s' w w' e =
      let (s1, w1, each, rest) =
        >>=-eq-ok (Coding.apply_each N s.proposals s) (Coding.announce_edits N s) w e in
      ground (arith, apply_each-Keeps s.proposals s s1 w w1 each)
