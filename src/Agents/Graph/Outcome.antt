-- ===== src/Agents/Graph/Outcome.antt =====
-- backend/src/spidey/agents/graph: how a run ends, and what its commits leave of its budget.
use spidey.Base.{
  ℕ, zero, suc, Bool, true, false, not, ◌&&◌, ◌||◌, ◌≡◌, ◌≢◌, refl, sym, subst, ◌∙◌, inl, inr,
  arith, Bool-cases,
}
use spidey.Base.Action.{Result, ok, err}
use spidey.Agents.Runs.{RunStatus, same_status}
use spidey.Agents.Store
use spidey.Agents.Graph.{Nodes, State, GraphWorld}
use spidey.Agents.Graph.Review
use spidey.Agents.Graph.Review.{is_exhausted}
use spidey.Agents.Graph.Delivery
use spidey.Agents.Graph.Machine.{
  Node, next_node, run_node, Stop, paused, ended, out_of_fuel, drive, stops, stop_at, failing,
  is_end, route_after_coder, route_after_reviewer, route_after_commit, route_after_test,
  route_after_document,
}
use spidey.Agents.Graph.Frames.{document-Keeps, pr_gate-Keeps, open_pr-Keeps}
use spidey.Agents.Graph.Termination.{drive_go, drive_stop, after_node}

-- The nodes that stand behind the tests.
abbrev pub is_delivery : Node → Bool
is_delivery Node.document = true
is_delivery Node.pr_gate = true
is_delivery Node.open_pr = true
is_delivery Node.finalize = true
is_delivery _ = false

module _ (N : Nodes) where
  -- A run past its tests, or completed, has no failed tests.
  record Tested (at : Node) (s : State N) : Type 0 where
    delivers : is_delivery at ≡ true → failing s.tests_passed ≡ false
    completes : at ≡ Node.end → s.status ≡ RunStatus.completed → failing s.tests_passed ≡ false

  module _ (s s' : State N) (w w' : GraphWorld N) where
    finalize_frame : Delivery.finalize N s w ≡ (ok s', w') → s'.tests_passed ≡ s.tests_passed
    unfolding Delivery.finalize
    finalize_frame e = ground arith

    escalate_frame : Delivery.escalate N s w ≡ (ok s', w') → s'.status ≡ RunStatus.needs_human
    unfolding Delivery.escalate
    escalate_frame e = ground arith

    far-Tested : {at : Node} → is_delivery at ≡ false → at ≢ Node.end → Tested at s'
    far-Tested d n = record { delivers = λ h. absurd (ground arith); completes = λ h. absurd (n h) }

    near-Tested : {at : Node} → at ≢ Node.end → failing s'.tests_passed ≡ false → Tested at s'
    near-Tested n h = record { delivers = λ d. h; completes = λ c st. h }

    end-Tested :
        (s'.status ≡ RunStatus.completed → failing s'.tests_passed ≡ false) → Tested Node.end s'
    end-Tested h = record { delivers = λ d. absurd (ground arith); completes = λ c. h }

    unsettled : (at : Node) → Bool
    unsettled Node.document = false
    unsettled Node.pr_gate = false
    unsettled Node.open_pr = false
    unsettled Node.finalize = false
    unsettled Node.escalate = false
    unsettled Node.test = false
    unsettled Node.end = false
    unsettled _ = true

    next_node-far :
        (at : Node)
        → unsettled at ≡ true
        → (is_delivery (next_node N at s') ≡ false) × (next_node N at s' ≢ Node.end)
    unfolding unsettled next_node route_after_coder route_after_reviewer route_after_commit
    next_node-far at h = (ground arith, ground arith)

    test-Tested : Tested (route_after_test N s') s'
    unfolding route_after_test
    test-Tested = elim (Bool-cases (failing s'.tests_passed)) [
      | inl bad ↦ far-Tested (ground arith) (ground arith)
      | inr good ↦ near-Tested (ground arith) good
    ]

    document-Tested : failing s'.tests_passed ≡ false → Tested (route_after_document N s') s'
    unfolding route_after_document
    document-Tested h = near-Tested (ground arith) h

    run_node-Tested :
        (at : Node) → Tested at s → run_node N at s w ≡ (ok s', w') → Tested (next_node N at s') s'
    unfolding run_node next_node unsettled
    run_node-Tested Node.test h e = test-Tested
    run_node-Tested Node.document h e =
        document-Tested (ground (arith, document-Keeps N s s' w w' e, h.delivers))
    run_node-Tested Node.pr_gate h e =
        near-Tested (ground arith) (ground (arith, pr_gate-Keeps N s s' w w' e, h.delivers))
    run_node-Tested Node.open_pr h e =
        near-Tested (ground arith) (ground (arith, open_pr-Keeps N s s' w w' e, h.delivers))
    run_node-Tested Node.finalize h e =
        end-Tested (λ c. ground (arith, finalize_frame e, h.delivers))
    run_node-Tested Node.escalate h e = end-Tested (λ c. absurd (ground (arith, escalate_frame e)))
    run_node-Tested Node.end h e = end-Tested (λ c. ground (arith, h.completes))
    run_node-Tested at h e = let far = next_node-far at (ground arith) in far-Tested far.0 far.1

  -- A run with failed tests is neither past them nor completed.
  unfoldable pub sound : Node → State N → Bool
  sound at s = not (
      failing s.tests_passed
      && (is_delivery at || (is_end at && same_status s.status RunStatus.completed)))

  unfoldable pub stops_sound : Result (Stop N) → Bool
  stops_sound (ok (paused at s)) = sound at s
  stops_sound (ok (ended s)) = sound Node.end s
  stops_sound (ok out_of_fuel) = true
  stops_sound (err e) = true

  sound→Tested : (at : Node) (s : State N) → sound at s ≡ true → Tested at s
  unfolding sound
  sound→Tested at s h = record { delivers = λ d. ground arith; completes = λ e c. ground arith }

  Tested→sound : (at : Node) (s : State N) → Tested at s → sound at s ≡ true
  unfolding sound
  Tested→sound at s h = ground (arith, h.delivers, h.completes)

  stop_at-sound :
      (resumed : Bool) (at : Node) (s : State N)
      → stops resumed at ≡ true
      → stops_sound (ok (stop_at N at s)) ≡ sound at s
  unfolding stops_sound
  stop_at-sound resumed at s h = ground arith

  -- A call of the graph from a sound node, a delivery node included if the tests did not fail, stops
  -- soundly, if it stops: it never completes a run whose tests failed, and pauses no such run before its
  -- pull request.
  pub drive-sound :
      (fuel : ℕ) (resumed : Bool) (at : Node) (s : State N) (w : GraphWorld N)
      → sound at s ≡ true
      → stops_sound (drive N fuel resumed at s w).0 ≡ true
  drive-sound zero resumed at s w h = unfold drive stops_sound in refl
  drive-sound (suc f) resumed at s w h = elim (Bool-cases (stops resumed at)) [
    | inl stop ↦
        subst (λ x. stops_sound x.0 ≡ true) (sym (drive_stop N f resumed at s w stop))
          (stop_at-sound resumed at s stop ∙ h)
    | inr go ↦
        subst (λ x. stops_sound x.0 ≡ true) (sym (drive_go N f resumed at s w go))
          (after_node N (λ r. stops_sound r ≡ true) (run_node N at s w)
            (λ s'. drive N f false (next_node N at s') s') (λ e. unfold stops_sound in refl)
            (λ s' w' e. drive-sound f false (next_node N at s') s' w' (
              Tested→sound (next_node N at s') s'
                (run_node-Tested s s' w w' at (sound→Tested at s h) e))))
  ]

  -- A commit that is followed by more coding leaves budget: the run's budget in the store is not used
  -- up.
  pub commit_within_budget :
      (s s' : State N) (w w' : GraphWorld N)
      → Review.commit N s w ≡ (ok s', w')
      → next_node N Node.commit s' ≡ Node.coder
      → is_exhausted N (Store.get_budget s.run_id w'.store) ≡ false
  unfolding Review.commit Review.land_step Review.report_commit Review.park next_node
      route_after_commit
  commit_within_budget s s' w w' e more = ground arith
