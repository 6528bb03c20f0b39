-- ===== src/Agents/Service/Decisions.antt =====
-- backend/src/spidey/agents/application/run_service.py `resolve_approval`: a human's decisions.
use spidey.Base.{
  ℕ, suc, Bool, true, false, none, some, ◌≡◌, refl, List, [], ◌∷◌, arith, length, ap, ◌∙◌, subst,
  is_empty, ◌==◌, if◌then◌else◌,
}
use spidey.Base.Action.{Result, ok, err}
use spidey.Platform.Errors.{Error}
use spidey.Agents.Runs.{RunStatus, Run, Approval, ApprovalStatus, is_pending, can_transition}
use spidey.Agents.Store
use spidey.Agents.Store.{Store, get_run, set_status, write_decision}
use spidey.Agents.Store.Laws.{RunsKeyed, get_run_row, find-RunsKeyed}
use spidey.Agents.Store.Pending.{length-pending_approvals, get_approval-resolve_approval}
use spidey.Agents.Service.{World, enqueue, transition, after_decision, resolve_approval, decision}
use spidey.Agents.Service.Moves.{
  recorded, Decides, refused, accepted, resolve_approval-Decides, resolve_approval_accepted,
}

-- What follows a decision leaves the approvals alone.
after_decision-approvals :
    (run : Run) (approved : Bool) (owner_id now : ℕ) (w : World)
    → (after_decision run approved owner_id now w).1.store.approvals ≡ w.store.approvals
unfolding after_decision transition set_status
after_decision-approvals run approved owner_id now w = ground arith

after_decision-get_approval :
    (id : ℕ) (run : Run) (approved : Bool) (owner_id now : ℕ) (w : World)
    → Store.get_approval id (after_decision run approved owner_id now w).1.store
      ≡ Store.get_approval id w.store
unfolding Store.get_approval
after_decision-get_approval id run approved owner_id now w =
    rw (after_decision-approvals run approved owner_id now w)

recorded-get_approval :
    (owner_id run_id id : ℕ) (approved : Bool) (now : ℕ) (w : World) {a : Approval}
    → Store.get_approval id w.store ≡ some a
    → Store.get_approval id (recorded owner_id run_id id approved now w).store
      ≡ some (write_decision (decision approved) owner_id now a)
recorded-get_approval owner_id run_id id approved now w e =
    ground (arith, get_approval-resolve_approval id (decision approved) owner_id now w.store)

decision_not_pending : (approved : Bool) → is_pending (decision approved) ≡ false
decision_not_pending true = refl
decision_not_pending false = refl

module _ (owner_id run_id id : ℕ) (approved : Bool) (now : ℕ) (w : World) where
  -- After a decision that went through, the approval holds it, with who took it and when.
  decided :
      {w' : World}
      → Decides owner_id run_id id approved now w (ok tt, w')
      → (a : Approval) × (Store.get_approval id w'.store
          ≡ some (write_decision (decision approved) owner_id now a))
  decided {w'} (refused x e) = absurd (ground arith)
  decided {w'} (accepted run a e f r p o) =
      let w1 = recorded owner_id run_id id approved now w in
      (
        a,
        ap (λ q. Store.get_approval id q.1.store) o
            ∙ after_decision-get_approval id run approved owner_id now w1
            ∙ recorded-get_approval owner_id run_id id approved now w f,
      )

  -- An approval that holds a decision is not decided again.
  refused_after :
      {a : Approval}
      → Store.get_approval id w.store ≡ some a
      → is_pending a.status ≡ false
      → {out : Result (Unit {0}) × World} → Decides owner_id run_id id approved now w out
      → (x : Error) × (out ≡ (err x, w))
  refused_after e n (refused x o) = (x, o)
  refused_after e n (accepted run a f g r p o) = absurd (ground arith)

-- An approval is decided at most once: after a decision that went through, every later one on the same
-- approval, by any user and for any run, is refused and changes nothing.
pub resolve_approval_once :
    (owner_id run_id id : ℕ) (approved : Bool) (now : ℕ) (w : World) {w' : World}
    (owner_id' run_id' : ℕ) (approved' : Bool) (now' : ℕ)
    → resolve_approval owner_id run_id id approved now w ≡ (ok tt, w')
    → (x : Error) × (resolve_approval owner_id' run_id' id approved' now' w' ≡ (err x, w'))
resolve_approval_once owner_id run_id id approved now w {w'} owner_id' run_id' approved' now' e =
    let (a, g) = decided owner_id run_id id approved now w {w' = w'} (
      subst (λ o. Decides owner_id run_id id approved now w o) e
        (resolve_approval-Decides owner_id run_id id approved now w)) in
    refused_after owner_id' run_id' id approved' now' w'
      {a = write_decision (decision approved) owner_id now a} g (decision_not_pending approved)
      (resolve_approval-Decides owner_id' run_id' id approved' now' w')

is_empty-length {ℓ} : {A : Type ℓ} (xs : List A) → is_empty xs ≡ (length xs == 0)
is_empty-length [] = refl
is_empty-length (x ∷ xs) = ground arith

after_decision-pending :
    (run_id : ℕ) (run : Run) (approved : Bool) (owner_id now : ℕ) (w : World)
    → Store.pending_approvals run_id (after_decision run approved owner_id now w).1.store
      ≡ Store.pending_approvals run_id w.store
unfolding Store.pending_approvals
after_decision-pending run_id run approved owner_id now w =
    rw (after_decision-approvals run approved owner_id now w)

pub required_id :
    (owner_id run_id : ℕ) {run : Run} (w : World)
    → RunsKeyed w.store.runs
    → get_run owner_id run_id w.store ≡ some run
    → run.id ≡ run_id
required_id owner_id run_id w h e =
    let (row, found, same, _) = get_run_row owner_id run_id w.store e in
    ground (arith, find-RunsKeyed run_id {r = row} w.store.runs h found)

-- A run goes on when no approval of it is pending any more, and only then its task is queued.
after_approval :
    (run : Run) (owner_id now : ℕ) (w : World)
    → can_transition run.status RunStatus.running ≡ true
    → let p = after_decision run true owner_id now w in
      let none_left = length (Store.pending_approvals run.id w.store) == 0 in
      (p.0 ≡ ok tt)
      × (p.1.store.runs ≡ (
          if none_left
          then (set_status run.id RunStatus.running none now w.store).runs
          else w.store.runs))
      × (p.1.tasks ≡ (if none_left then (enqueue run.id w).tasks else w.tasks))
unfolding after_decision transition
after_approval run owner_id now w c =
    ground (arith, is_empty-length (Store.pending_approvals run.id w.store))

-- What an approval of a pending request does to a run that waits: one pending approval is gone; the
-- run goes on, and its task is queued, exactly when that was the last one.
pub record GoesOn (run_id now : ℕ) (w : World) (p : Result (Unit {0}) × World) : Type 0 where
  pub done : p.0 ≡ ok tt
  pub one_fewer :
      suc (length (Store.pending_approvals run_id p.1.store))
      ≡ length (Store.pending_approvals run_id w.store)
  pub moved : p.1.store.runs ≡ (
      if length (Store.pending_approvals run_id w.store) == 1
      then (set_status run_id RunStatus.running none now w.store).runs
      else w.store.runs)
  pub queued : p.1.tasks ≡ (
      if length (Store.pending_approvals run_id w.store) == 1
      then (enqueue run_id w).tasks
      else w.tasks)

-- An approval of a pending request of a run that may go on succeeds and leaves one pending approval
-- fewer; exactly when it was the last one, the run is set running and its task is queued.
pub resolve_approval_approves :
    (owner_id run_id id now : ℕ) (w : World) {run : Run} {a : Approval}
    → RunsKeyed w.store.runs
    → get_run owner_id run_id w.store ≡ some run
    → can_transition run.status RunStatus.running ≡ true
    → Store.get_approval id w.store ≡ some a
    → a.run_id ≡ run_id
    → is_pending a.status ≡ true
    → GoesOn run_id now w (resolve_approval owner_id run_id id true now w)
unfolding Store.resolve_approval set_status
resolve_approval_approves owner_id run_id id now w {run} {a} h e c f r p =
    let w1 = recorded owner_id run_id id true now w in
    let same = required_id owner_id run_id {run = run} w h e in
    let fewer =
      length-pending_approvals run_id id ApprovalStatus.approved owner_id now w.store {a = a} f r p
        refl in
    let (done, moved, queued) = after_approval run owner_id now w1 c in
    let kept = after_decision-pending run_id run true owner_id now w1 in
    rw (resolve_approval_accepted owner_id run_id id true now w {run = run} {a = a} e f r p)
      (record {
        done = done;
        one_fewer = ground (arith, fewer, kept);
        moved = ground (arith, moved, fewer, same);
        queued = ground (arith, queued, fewer, same);
      })

-- A rejection of a pending request cancels a run that may be cancelled, and queues nothing.
pub resolve_approval_rejects :
    (owner_id run_id id now : ℕ) (w : World) {run : Run} {a : Approval}
    → RunsKeyed w.store.runs
    → get_run owner_id run_id w.store ≡ some run
    → can_transition run.status RunStatus.cancelled ≡ true
    → Store.get_approval id w.store ≡ some a
    → a.run_id ≡ run_id
    → is_pending a.status ≡ true
    → let p = resolve_approval owner_id run_id id false now w in
      (p.0 ≡ ok tt)
      × (p.1.store.runs ≡ (set_status run_id RunStatus.cancelled none now w.store).runs)
      × (p.1.tasks ≡ w.tasks)
unfolding after_decision transition Store.resolve_approval set_status
resolve_approval_rejects owner_id run_id id now w {run} {a} h e c f r p =
    let same = required_id owner_id run_id {run = run} w h e in
    rw (resolve_approval_accepted owner_id run_id id false now w {run = run} {a = a} e f r p)
      (ground (arith, same))
