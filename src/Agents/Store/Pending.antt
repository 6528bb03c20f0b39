-- ===== src/Agents/Store/Pending.antt =====
-- backend/src/spidey/agents/infrastructure/run_store.py: the pending approvals of a run.
use spidey.Base.{
  ℕ, suc, true, false, some, ◌≡◌, [], ◌∷◌, arith, Table, find, update, map_option, length, keep,
  find-update,
}
use spidey.Agents.Runs.{Approval, ApprovalStatus, is_pending}
use spidey.Agents.Store.{
  Store, rows, is_open_for, write_decision, pending_approvals, get_approval, resolve_approval,
}

-- A write that closes an open row takes one off the run's open rows.
length-keep-update :
    (run_id k : ℕ) (f : Approval → Approval) (t : Table Approval) {a : Approval}
    → find k t ≡ some a
    → is_open_for run_id a ≡ true
    → is_open_for run_id (f a) ≡ false
    → suc (length (keep (is_open_for run_id) (rows (update k f t))))
      ≡ length (keep (is_open_for run_id) (rows t))
length-keep-update run_id k f [] e o c = cc
length-keep-update run_id k f ((j, v) ∷ t) {a} e o c =
    ground (arith, length-keep-update run_id k f t {a = a})

-- A decision on a pending approval leaves one pending approval fewer.
pub length-pending_approvals :
    (run_id id : ℕ) (st : ApprovalStatus) (by now : ℕ) (s : Store) {a : Approval}
    → get_approval id s ≡ some a
    → a.run_id ≡ run_id
    → is_pending a.status ≡ true
    → is_pending st ≡ false
    → suc (length (pending_approvals run_id (resolve_approval id st by now s)))
      ≡ length (pending_approvals run_id s)
unfolding pending_approvals get_approval resolve_approval
length-pending_approvals run_id id st by now s {a} e r p q =
    length-keep-update run_id id (write_decision st by now) s.approvals e (ground arith)
      (ground arith)

-- The approval that was decided, as it is read afterwards.
pub get_approval-resolve_approval :
    (id : ℕ) (st : ApprovalStatus) (by now : ℕ) (s : Store)
    → get_approval id (resolve_approval id st by now s)
      ≡ map_option (write_decision st by now) (get_approval id s)
unfolding get_approval resolve_approval
get_approval-resolve_approval id st by now s =
    ground (arith, find-update id id (write_decision st by now) s.approvals)
