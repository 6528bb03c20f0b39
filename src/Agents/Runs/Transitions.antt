-- ===== src/Agents/Runs/Transitions.antt =====
-- backend/src/spidey/agents/domain/runs.py: the shape of the transition table.
use spidey.Base.{true, false, ◌≡◌, refl, arith}
use spidey.Agents.Runs.{RunStatus, can_transition, is_terminal}

-- A terminal status has no successor.
pub terminal_has_no_successor :
    (a b : RunStatus) → is_terminal a ≡ true → can_transition a b ≡ false
unfolding can_transition is_terminal
terminal_has_no_successor a b h = ground arith

-- The way from one status to another by allowed transitions.
pub data Leads : RunStatus → RunStatus → Type 0 where
  here : {a : RunStatus} → Leads a a
  then : {a b c : RunStatus} → can_transition a b ≡ true → Leads b c → Leads a c

-- From `pending` every status can be reached.
pub Leads-pending : (a : RunStatus) → Leads RunStatus.pending a
unfolding can_transition
Leads-pending RunStatus.pending = here
Leads-pending RunStatus.planning = then {b = RunStatus.planning} refl here
Leads-pending RunStatus.awaiting_approval =
    then {b = RunStatus.planning} refl (then {b = RunStatus.awaiting_approval} refl here)
Leads-pending RunStatus.running =
    then {b = RunStatus.planning} refl (then {b = RunStatus.running} refl here)
Leads-pending RunStatus.needs_human =
    then {b = RunStatus.planning} refl
      (then {b = RunStatus.running} refl (then {b = RunStatus.needs_human} refl here))
Leads-pending RunStatus.completed =
    then {b = RunStatus.planning} refl
      (then {b = RunStatus.running} refl (then {b = RunStatus.completed} refl here))
Leads-pending RunStatus.failed = then {b = RunStatus.failed} refl here
Leads-pending RunStatus.cancelled = then {b = RunStatus.cancelled} refl here

pub Leads-trans : {a b c : RunStatus} → Leads a b → Leads b c → Leads a c
Leads-trans here q = q
Leads-trans (then s p) q = then s (Leads-trans p q)
