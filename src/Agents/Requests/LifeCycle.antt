-- ===== src/Agents/Requests/LifeCycle.antt =====
-- backend/src/spidey/agents/application/run_service.py: what any sequence of requests does to a run.
use spidey.Base.{
  ℕ, true, Option, none, some, ◌≡◌, refl, inl, inr, List, [], ◌∷◌, arith, find, map_option, ap, ◌∙◌,
}
use spidey.Base.Action.{Result, ok, err}
use spidey.Agents.Runs.{RunStatus, is_terminal}
use spidey.Agents.Runs.Transitions.{Leads, here, then, Leads-trans, terminal_has_no_successor}
use spidey.Agents.Store.{RunRecord}
use spidey.Agents.Store.Laws.{RunsKeyed}
use spidey.Agents.Service.{World}
use spidey.Agents.Service.Moves.{
  Advances, Advances-refl, Moves, create-Moves, edit_plan-Moves, cancel-Moves, resume-Moves,
  resolve_approval-Moves,
}
use spidey.Agents.Requests.{Request, handle, settle, perform, perform_all}

settle-Moves : (w : World) (p : Result (Unit {0}) × World) → Moves w p.1 → Moves w (settle w p)
settle-Moves w (ok _, w') m = m
settle-Moves w (err _, w') m = record {
  advances = λ j. Advances-refl (find j w.store.runs);
  keyed = λ h. h;
}

handle-Moves : (r : Request) (w : World) → RunsKeyed w.store.runs → Moves w (handle r w).1
handle-Moves (Request.create o g ws ss b fresh now) w h =
    ground (arith, create-Moves o g ws ss b fresh now w)
handle-Moves (Request.edit_plan o r steps) w h = ground (arith, edit_plan-Moves o r steps w)
handle-Moves (Request.cancel o r now) w h = ground (arith, cancel-Moves o r now w h)
handle-Moves (Request.resume o r now) w h = ground (arith, resume-Moves o r now w h)
handle-Moves (Request.resolve_approval o r a y now) w h = resolve_approval-Moves o r a y now w h

pub perform-Moves : (r : Request) (w : World) → RunsKeyed w.store.runs → Moves w (perform r w)
unfolding perform
perform-Moves r w h = settle-Moves w (handle r w) (handle-Moves r w h)

-- A run before and after some requests: the same owner, and a way along the transition table.
abbrev pub Continues : RunRecord → Option RunRecord → Type 0
Continues r none = ⊥
Continues r (some r') = (r'.run.owner_id ≡ r.run.owner_id) × Leads r.run.status r'.run.status

advance-Continues : (r r' : RunRecord) → Advances (some r) (some r') → Continues r (some r')
advance-Continues r r' (o, inl same) = (o, rw same here)
advance-Continues r r' (o, inr step) = (o, then step here)

Continues-trans :
    (r r' : RunRecord) (o : Option RunRecord)
    → Continues r (some r')
    → Continues r' o
    → Continues r o
Continues-trans r r' none p q = absurd q
Continues-trans r r' (some r'') p q = (q.0 ∙ p.0, Leads-trans p.1 q.1)

-- What one request makes of a run that is there.
performed :
    (j : ℕ) (r : Request) (w : World) {row : RunRecord}
    → RunsKeyed w.store.runs
    → find j w.store.runs ≡ some row
    → (row' : RunRecord) × (find j (perform r w).store.runs ≡ some row') × Continues row (some row')
performed j r w {row} h found = go (find j (perform r w).store.runs) refl
  where
    m : Advances (some row) (find j (perform r w).store.runs)
    m = rw found at ((perform-Moves r w h).advances j)

    go :
        (o : Option RunRecord)
        → find j (perform r w).store.runs ≡ o
        → (row' : RunRecord) × (find j (perform r w).store.runs ≡ some row')
          × Continues row (some row')
    go none e = absurd (rw e at m)
    go (some row') e = (row', e, advance-Continues row row' (rw e at m))

-- Under any sequence of requests, by any users, a run that is there stays there and keeps its owner,
-- and its status only moves along the transition table; the rows stay under their own keys.
pub perform_all-Continues :
    (rs : List Request) (j : ℕ) (w : World) {row : RunRecord}
    → RunsKeyed w.store.runs
    → find j w.store.runs ≡ some row
    → Continues row (find j (perform_all rs w).store.runs) × RunsKeyed (perform_all rs w).store.runs
unfolding perform_all
perform_all-Continues [] j w h found = (rw found (refl, here), h)
perform_all-Continues (r ∷ rs) j w {row} h found =
    let (row', e, c) = performed j r w {row = row} h found in
    let (c', k) =
      perform_all-Continues rs j (perform r w) {row = row'} ((perform-Moves r w h).keyed h) e in
    (Continues-trans row row' (find j (perform_all rs (perform r w)).store.runs) c c', k)

Leads-terminal : {a b : RunStatus} → is_terminal a ≡ true → Leads a b → b ≡ a
Leads-terminal h here = refl
Leads-terminal {a} h (then {b} s p) = cc (terminal_has_no_successor a b h)

-- A run that is completed, failed or cancelled keeps its status under any sequence of requests.
pub perform_all_terminal :
    (rs : List Request) (j : ℕ) (w : World) {row : RunRecord}
    → RunsKeyed w.store.runs
    → find j w.store.runs ≡ some row
    → is_terminal row.run.status ≡ true
    → map_option (λ r. r.run.status) (find j (perform_all rs w).store.runs) ≡ some row.run.status
perform_all_terminal rs j w {row} h found over =
    go (find j (perform_all rs w).store.runs) (perform_all-Continues rs j w h found).0
  where
    go :
        (o : Option RunRecord)
        → Continues row o
        → map_option (λ r. r.run.status) o ≡ some row.run.status
    go none c = absurd c
    go (some r) c = ap some (Leads-terminal over c.1)
