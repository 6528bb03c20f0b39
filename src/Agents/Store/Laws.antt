-- ===== src/Agents/Store/Laws.antt =====
-- backend/src/spidey/agents/infrastructure/run_store.py: the keys of the rows, and what each write
-- does to each row.
use spidey.Base.{
  ℕ, String, Option, some, ◌≡◌, refl, [], ◌∷◌, ◌==◌, if◌then◌else◌, arith, Table, find, update,
  add_row, map_option, find-update,
}
use spidey.Agents.Runs.{RunStatus, Run}
use spidey.Agents.Store.{RunRecord, Store, set_status, write_status, get_run}

abbrev pub RunsKeyed : Table RunRecord → Type 0
RunsKeyed [] = Unit
RunsKeyed ((k, r) ∷ t) = (r.run.id ≡ k) × RunsKeyed t

-- A run that is found has the identifier it was looked up by.
pub find-RunsKeyed :
    (k : ℕ) {r : RunRecord} (t : Table RunRecord) → RunsKeyed t → find k t ≡ some r → r.run.id ≡ k
find-RunsKeyed k [] h e = cc
find-RunsKeyed k {r} ((j, v) ∷ t) h e = ground (arith, find-RunsKeyed k {r = r} t h.1)

pub update-RunsKeyed :
    (k : ℕ) (f : RunRecord → RunRecord) (t : Table RunRecord)
    → ((r : RunRecord) → (f r).run.id ≡ r.run.id)
    → RunsKeyed t
    → RunsKeyed (update k f t)
update-RunsKeyed k f [] same h = tt
update-RunsKeyed k f ((j, v) ∷ t) same h = ground (arith, same v, update-RunsKeyed k f t same h.1)

pub add_row-RunsKeyed :
    (k : ℕ) (r : RunRecord) (t : Table RunRecord)
    → r.run.id ≡ k
    → RunsKeyed t
    → RunsKeyed (add_row k r t)
add_row-RunsKeyed k r [] e h = (e, tt)
add_row-RunsKeyed k r ((j, v) ∷ t) e h = (h.0, add_row-RunsKeyed k r t e h.1)

-- A write of a status touches one row.
pub find-set_status :
    (j k : ℕ) (st : RunStatus) (e : Option String) (now : ℕ) (s : Store)
    → find j (set_status k st e now s).runs
      ≡ (if j == k then map_option (write_status st e now) (find k s.runs) else find j s.runs)
unfolding set_status
find-set_status j k st e now s = find-update j k (write_status st e now) s.runs

-- The run that an owner reads is the row's, and it is the owner's.
pub get_run_row :
    (owner_id run_id : ℕ) {r : Run} (s : Store)
    → get_run owner_id run_id s ≡ some r
    → (row : RunRecord) × (find run_id s.runs ≡ some row) × (row.run ≡ r) × (r.owner_id ≡ owner_id)
unfolding get_run
get_run_row owner_id run_id s e = ground arith

pub set_status-others :
    (k : ℕ) (st : RunStatus) (e : Option String) (now : ℕ) (s : Store)
    → ((set_status k st e now s).plans ≡ s.plans)
      × ((set_status k st e now s).approvals ≡ s.approvals)
unfolding set_status
set_status-others k st e now s = (refl, refl)
