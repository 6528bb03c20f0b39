-- ===== src/Identity/Admin/Tables.antt =====
-- Tables of users that hold an active administrator, for the services of backend/src/spidey/identity.
use spidey.Base.{
  ℕ, ◌≡◌, refl, true, false, some, [], ◌∷◌, ◌==◌, Bool-cases, inl, inr, arith, Table, find, add_row,
  delete_row, find-add_row, find-delete_row,
}
use spidey.Identity.Roles.{Role}
use spidey.Identity.Users.{StoredUser}

-- Every row stands behind its own identifier.
abbrev pub UsersKeyed : Table StoredUser → Type 0
UsersKeyed [] = Unit
UsersKeyed ((k, st) ∷ t) = (st.user.id ≡ k) × UsersKeyed t

abbrev pub IsAdmin : StoredUser → Type 0
IsAdmin st = (st.user.role ≡ Role.admin) × (st.user.is_active ≡ true)

-- Some active administrator is there.
abbrev pub Administered : Table StoredUser → Type 0
Administered t = UsersKeyed t × (id : ℕ) × (st : StoredUser) × (find id t ≡ some st) × IsAdmin st

pub find-UsersKeyed :
    (k : ℕ) {st : StoredUser} (t : Table StoredUser)
    → UsersKeyed t
    → find k t ≡ some st
    → st.user.id ≡ k
find-UsersKeyed k [] h e = absurd (ground (arith, e))
find-UsersKeyed k {st} ((j, v) ∷ t) h e = ground (arith, find-UsersKeyed k {st = st} t h.1)

add_row-UsersKeyed :
    (k : ℕ) (st : StoredUser) (t : Table StoredUser)
    → st.user.id ≡ k
    → UsersKeyed t
    → UsersKeyed (add_row k st t)
add_row-UsersKeyed k st [] e h = (e, tt)
add_row-UsersKeyed k st ((j, v) ∷ t) e h = (h.0, add_row-UsersKeyed k st t e h.1)

delete_row-UsersKeyed : (k : ℕ) (t : Table StoredUser) → UsersKeyed t → UsersKeyed (delete_row k t)
delete_row-UsersKeyed k [] h = tt
delete_row-UsersKeyed k ((j, v) ∷ t) h = elim (Bool-cases (k == j)) [
  | inl e ↦ rw e (delete_row-UsersKeyed k t h.1)
  | inr e ↦ rw e (h.0, delete_row-UsersKeyed k t h.1)
]

pub add_row-Administered :
    (k : ℕ) (st : StoredUser) (t : Table StoredUser)
    → st.user.id ≡ k
    → Administered t
    → Administered (add_row k st t)
add_row-Administered k st t e (keyed, id, admin, there, is) =
    (add_row-UsersKeyed k st t e keyed, id, admin, rw (find-add_row id k st t, there) refl, is)

-- An administrator deletes someone else.
pub delete_row-Administered :
    (k : ℕ) (t : Table StoredUser) (st : StoredUser)
    → UsersKeyed t
    → find st.user.id t ≡ some st
    → IsAdmin st
    → (k == st.user.id) ≡ false
    → Administered (delete_row k t)
delete_row-Administered k t st keyed there is other =
    let apart : (st.user.id == k) ≡ false = ground (arith, other) in
    (
      delete_row-UsersKeyed k t keyed,
      st.user.id,
      st,
      rw (find-delete_row st.user.id k t, apart) there,
      is,
    )
