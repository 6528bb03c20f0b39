-- ===== src/Identity/Admin/Keeping.antt =====
-- The endpoints of backend/src/spidey/api/v1/users.py: what every sequence of requests keeps.
use spidey.Base.{
  ℕ, suc, ◌≡◌, refl, sym, subst, String, true, false, ◌||◌, Option, none, some, List, [], ◌∷◌, ◌==◌,
  Bool-cases, inl, inr, arith, is_some, find, ltb, str_len, str_contains,
}
use spidey.Base.Action.{Result, ok, err, pure, or_raise, ◌>>=◌, ◌>>◌}
use spidey.Base.Action.Rules.{Keeps, >>=-Keeps, raise_if-Keeps}
use spidey.Platform.Errors.{Error}
use spidey.Identity.Roles.{Role, role_value, satisfies}
use spidey.Identity.Users
use spidey.Identity.Users.{User, StoredUser, Db, new_user, get_by_id, text}
use spidey.Identity.Auth.{Ports, AuthWorld, validate_new_password, normalize_email}
use spidey.Identity.Auth.Sessions.{active_user, request, conclude}
use spidey.Identity.Admin.{
  AdminRequest, AdminCall, create, delete, audit_created, flush_user, insert, insert_valid,
  create_user, delete_user, current_user, require_role, run_call, handle, perform, perform_all,
}
use spidey.Identity.Admin.Tables.{
  UsersKeyed, IsAdmin, Administered, find-UsersKeyed, add_row-Administered, delete_row-Administered,
}

satisfies-admin : (held : Role) → satisfies held Role.admin ≡ true → held ≡ Role.admin
unfolding satisfies
satisfies-admin Role.admin h = refl
satisfies-admin Role.developer h = absurd (ground (arith, h))
satisfies-admin Role.viewer h = absurd (ground (arith, h))

-- Both what the session sees and what is committed.
abbrev BothAdministered : AuthWorld → Type 0
BothAdministered w = Administered w.session.users × Administered w.committed.users

module _ (P : Ports) (str_id : ℕ → String) where
  validate_new_password-Keeps :
      (password email : String) → Keeps BothAdministered (validate_new_password P password email)
  unfolding validate_new_password
  validate_new_password-Keeps password email w q = elim (Bool-cases (ltb (str_len password) 12)) [
    | inl e ↦ rw e q
    | inr e ↦ rw e (elim (Bool-cases (ltb 128 (str_len password))) [
      | inl f ↦ rw f q
      | inr f ↦ rw f (
          raise_if-Keeps BothAdministered
            (str_contains (normalize_email P email) (P.lower password)) _ w q)
    ])
  ]

  flush_user-Administered :
      (id now : ℕ) (email h : String) (role : Role) (w : AuthWorld)
      → BothAdministered w
      → BothAdministered (flush_user (Users.create_user id now email h role w.session) w).1
  unfolding Users.create_user
  flush_user-Administered id now email h role w q =
      elim (Bool-cases
        (is_some (Users.get_by_email email w.session) || is_some (find id w.session.users))) [
          | inl e ↦ rw e q
          | inr e ↦
              rw e (
                add_row-Administered id (new_user id now email h role) w.session.users refl q.0,
                q.1,
              )
        ]

  insert_valid-Keeps :
      (email password : String) (role : Role)
      → Keeps BothAdministered (insert_valid P str_id email password role)
  unfolding insert_valid
  insert_valid-Keeps email password role w q =
      flush_user-Administered (P.fresh (suc w.tick)) (P.now (suc (suc w.tick))) email
        (P.hash w.tick password) role (record w { tick = suc (suc (suc w.tick)) }) q

  insert-Keeps :
      (email password : String) (role : Role)
      → Keeps BothAdministered (insert P str_id email password role)
  unfolding insert
  insert-Keeps email password role =
      >>=-Keeps BothAdministered (validate_new_password P password email)
        (λ _. insert_valid P str_id email password role)
        (validate_new_password-Keeps password email) (λ _. insert_valid-Keeps email password role)

  create_user-Keeps :
      (actor : User) (email password : String) (role : Role) (request_id : Option String)
      → Keeps BothAdministered (create_user P str_id actor email password role request_id)
  unfolding create_user
  create_user-Keeps actor email password role request_id =
      >>=-Keeps BothAdministered (insert P str_id (normalize_email P email) password role)
        (audit_created actor.id (normalize_email P email) request_id
          (("role", text (role_value role)) ∷ []))
        (insert-Keeps (normalize_email P email) password role) (λ created w q. q)

  delete_user-Administered :
      (user_id : ℕ) (st : StoredUser) (db : Db)
      → UsersKeyed db.users
      → find st.user.id db.users ≡ some st
      → IsAdmin st
      → (user_id == st.user.id) ≡ false
      → Administered (Users.delete_user user_id db).1.users
  unfolding Users.delete_user
  delete_user-Administered user_id st db keyed there is other =
      elim (Bool-cases (is_some (find user_id db.users))) [
        | inl e ↦ rw e (delete_row-Administered user_id db.users st keyed there is other)
        | inr e ↦ rw e (keyed, st.user.id, st, there, is)
      ]

  delete_user-Both :
      (st : StoredUser) (user_id : ℕ) (request_id : Option String) (w : AuthWorld)
      → BothAdministered w
      → find st.user.id w.session.users ≡ some st
      → IsAdmin st
      → BothAdministered (delete_user P str_id st.user user_id request_id w).1
  unfolding delete_user Users.revoke_all_for_user
  delete_user-Both st user_id request_id w q there is = elim (Bool-cases (user_id == st.user.id)) [
    | inl e ↦ rw e q
    | inr e ↦
        let db = Users.revoke_all_for_user user_id (P.now w.tick) w.session in
        let kept : Administered (Users.delete_user user_id db).1.users
            × Administered w.committed.users =
          (delete_user-Administered user_id st db q.0.0 there is e, q.1) in
        rw e (elim (Bool-cases (Users.delete_user user_id db).0) [
          | inl f ↦ rw f kept
          | inr f ↦ rw f kept
        ])
  ]

  run_call-Both :
      (st : StoredUser) (request_id : Option String) (c : AdminCall) (w : AuthWorld)
      → BothAdministered w
      → find st.user.id w.session.users ≡ some st
      → IsAdmin st
      → BothAdministered (run_call P str_id st.user request_id c w).1
  run_call-Both st request_id (create email password role) w q there is =
      >>=-Keeps BothAdministered (create_user P str_id st.user email password role request_id)
        (λ _. pure tt) (create_user-Keeps st.user email password role request_id) (λ created v r. r)
        w q
  run_call-Both st request_id (delete user_id) w q there is =
      delete_user-Both st user_id request_id w q there is

  require_role-Both :
      (st : StoredUser) (r : AdminRequest) (w : AuthWorld)
      → BothAdministered w
      → find st.user.id w.session.users ≡ some st
      → st.user.is_active ≡ true
      → BothAdministered
          ((require_role P str_id Role.admin st.user r.target r.request_id
              >> run_call P str_id st.user r.request_id r.call)
            w).1
  unfolding require_role
  require_role-Both st r w q there live = elim (Bool-cases (satisfies st.user.role Role.admin)) [
    | inl e ↦
        rw e (run_call-Both st r.request_id r.call w q there (satisfies-admin st.user.role e, live))
    | inr e ↦ rw e q
  ]

  admit-Both :
      (r : AdminRequest) (user_id : ℕ) (w : AuthWorld) (stored : Option StoredUser)
      → BothAdministered w
      → find user_id w.session.users ≡ stored
      → BothAdministered
          ((or_raise (active_user stored) (Error.unauthorized "account is no longer active")
              >>= λ user.
                  require_role P str_id Role.admin user r.target r.request_id
                  >> run_call P str_id user r.request_id r.call)
            w).1
  admit-Both r user_id w none q e = q
  admit-Both r user_id w (some st) q e = elim (Bool-cases st.user.is_active) [
    | inl live ↦
        let own : st.user.id ≡ user_id =
          find-UsersKeyed user_id {st = st} w.session.users q.0.0 e in
        simp live (
          require_role-Both st r w q
            (subst (λ (k : ℕ). find k w.session.users ≡ some st) (sym own) e) live)
    | inr f ↦ rw f q
  ]

  handle-Keeps : (r : AdminRequest) → Keeps BothAdministered (handle P str_id r)
  unfolding handle current_user Users.get_by_id
  handle-Keeps r w q = go r.claims
    where
      go :
          (claims : Result ℕ)
          → BothAdministered
              ((current_user P str_id claims >>= λ user.
                  require_role P str_id Role.admin user r.target r.request_id
                  >> run_call P str_id user r.request_id r.call)
                w).1
      go (err e) = q
      go (ok user_id) = admit-Both r user_id w (find user_id w.session.users) q refl

  perform-Administered :
      (r : AdminRequest) (w : AuthWorld)
      → Administered w.committed.users
      → Administered (perform P str_id r w).committed.users
  unfolding perform request
  perform-Administered r w h =
      go (handle P str_id r (record w { session = w.committed }))
        (handle-Keeps r (record w { session = w.committed }) (h, h))
    where
      go :
          (p : Result (Unit {0}) × AuthWorld)
          → BothAdministered p.1
          → Administered (conclude p).1.committed.users
      go (ok _, v) q = q.0
      go (err e, v) q = q.1

  -- An instance with an active administrator has one after any sequence of requests to the
  -- administration of users, by whomever: administrators cannot lock themselves out.
  pub perform_all-Administered :
      (rs : List AdminRequest) (w : AuthWorld)
      → Administered w.committed.users
      → Administered (perform_all P str_id rs w).committed.users
  unfolding perform_all
  perform_all-Administered [] w h = h
  perform_all-Administered (r ∷ rs) w h =
      perform_all-Administered rs (perform P str_id r w) (perform-Administered r w h)
