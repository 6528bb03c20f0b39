-- ===== src/Identity/Admin.antt =====
-- backend/src/spidey/identity/application/user_service.py behind the endpoints of
-- backend/src/spidey/api/v1/users.py, with `get_current_user` and `require_role` of
-- backend/src/spidey/api/deps.py. Parameters: the decoded bearer token of a request, and how an
-- identifier is printed.
pub mod Tables
pub mod Keeping
pub mod Bootstrap
pub mod Deletion
use spidey.Base.{
  ℕ, String, Bool, true, false, not, Option, none, some, List, [], ◌∷◌, ◌==◌, ltb, if◌then◌else◌,
}
use spidey.Base.Action.{
  Action, Result, ok, err, pure, raise, gets, or_raise, ◌>>=◌, ◌>>◌, raise_if, modify, when,
}
use spidey.Platform.Errors.{Error}
use spidey.Identity.Roles.{Role, role_value, satisfies}
use spidey.Identity.Users
use spidey.Identity.Users.{User, StoredUser, AuditAction, Detail, text, flag, AuditEntry, Db}
use spidey.Identity.Auth.{
  Ports, AuthWorld, in_session, independently, read, log, normalize_email, validate_new_password,
}
use spidey.Identity.Auth.Sessions.{active_user, request}

abbrev admin_entry :
    AuditAction
    → (outcome : String) → (actor : ℕ) → (target : String) → (request_id : Option String)
    → List (String × Detail)
    → AuditEntry
admin_entry action outcome actor target request_id details = record {
  action = action;
  outcome = outcome;
  actor_user_id = some actor;
  target = some target;
  source_ip = none;
  request_id = request_id;
  details = details;
}

-- A row that was flushed, or the conflict.
abbrev pub flush_user : Result (User × Db) → Action AuthWorld User
flush_user (ok (user, db)) w = (ok user, record w { session = db })
flush_user (err e) w = (err e, w)

-- A user who was created is recorded, in the same session, and returned.
abbrev pub audit_created :
    (actor : ℕ) (address : String) (request_id : Option String)
    → List (String × Detail)
    → User
    → Action AuthWorld User
audit_created actor address request_id details created = do
  modify (
      in_session
        (log (admin_entry AuditAction.user_created "success" actor address request_id details)))
  pure created

-- The endpoints that change users.
pub data AdminCall : Type 0 where
  create : (email password : String) → Role → AdminCall
  delete : (user_id : ℕ) → AdminCall

-- A request: what decoding its token gives, its method and path, and its identifier.
pub record AdminRequest : Type 0 where
  pub claims : Result ℕ
  pub target : String
  pub request_id : Option String
  pub call : AdminCall

module _ (P : Ports) (str_id : ℕ → String) where
  -- The row of a new user whose password is valid.
  unfoldable pub insert_valid : (email password : String) → Role → Action AuthWorld User
  insert_valid email password role = do
    h ← read (λ t. P.hash t password)
    id ← read P.fresh
    now ← read P.now
    created ← gets (λ w. Users.create_user id now email h role w.session)
    flush_user created

  unfoldable pub insert : (email password : String) → Role → Action AuthWorld User
  insert email password role = do
    validate_new_password P password email
    insert_valid email password role

  unfoldable pub create_user :
      (actor : User) (email password : String)
      → Role
      → (request_id : Option String) → Action AuthWorld User
  create_user actor email password role request_id = do
    let address = normalize_email P email
    created ← insert address password role
    audit_created actor.id address request_id (("role", text (role_value role)) ∷ []) created

  abbrev pub list_users : Action AuthWorld (List User)
  list_users = gets (λ w. Users.list_all w.session)

  unfoldable pub delete_user :
      (actor : User) (user_id : ℕ) (request_id : Option String) → Action AuthWorld (Unit {0})
  delete_user actor user_id request_id = do
    raise_if (user_id == actor.id)
        (Error.forbidden "an administrator cannot delete their own account")
    now ← read P.now
    modify (in_session (Users.revoke_all_for_user user_id now))
    deleted ← gets (λ w. Users.delete_user user_id w.session)
    modify (in_session (λ db. deleted.1))
    raise_if (not deleted.0) (Error.not_found "user does not exist")
    modify (
        in_session (
          log (
            admin_entry AuditAction.user_deleted "success" actor.id (str_id user_id) request_id
              [])))

  unfoldable pub bootstrap_first : (email password : String) → Action AuthWorld User
  bootstrap_first email password = do
    let address = normalize_email P email
    created ← insert address password Role.admin
    audit_created created.id address none
        (("role", text (role_value Role.admin)) ∷ ("bootstrap", flag true) ∷ []) created

  unfoldable pub bootstrap_admin : (email password : String) → Action AuthWorld User
  bootstrap_admin email password = do
    n ← gets (λ w. Users.count_users w.session)
    raise_if (ltb 0 n) (Error.conflict "bootstrap refused: users already exist")
    bootstrap_first email password

  -- `get_current_user`
  unfoldable pub current_user : Result ℕ → Action AuthWorld User
  current_user (err e) = raise e
  current_user (ok user_id) = do
    stored ← gets (λ w. Users.get_by_id user_id w.session)
    or_raise (active_user stored) (Error.unauthorized "account is no longer active")

  -- `require_role`: a denial is recorded though the request is rolled back.
  unfoldable pub require_role :
      (minimum : Role)
      → User
      → (target : String) → (request_id : Option String) → Action AuthWorld (Unit {0})
  require_role minimum user target request_id = when (not (satisfies user.role minimum)) (do
    modify (
        independently (
          log (
            admin_entry AuditAction.authz_denied "denied" user.id target request_id (
              ("required_role", text (role_value minimum))
              ∷ ("actual_role", text (role_value user.role))
              ∷ []))))
    raise (Error.forbidden "insufficient role for this operation"))

  abbrev pub run_call : User → Option String → AdminCall → Action AuthWorld (Unit {0})
  run_call admin request_id (create email password role) = do
    created ← create_user admin email password role request_id
    pure tt
  run_call admin request_id (delete user_id) = delete_user admin user_id request_id

  unfoldable pub handle : AdminRequest → Action AuthWorld (Unit {0})
  handle r = do
    user ← current_user r.claims
    require_role Role.admin user r.target r.request_id
    run_call user r.request_id r.call

  unfoldable pub perform : AdminRequest → AuthWorld → AuthWorld
  perform r w = (request (handle r) w).1

  unfoldable pub perform_all : List AdminRequest → AuthWorld → AuthWorld
  perform_all [] w = w
  perform_all (r ∷ rs) w = perform_all rs (perform r w)
