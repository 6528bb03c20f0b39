-- ===== src/Checks/Admin.antt =====
-- backend/src/spidey/identity/application/user_service.py with an administrator and a viewer.
use spidey.Base.{ℕ, ◌==◌, ◌≡◌, refl, String, false, none, List, [], ◌∷◌, str_strip}
use spidey.Base.Action.{ok, err}
use spidey.Platform.Errors.{Error}
use spidey.Identity.Roles.{Role, satisfies}
use spidey.Identity.Users
use spidey.Identity.Users.{User, StoredUser, RefreshToken, Db, new_user}
use spidey.Identity.Auth.{AuthWorld, validate_new_password}
use spidey.Identity.Auth.Sessions.{request}
use spidey.Identity.Admin.{
  AdminRequest, delete, insert, insert_valid, bootstrap_first, bootstrap_admin, delete_user, handle,
  perform, perform_all, current_user, require_role,
}
use spidey.Identity.Admin.Tables.{Administered}
use spidey.Identity.Admin.Keeping.{perform_all-Administered}
use spidey.Identity.Admin.Bootstrap.{bootstrap_admin_once}
use spidey.Identity.Admin.Deletion.{IsErased, delete_user-IsErased}
use spidey.Checks.Auth.{ports, no_locks}

abbrev printed : ℕ → String
printed n = "id"

abbrev root_user : StoredUser
root_user = new_user 1 0 "root@b.c" "#root" Role.admin

abbrev viewer : StoredUser
viewer = new_user 2 5 "v@b.c" "#v" Role.viewer

abbrev viewer_token : RefreshToken
viewer_token = record {
  token_hash = "#t";
  user_id = 2;
  family_id = 3;
  expires_at = 500;
  used_at = none;
  revoked_at = none;
}

abbrev two_users : Db
two_users = record {
  users = (1, root_user) ∷ (2, viewer) ∷ [];
  tokens = viewer_token ∷ [];
  audit = [];
}

abbrev nobody : Db
nobody = record { users = []; tokens = []; audit = [] }

abbrev world_of : Db → AuthWorld
world_of db = record { session = db; committed = db; lockouts = no_locks; tick = 10 }

-- The administrator tries to delete their own account, and then deletes the viewer.
abbrev deletions : List AdminRequest
deletions =
    record { claims = ok 1; target = "DELETE /users/1"; request_id = none; call = delete 1 }
    ∷ record { claims = ok 1; target = "DELETE /users/2"; request_id = none; call = delete 2 }
    ∷ []

deleted_viewer :
    (perform_all ports printed deletions (world_of two_users)).committed.users ≡ (1, root_user) ∷ []
unfolding perform_all perform handle current_user require_role delete_user request satisfies
    Users.delete_user Users.revoke_all_for_user Users.get_by_id
deleted_viewer = refl

perform_all-Administered_example :
    Administered (perform_all ports printed deletions (world_of two_users)).committed.users
perform_all-Administered_example =
    perform_all-Administered ports printed deletions (world_of two_users)
      ((refl, (refl, tt)), 1, root_user, refl, (refl, refl))

abbrev bootstrapped : AuthWorld
bootstrapped =
    (request (bootstrap_admin ports printed "root@b.c" "a long password") (world_of nobody)).1

abbrev first_user : User
first_user = (new_user 77 12 "root@b.c" "#a long password" Role.admin).user

bootstrapped_ok :
    request (bootstrap_admin ports printed "root@b.c" "a long password") (world_of nobody)
    ≡ (ok first_user, bootstrapped)
unfolding request bootstrap_admin bootstrap_first insert insert_valid validate_new_password
    str_strip Users.create_user Users.get_by_email Users.count_users
bootstrapped_ok = refl

bootstrap_admin_once_example :
    ((world_of nobody).committed.users ≡ [])
    × Administered bootstrapped.committed.users
    × ((request (bootstrap_admin ports printed "x@b.c" "another password") bootstrapped).0
        ≡ err (Error.conflict "bootstrap refused: users already exist"))
bootstrap_admin_once_example =
    bootstrap_admin_once ports printed "root@b.c" "a long password" "x@b.c" "another password"
      (world_of nobody) {created = first_user} {w' = bootstrapped} bootstrapped_ok

delete_user-IsErased_example :
    ((2 == 1) ≡ false)
    × IsErased 2 two_users
        (request (delete_user ports printed root_user.user 2 none) (world_of two_users)).1.committed
unfolding request delete_user Users.delete_user Users.revoke_all_for_user
delete_user-IsErased_example =
    delete_user-IsErased ports printed root_user.user 2 none (world_of two_users) refl
