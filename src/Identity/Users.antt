-- ===== src/Identity/Users.antt =====
-- backend/src/spidey/identity/domain/models.py, backend/src/spidey/identity/infrastructure/repositories.py
-- and the audit of backend/src/spidey/platform/audit.py: the tables that authentication reads and writes.
-- A `datetime` is a number.
use spidey.Base.{
  ℕ, ◌+◌, String, Bool, true, false, ◌||◌, not, ◌&&◌, Option, none, some, List, [], ◌∷◌, ◌++◌, ◌==◌,
  ltb, if◌then◌else◌, is_some, str_eq, Table, find, update, map, length, add_row, delete_row, keep,
}
use spidey.Base.Action.{Result, ok, err}
use spidey.Platform.Errors.{Error}
use spidey.Identity.Roles.{Role}

pub record User : Type 0 where
  pub id : ℕ
  pub email : String
  pub role : Role
  pub is_active : Bool
  pub created_at : ℕ

pub record StoredUser : Type 0 where
  pub user : User
  pub password_hash : String

pub record RefreshToken : Type 0 where
  pub token_hash : String
  pub user_id : ℕ
  pub family_id : ℕ
  pub expires_at : ℕ
  pub used_at : Option ℕ
  pub revoked_at : Option ℕ

pub data AuditAction : Type 0 where
  login_succeeded login_failed login_locked_out token_refreshed token_reuse_detected : AuditAction
  logged_out password_changed rate_limited authz_denied user_created user_deleted : AuditAction

-- What an entry holds beside its columns.
pub data Detail : Type 0 where
  number : ℕ → Detail
  text : String → Detail
  flag : Bool → Detail

pub record AuditEntry : Type 0 where
  pub action : AuditAction
  pub outcome : String
  pub actor_user_id : Option ℕ
  pub target : Option String
  pub source_ip : Option String
  pub request_id : Option String
  pub details : List (String × Detail)

-- The users stand behind their identifiers.
pub record Db : Type 0 where
  pub users : Table StoredUser
  pub tokens : List RefreshToken
  pub audit : List AuditEntry

abbrev find_email : String → Table StoredUser → Option StoredUser
find_email email [] = none
find_email email ((k, u) ∷ t) = if str_eq u.user.email email then some u else find_email email t

unfoldable pub get_by_email : String → Db → Option StoredUser
get_by_email email db = find_email email db.users

unfoldable pub get_by_id : ℕ → Db → Option StoredUser
get_by_id user_id db = find user_id db.users

abbrev write_password : String → StoredUser → StoredUser
write_password h u = record u { password_hash = h }

unfoldable pub update_password_hash : ℕ → String → Db → Db
update_password_hash user_id h db = record db { users = update user_id (write_password h) db.users }

-- `_TokenState.is_active`
unfoldable pub is_active : (now : ℕ) → RefreshToken → Bool
is_active now t = not (is_some t.used_at) && not (is_some t.revoked_at) && ltb now t.expires_at

abbrev pub find_token : String → List RefreshToken → Option RefreshToken
find_token h [] = none
find_token h (t ∷ ts) = if str_eq t.token_hash h then some t else find_token h ts

unfoldable pub get_token : String → Db → Option RefreshToken
get_token h db = find_token h db.tokens

-- The hash is unique: a second row breaks the constraint.
unfoldable pub create_token :
    (token_hash : String) (user_id family_id expires_at : ℕ) → Db → Result Db
create_token token_hash user_id family_id expires_at db =
    if is_some (find_token token_hash db.tokens)
    then err Error.unhandled
    else ok (record db {
      tokens =
          db.tokens
          ++ (record {
            token_hash = token_hash;
            user_id = user_id;
            family_id = family_id;
            expires_at = expires_at;
            used_at = none;
            revoked_at = none;
          }
              ∷ []);
    })

abbrev pub use_token : (h : String) (now : ℕ) → RefreshToken → RefreshToken
use_token h now t = if str_eq t.token_hash h then record t { used_at = some now } else t

unfoldable pub mark_used : (h : String) (now : ℕ) → Db → Db
mark_used h now db = record db { tokens = map (use_token h now) db.tokens }

-- A revocation leaves the rows alone that are revoked.
abbrev pub revoke_if : Bool → (now : ℕ) → RefreshToken → RefreshToken
revoke_if chosen now t =
    if chosen && not (is_some t.revoked_at) then record t { revoked_at = some now } else t

abbrev pub of_family : ℕ → RefreshToken → Bool
of_family family_id t = t.family_id == family_id

abbrev pub of_user : ℕ → RefreshToken → Bool
of_user user_id t = t.user_id == user_id

abbrev pub revoke_all : (RefreshToken → Bool) → (now : ℕ) → List RefreshToken → List RefreshToken
revoke_all p now [] = []
revoke_all p now (t ∷ ts) = revoke_if (p t) now t ∷ revoke_all p now ts

abbrev pub count_live : (RefreshToken → Bool) → List RefreshToken → ℕ
count_live p [] = 0
count_live p (t ∷ ts) = (if p t && not (is_some t.revoked_at) then 1 else 0) + count_live p ts

unfoldable pub revoke_family : (family_id now : ℕ) → Db → Db
revoke_family family_id now db = record db {
  tokens = revoke_all (of_family family_id) now db.tokens;
}

unfoldable pub revoke_all_for_user : (user_id now : ℕ) → Db → Db
revoke_all_for_user user_id now db = record db {
  tokens = revoke_all (of_user user_id) now db.tokens;
}

-- `count` and `list_all`: the rows by the time of their creation.
unfoldable pub count_users : Db → ℕ
count_users db = length db.users

abbrev insert_user : User → List User → List User
insert_user u [] = u ∷ []
insert_user u (v ∷ vs) =
    let rest = insert_user u vs in if ltb v.created_at u.created_at then v ∷ rest else u ∷ v ∷ vs

abbrev by_creation : Table StoredUser → List User
by_creation [] = []
by_creation ((k, stored) ∷ t) = insert_user stored.user (by_creation t)

unfoldable pub list_all : Db → List User
list_all db = by_creation db.users

abbrev pub new_user : (id now : ℕ) → (email password_hash : String) → Role → StoredUser
new_user id now email password_hash role = record {
  user = record { id = id; email = email; role = role; is_active = true; created_at = now };
  password_hash = password_hash;
}

-- The email and the identifier are unique: a second row breaks the constraint.
unfoldable pub create_user :
    (id now : ℕ) (email password_hash : String) → Role → Db → Result (User × Db)
create_user id now email password_hash role db =
    if is_some (get_by_email email db) || is_some (find id db.users)
    then err (Error.conflict "a user with this email already exists")
    else ok (
      (new_user id now email password_hash role).user,
      record db { users = add_row id (new_user id now email password_hash role) db.users },
    )

-- The tokens of a user are deleted with the row.
unfoldable pub delete_user : (user_id : ℕ) → Db → Bool × Db
delete_user user_id db =
    if is_some (find user_id db.users)
    then (
      true,
      record db {
        users = delete_row user_id db.users;
        tokens = keep (λ t. not (of_user user_id t)) db.tokens;
      },
    )
    else (false, db)
