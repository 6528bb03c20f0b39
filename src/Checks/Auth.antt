-- ===== src/Checks/Auth.antt =====
-- backend/src/spidey/identity/application/auth_service.py with two users and one refresh token.
use spidey.Base.{ℕ, String, Bool, true, false, none, some, ◌≡◌, refl, [], ◌∷◌, str_eq, str_concat}
use spidey.Base.Action.{Result, ok, err}
use spidey.Platform.Errors.{Error}
use spidey.Identity.Roles.{Role}
use spidey.Identity.Users
use spidey.Identity.Users.{User, StoredUser, RefreshToken, Db, is_active, of_family, of_user}
use spidey.Identity.Lockout.{LockoutStore, register_failure}
use spidey.Identity.Auth.{
  Ports, AuthWorld, TokenPair, issue_pair, lockout_threshold, lockout_seconds,
}
use spidey.Identity.Auth.Sessions.{refresh, refresh_token, rotate, change_password, request}
use spidey.Identity.Auth.Rotation.{all_revoked, refresh_once, refresh_inactive}

-- A hash is the text behind a mark, and each tick is a millisecond.
abbrev pub ports : Ports
ports = record {
  hash_refresh_token = λ s. str_concat ("#" ∷ s ∷ []);
  token_urlsafe = λ tick. "fresh";
  fresh = λ tick. 77;
  now = λ tick. tick;
  lower = λ s. s;
  hash = λ tick s. str_concat ("#" ∷ s ∷ []);
  verify = λ h s. str_eq h (str_concat ("#" ∷ s ∷ []));
  needs_rehash = λ h. false;
  enumeration_guard_hash = "#";
  issue = λ tick user. ("access", 900);
  acquire = λ tick key. ok true;
  redis_answers = λ tick. true;
  refresh_ttl = 1000;
}

abbrev user_with : (id : ℕ) → (email : String) → Bool → User
user_with id email active = record {
  id = id;
  email = email;
  role = Role.developer;
  is_active = active;
  created_at = 1;
}

abbrev held : RefreshToken
held = record {
  token_hash = "#old";
  user_id = 7;
  family_id = 3;
  expires_at = 500;
  used_at = none;
  revoked_at = none;
}

abbrev db_with : Bool → RefreshToken → Db
db_with active t = record {
  users = (7, record { user = user_with 7 "a@b.c" active; password_hash = "#secret" }) ∷ [];
  tokens = t ∷ [];
  audit = [];
}

abbrev pub no_locks : LockoutStore
no_locks = record { streaks = []; locks = [] }

abbrev world_with : Bool → RefreshToken → LockoutStore → AuthWorld
world_with active t s = record {
  session = db_with active t;
  committed = db_with active t;
  lockouts = s;
  tick = 10;
}

abbrev spent : RefreshToken
spent = record held { used_at = some 4 }

abbrev pair : TokenPair
pair = record { access_token = "access"; refresh_token = "fresh"; expires_in = 900 }

abbrev refreshed : AuthWorld
refreshed = (request (refresh ports "old" none none) (world_with true held no_locks)).1

refreshed_ok :
    request (refresh ports "old" none none) (world_with true held no_locks) ≡ (ok pair, refreshed)
unfolding request refresh refresh_token rotate issue_pair Users.get_token Users.create_token
    Users.mark_used is_active Users.get_by_id
refreshed_ok = refl

refresh_once_example :
    let p = request (refresh ports "old" none none) refreshed in
    (p.0 ≡ err (Error.unauthorized "invalid refresh token"))
    × (all_revoked (of_family 3) p.1.committed.tokens ≡ true)
unfolding Users.get_token
refresh_once_example =
    refresh_once ports "old" none none none none (world_with true held no_locks) {pair = pair}
      {w' = refreshed} {state = held} refl refreshed_ok

refresh_inactive_example :
    let p = request (refresh ports "old" none none) (world_with false held no_locks) in
    (p.0 ≡ err (Error.unauthorized "invalid refresh token")) × (p.1.committed ≡ db_with false held)
unfolding Users.get_token is_active Users.get_by_id
refresh_inactive_example =
    refresh_inactive ports "old" none none (world_with false held no_locks) {state = held} refl refl
      refl

abbrev changed : Result (Unit {0}) × AuthWorld
changed =
    request (change_password ports (user_with 7 "a@b.c" true) "secret" "a new password" none none)
      (world_with true held no_locks)

-- Four failures stand; a fifth locks.
abbrev four : LockoutStore
four = record { streaks = ("lock:a@b.c", record { count = 4; until = 500 }) ∷ []; locks = [] }

abbrev locked : LockoutStore
locked = (register_failure "lock:a@b.c" lockout_threshold lockout_seconds 10 four).1

abbrev locked_out : AuthWorld
locked_out = world_with true held locked

-- The same attempt with no user of that address.
abbrev nobody : AuthWorld
nobody = record {
  session = record { users = []; tokens = []; audit = [] };
  committed = record { users = []; tokens = []; audit = [] };
  lockouts = no_locks;
  tick = 10;
}
