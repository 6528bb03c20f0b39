-- ===== src/Identity/Auth.antt =====
-- backend/src/spidey/identity/application/auth_service.py, with `validate_new_password` and
-- `normalize_email` of backend/src/spidey/identity/domain/models.py and the independent sink of
-- backend/src/spidey/identity/infrastructure/security_sink.py.
-- The state: the tables as the request's session sees them, the tables as they are committed, and the
-- lockouts in Redis. The independent sink commits at once; the session then sees it too.
pub mod Sessions
pub mod Rotation
pub mod Login
use spidey.Base.{
  ℕ, suc, ◌+◌, String, Bool, true, false, not, ◌&&◌, ◌||◌, Option, none, some, List, [], ◌∷◌, ◌++◌,
  ◌==◌, ltb, if◌then◌else◌, is_some, str_len, str_strip, is_space, str_concat, str_contains,
}
use spidey.Base.Action.{
  Action, Result, ok, err, pure, raise, gets, or_raise, ◌>>=◌, ◌>>◌, raise_if, modify, when,
}
use spidey.Platform.Errors.{Error}
use spidey.Identity.Users
use spidey.Identity.Users.{
  User, StoredUser, RefreshToken, AuditAction, number, AuditEntry, Db, is_active, count_live,
  of_family, of_user,
}
use spidey.Identity.Lockout
use spidey.Identity.Lockout.{LockoutStore}

-- Code of other packages and of the interpreter: `hashlib`, `secrets`, `uuid`, the clock, `str.lower`, the
-- password hasher, the token issuer, the rate limiter (a script that Redis runs on floats), and whether
-- Redis answers the lockout store.
pub record Ports : Type 0 where
  pub hash_refresh_token : String → String
  pub token_urlsafe : (tick : ℕ) → String
  pub fresh : (tick : ℕ) → ℕ
  pub now : (tick : ℕ) → ℕ
  pub lower : String → String
  pub hash : (tick : ℕ) (password : String) → String
  pub verify : (password_hash password : String) → Bool
  pub needs_rehash : String → Bool
  pub enumeration_guard_hash : String
  pub issue : (tick : ℕ) → User → String × ℕ
  pub acquire : (tick : ℕ) (key : String) → Result Bool
  pub redis_answers : (tick : ℕ) → Bool
  pub refresh_ttl : ℕ

pub record AuthWorld : Type 0 where
  pub session : Db
  pub committed : Db
  pub lockouts : LockoutStore
  pub tick : ℕ

pub record TokenPair : Type 0 where
  pub access_token : String
  pub refresh_token : String
  pub expires_in : ℕ

abbrev pub lockout_threshold : ℕ
lockout_threshold = 5

abbrev pub lockout_seconds : ℕ
lockout_seconds = 900

abbrev pub in_session : (Db → Db) → AuthWorld → AuthWorld
in_session f w = record w { session = f w.session }

-- A write of the independent sink.
abbrev pub independently : (Db → Db) → AuthWorld → AuthWorld
independently f w = record w { session = f w.session; committed = f w.committed }

abbrev pub read : {A : Type 0} → (ℕ → A) → Action AuthWorld A
read f w = (ok (f w.tick), record w { tick = suc w.tick })

abbrev pub ask : {A : Type 0} → (ℕ → Result A) → Action AuthWorld A
ask f w = (f w.tick, record w { tick = suc w.tick })

abbrev pub log : AuditEntry → Db → Db
log e db = record db { audit = db.audit ++ (e ∷ []) }

abbrev pub store_session : Result Db → Action AuthWorld (Unit {0})
store_session (ok db) w = (ok tt, record w { session = db })
store_session (err e) w = (err e, w)

module _ (P : Ports) where
  -- `normalize_email`
  abbrev pub normalize_email : String → String
  normalize_email email = P.lower (str_strip is_space email)

  -- `validate_new_password`
  unfoldable pub validate_new_password : (password email : String) → Action AuthWorld (Unit {0})
  validate_new_password password email = do
    raise_if (ltb (str_len password) 12)
        (Error.validation_failed "password must be at least 12 characters")
    raise_if (ltb 128 (str_len password))
        (Error.validation_failed "password must be at most 128 characters")
    raise_if (str_contains (normalize_email email) (P.lower password))
        (Error.validation_failed "password must not contain the account email")

  abbrev pub lock_key : String → String
  lock_key email = str_concat ("lock:" ∷ email ∷ [])

  -- Redis is asked, and an error of it stops the request.
  abbrev redis : {A : Type 0} → (ℕ → LockoutStore → A × LockoutStore) → Action AuthWorld A
  redis f w =
      let (a, s) = f (P.now w.tick) w.lockouts in
      elim (P.redis_answers w.tick) [
        | true ↦ (ok a, record w { lockouts = s; tick = suc w.tick })
        | false ↦ (
          err (Error.service_unavailable "lockout store unavailable"),
          record w { tick = suc w.tick },
        )
      ]

  -- `_issue_pair`
  unfoldable pub issue_pair : User → (family_id : ℕ) → Action AuthWorld TokenPair
  issue_pair user family_id = do
    access ← read (λ t. P.issue t user)
    raw ← read P.token_urlsafe
    now ← read P.now
    stored ← gets (λ w.
        Users.create_token (P.hash_refresh_token raw) user.id family_id (now + P.refresh_ttl)
          w.session)
    store_session stored
    pure (record { access_token = access.0; refresh_token = raw; expires_in = access.1 })

  abbrev source : Option String → String
  source none = "unknown"
  source (some ip) = if str_len ip == 0 then "unknown" else ip

  -- The guards in front of a login: the limiter of the address and the lock of the account.
  unfoldable pub guard_login :
      (email : String) (source_ip request_id : Option String) → Action AuthWorld (Unit {0})
  guard_login email source_ip request_id = do
    allowed ← ask (λ t. P.acquire t (str_concat ("login:ip:" ∷ source source_ip ∷ [])))
    let denial : AuditAction → String → Db → Db = λ action target. log (record {
      action = action;
      outcome = "denied";
      actor_user_id = none;
      target = some target;
      source_ip = source_ip;
      request_id = request_id;
      details = [];
    })
    when (not allowed) (do
      modify (independently (denial AuditAction.rate_limited (str_concat ("login:" ∷ email ∷ []))))
      raise (Error.rate_limited "too many login attempts; slow down"))
    locked ← redis (λ now s. (Lockout.is_locked (lock_key email) now s, s))
    when locked (do
      modify (independently (denial AuditAction.login_locked_out email))
      raise (Error.rate_limited "too many failed attempts; try again later"))

  abbrev pub login_failure :
      (email : String) (source_ip request_id : Option String) (failures : ℕ) → AuditEntry
  login_failure email source_ip request_id failures = record {
    action = AuditAction.login_failed;
    outcome = "failure";
    actor_user_id = none;
    target = some email;
    source_ip = source_ip;
    request_id = request_id;
    details = ("consecutive_failures", number failures) ∷ [];
  }

  -- A failed login is counted, logged, and refused in the same words whatever failed.
  unfoldable pub refuse_login :
      (email : String) (source_ip request_id : Option String) → Action AuthWorld TokenPair
  refuse_login email source_ip request_id = do
    failures ← redis (Lockout.register_failure (lock_key email) lockout_threshold lockout_seconds)
    modify (independently (log (login_failure email source_ip request_id failures)))
    raise (Error.unauthorized "invalid email or password")

  unfoldable pub accept_login :
      (email password : String) (source_ip request_id : Option String)
      → StoredUser
      → Action AuthWorld TokenPair
  accept_login email password source_ip request_id stored = do
    redis (λ now s. (tt, Lockout.reset (lock_key email) s))
    when (P.needs_rehash stored.password_hash) (do
      h ← read (λ t. P.hash t password)
      modify (in_session (Users.update_password_hash stored.user.id h)))
    family ← read P.fresh
    pair ← issue_pair stored.user family
    modify (
        in_session (
          log (record {
            action = AuditAction.login_succeeded;
            outcome = "success";
            actor_user_id = some stored.user.id;
            target = none;
            source_ip = source_ip;
            request_id = request_id;
            details = [];
          })))
    pure pair

  -- The hash that the password is verified against: a guard's where there is no user.
  abbrev pub compared : Option StoredUser → String
  compared none = P.enumeration_guard_hash
  compared (some stored) = stored.password_hash

  abbrev is_live : Option StoredUser → Bool
  is_live none = false
  is_live (some stored) = stored.user.is_active

  -- The verification is a call of its own, and is made whether or not there is a user.
  unfoldable pub check_password : (password : String) → Option StoredUser → Action AuthWorld Bool
  check_password password stored = read (λ tick. P.verify (compared stored) password)

  abbrev pub admit : (verified : Bool) → Option StoredUser → Option StoredUser
  admit verified stored = if verified && is_live stored then stored else none

  unfoldable pub login :
      (email password : String) (source_ip request_id : Option String) → Action AuthWorld TokenPair
  login email password source_ip request_id = do
    let address = normalize_email email
    guard_login address source_ip request_id
    stored ← gets (λ w. Users.get_by_email address w.session)
    verified ← check_password password stored
    elim (admit verified stored) [
      | none ↦ refuse_login address source_ip request_id
      | some user ↦ accept_login address password source_ip request_id user
    ]
