-- ===== src/Identity/Auth/Login.antt =====
-- backend/src/spidey/identity/application/auth_service.py `login` and
-- backend/src/spidey/identity/infrastructure/redis_guard.py: failed logins, and the lock
-- of an account.
use spidey.Base.{
  ℕ, suc, ◌+◌, ◌≤◌, String, true, false, Option, none, ◌≡◌, refl, List, [], ◌∷◌, arith,
  if◌then◌else◌, eq_refl, leb, ltb,
}
use spidey.Base.Action.{Result, ok, err, succeeded}
use spidey.Identity.Users
use spidey.Identity.Users.{Db, AuditEntry}
use spidey.Identity.Lockout.{LockoutStore, is_locked, failures_of, register_failure, look, drop_key}
use spidey.Identity.Auth.{
  Ports, AuthWorld, TokenPair, lock_key, normalize_email, guard_login, refuse_login, compared,
  admit, login,
}
use spidey.Identity.Auth.Sessions.{request}

look-drop_key : {V : Type 0} (k : String) (t : List (String × V)) → look k (drop_key k t) ≡ none
look-drop_key k [] = refl
look-drop_key k ((j, v) ∷ t) = ground (arith, look-drop_key k t)

-- A failure that makes the streak as long as the threshold locks the key for the time of a lock and
-- ends the streak; any other failure lengthens the streak by one and leaves the lock.
pub register_failure_lem :
    (key : String) (threshold lock_seconds now later : ℕ) (s : LockoutStore)
    → now ≤ later
    → let (n, s') = register_failure key threshold lock_seconds now s in
      let locks = leb threshold n in
      (n ≡ failures_of key now s + 1)
      × (is_locked key later s'
          ≡ (if locks then ltb later (now + lock_seconds) else is_locked key later s))
      × (failures_of key later s'
          ≡ (if locks then 0 else if ltb later (now + lock_seconds) then n else 0))
unfolding register_failure is_locked failures_of
register_failure_lem key threshold lock_seconds now later s h =
    ground (arith, look-drop_key key s.streaks, look-drop_key key s.locks, eq_refl key)

-- What an outsider can compare of two states: all but the users and the tokens.
pub record Alike (w w' : AuthWorld) : Type 0 where
  pub audit : w'.committed.audit ≡ w.committed.audit
  pub lockouts : w'.lockouts ≡ w.lockouts
  pub tick : w'.tick ≡ w.tick

module _ (P : Ports) where
  -- While an account is locked, a login that the limiter lets through is refused whatever the password
  -- is, and reaches neither the users nor the tokens.
  pub login_locked :
      (email password : String) (source_ip request_id : Option String) (w : AuthWorld)
      → P.redis_answers (suc w.tick) ≡ true
      → is_locked (lock_key P (normalize_email P email)) (P.now (suc w.tick)) w.lockouts ≡ true
      → let p = request (login P email password source_ip request_id) w in
        (succeeded p.0 ≡ false)
        × (p.1.committed.users ≡ w.committed.users)
        × (p.1.committed.tokens ≡ w.committed.tokens)
        × (p.1.lockouts ≡ w.lockouts)
  unfolding login guard_login request
  login_locked email password source_ip request_id w up locked = ground arith

  -- Within a request, the session's audit agrees too.
  record Near (w w' : AuthWorld) : Type 0 where
    session : w'.session.audit ≡ w.session.audit
    audit : w'.committed.audit ≡ w.committed.audit
    lockouts : w'.lockouts ≡ w.lockouts
    tick : w'.tick ≡ w.tick

  module _ (email : String) (source_ip request_id : Option String) where
    counted : AuthWorld → ℕ × LockoutStore
    counted w = register_failure (lock_key P email) 5 900 (P.now w.tick) w.lockouts

    -- What follows the guards of a login that fails.
    refused : Result (Unit {0}) × AuthWorld → Result TokenPair × AuthWorld
    refused (ok _, u) = refuse_login P email source_ip request_id (record u { tick = suc u.tick })
    refused (err e, u) = (err e, u)

  -- No user is admitted with this password: there is none, it is another's, or the user is inactive.
  abbrev pub NotAdmitted : (email password : String) → Db → Type 0
  NotAdmitted email password db =
      let stored = Users.get_by_email (normalize_email P email) db in
      admit P (P.verify (compared P stored) password) stored ≡ none
