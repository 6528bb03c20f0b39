-- ===== src/Identity/Auth/Sessions.antt =====
-- backend/src/spidey/identity/application/auth_service.py: `refresh`, `logout` and `change_password`,
-- and the transaction of backend/src/spidey/api/deps.py `get_session` around a request.
use spidey.Base.{ℕ, String, true, false, Option, none, some, List, [], ◌∷◌, ◌==◌, if◌then◌else◌}
use spidey.Base.Action.{Action, Result, ok, err, pure, raise, gets, or_raise, ◌>>=◌, ◌>>◌, modify}
use spidey.Platform.Errors.{Error}
use spidey.Identity.Users
use spidey.Identity.Users.{
  User, StoredUser, RefreshToken, AuditAction, Detail, number, AuditEntry, Db, is_active,
  count_live, of_family, of_user,
}
use spidey.Identity.Auth.{
  Ports, AuthWorld, TokenPair, in_session, independently, read, log, issue_pair,
  validate_new_password,
}

abbrev entry :
    AuditAction
    → (outcome : String) → (actor : ℕ) → (source_ip request_id : Option String)
    → List (String × Detail)
    → AuditEntry
entry action outcome actor source_ip request_id details = record {
  action = action;
  outcome = outcome;
  actor_user_id = some actor;
  target = none;
  source_ip = source_ip;
  request_id = request_id;
  details = details;
}

abbrev invalid : Error
invalid = Error.unauthorized "invalid refresh token"

-- The user of a token, if there is one who is active.
abbrev pub active_user : Option StoredUser → Option User
active_user none = none
active_user (some stored) = if stored.user.is_active then some stored.user else none

module _ (P : Ports) where
  -- A token that is used, revoked or expired burns its family, whatever becomes of the request.
  unfoldable pub refuse_reuse :
      RefreshToken → (source_ip request_id : Option String) → Action AuthWorld TokenPair
  refuse_reuse state source_ip request_id = do
    now ← read P.now
    revoked ← gets (λ w. count_live (of_family state.family_id) w.committed.tokens)
    modify (independently (Users.revoke_family state.family_id now))
    modify (
        independently (
          log (
            entry AuditAction.token_reuse_detected "denied" state.user_id source_ip request_id
              (("family_id", number state.family_id) ∷ ("tokens_revoked", number revoked) ∷ []))))
    raise invalid

  unfoldable pub rotate :
      (token_hash : String)
      → RefreshToken
      → User
      → (source_ip request_id : Option String) → Action AuthWorld TokenPair
  rotate token_hash state user source_ip request_id = do
    now ← read P.now
    modify (in_session (Users.mark_used token_hash now))
    pair ← issue_pair P user state.family_id
    modify (
        in_session (
          log (
            entry AuditAction.token_refreshed "success" user.id source_ip request_id
              (("family_id", number state.family_id) ∷ []))))
    pure pair

  -- A token whose user is gone or inactive: the family is revoked in the request's own session.
  unfoldable pub refuse_user : RefreshToken → Action AuthWorld TokenPair
  refuse_user state = do
    now ← read P.now
    modify (in_session (Users.revoke_family state.family_id now))
    raise invalid

  unfoldable pub refresh_token :
      (token_hash : String)
      → RefreshToken
      → (source_ip request_id : Option String) → Action AuthWorld TokenPair
  refresh_token token_hash state source_ip request_id = do
    now ← read P.now
    stored ← gets (λ w. Users.get_by_id state.user_id w.session)
    elim (is_active now state) [
      | false ↦ refuse_reuse state source_ip request_id
      | true ↦ elim (active_user stored) [
        | none ↦ refuse_user state
        | some user ↦ rotate token_hash state user source_ip request_id
      ]
    ]

  unfoldable pub refresh :
      (raw : String) (source_ip request_id : Option String) → Action AuthWorld TokenPair
  refresh raw source_ip request_id = do
    let token_hash = P.hash_refresh_token raw
    found ← gets (λ w. Users.get_token token_hash w.session)
    state ← or_raise found invalid
    refresh_token token_hash state source_ip request_id

  -- The token, if it is the actor's.
  abbrev owned_token : (actor : User) → Option RefreshToken → Option RefreshToken
  owned_token actor none = none
  owned_token actor (some t) = if t.user_id == actor.id then some t else none

  unfoldable pub logout :
      (raw : String) (actor : User) (source_ip request_id : Option String)
      → Action AuthWorld (Unit {0})
  logout raw actor source_ip request_id = do
    found ← gets (λ w. Users.get_token (P.hash_refresh_token raw) w.session)
    elim (owned_token actor found) [
      | none ↦ pure tt
      | some state ↦ do
        now ← read P.now
        modify (in_session (Users.revoke_family state.family_id now))
        modify (
            in_session
              (log (entry AuditAction.logged_out "success" actor.id source_ip request_id [])))
    ]

  abbrev knows : (password : String) → Option StoredUser → Option StoredUser
  knows password none = none
  knows password (some stored) =
      if P.verify stored.password_hash password then some stored else none

  unfoldable pub change_password :
      (actor : User) (current_password new_password : String) (source_ip request_id : Option String)
      → Action AuthWorld (Unit {0})
  change_password actor current_password new_password source_ip request_id = do
    found ← gets (λ w. knows current_password (Users.get_by_id actor.id w.session))
    stored ← or_raise found (Error.unauthorized "current password is incorrect")
    validate_new_password P new_password stored.user.email
    h ← read (λ t. P.hash t new_password)
    modify (in_session (Users.update_password_hash actor.id h))
    now ← read P.now
    revoked ← gets (λ w. count_live (of_user actor.id) w.session.tokens)
    modify (in_session (Users.revoke_all_for_user actor.id now))
    modify (
        in_session (
          log (
            entry AuditAction.password_changed "success" actor.id source_ip request_id
              (("sessions_revoked", number revoked) ∷ []))))

-- A request's session begins at what is committed; it is committed if the request returns, and rolled
-- back if it raises.
abbrev pub conclude : {A : Type 0} → Result A × AuthWorld → Result A × AuthWorld
conclude (ok a, w) = (ok a, record w { committed = w.session })
conclude (err e, w) = (err e, record w { session = w.committed })

unfoldable pub request : {A : Type 0} → Action AuthWorld A → Action AuthWorld A
request m w = conclude (m (record w { session = w.committed }))
