-- ===== src/Identity/Auth/Rotation.antt =====
-- backend/src/spidey/identity/application/auth_service.py: the rotation and the reuse of refresh
-- tokens, and their revocation.
use spidey.Base.{
  ℕ, suc, String, Bool, true, false, not, ◌&&◌, ◌||◌, map_option, or_else, eq_refl, Option, none,
  some, ◌≡◌, refl, List, [], ◌∷◌, ◌++◌, ◌+◌, arith, is_some, str_eq, Option-cases, ◌⊎◌, inl, inr,
  map,
}
use spidey.Base.Action.{ok, err, succeeded}
use spidey.Platform.Errors.{Error}
use spidey.Identity.Users
use spidey.Identity.Users.{
  User, StoredUser, RefreshToken, Db, is_active, revoke_all, of_family, of_user, find_token,
  use_token,
}
use spidey.Identity.Auth.{Ports, AuthWorld, TokenPair, issue_pair, validate_new_password}
use spidey.Identity.Auth.Sessions.{
  refuse_reuse, rotate, refuse_user, refresh_token, refresh, change_password, request, active_user,
}

-- Every token that a test picks is revoked.
unfoldable pub all_revoked : (RefreshToken → Bool) → List RefreshToken → Bool
all_revoked p [] = true
all_revoked p (t ∷ ts) = (not (p t) || is_some t.revoked_at) && all_revoked p ts

all_revoked-revoke_all :
    (p : RefreshToken → Bool) (now : ℕ) (ts : List RefreshToken)
    → ((t : RefreshToken) → p (record t { revoked_at = some now }) ≡ p t)
    → all_revoked p (revoke_all p now ts) ≡ true
unfolding all_revoked
all_revoked-revoke_all p now [] same = refl
all_revoked-revoke_all p now (t ∷ ts) same =
    ground (arith, same t, all_revoked-revoke_all p now ts same)

module _ (P : Ports) where
  -- A refresh token that is used, revoked or expired is refused, and after the request every token of
  -- its family is revoked in the committed tables, though the request itself is rolled back.
  pub refresh_reuse :
      (raw : String) (source_ip request_id : Option String) (w : AuthWorld) {state : RefreshToken}
      → Users.get_token (P.hash_refresh_token raw) w.committed ≡ some state
      → is_active (P.now w.tick) state ≡ false
      → let p = request (refresh P raw source_ip request_id) w in
        (p.0 ≡ err (Error.unauthorized "invalid refresh token"))
        × (all_revoked (of_family state.family_id) p.1.committed.tokens ≡ true)
  unfolding refresh refresh_token refuse_reuse request Users.revoke_family
  refresh_reuse raw source_ip request_id w {state} found dead = ground (
    arith,
    all_revoked-revoke_all (of_family state.family_id) (P.now (suc w.tick)) w.committed.tokens
        (λ t. refl),
  )

  -- What the write of a use leaves of a lookup.
  find_token-use :
      (h k : String) (now : ℕ) (ts : List RefreshToken)
      → find_token h (map (use_token k now) ts) ≡ map_option (use_token k now) (find_token h ts)
  find_token-use h k now [] = refl
  find_token-use h k now (t ∷ ts) = ground (arith, find_token-use h k now ts)

  find_token-append :
      (h : String) (ts us : List RefreshToken)
      → find_token h (ts ++ us) ≡ or_else (find_token h ts) (find_token h us)
  find_token-append h [] us = refl
  find_token-append h (t ∷ ts) us = ground (arith, find_token-append h ts us)

  find_token-hash :
      (h : String) (ts : List RefreshToken) {t : RefreshToken}
      → find_token h ts ≡ some t
      → str_eq t.token_hash h ≡ true
  find_token-hash h [] e = absurd (ground arith)
  find_token-hash h (t ∷ ts) {t = u} e = ground (arith, find_token-hash h ts {t = u})

  abbrev issued : (raw : String) (user_id family_id expires_at : ℕ) → RefreshToken
  issued raw user_id family_id expires_at = record {
    token_hash = P.hash_refresh_token raw;
    user_id = user_id;
    family_id = family_id;
    expires_at = expires_at;
    used_at = none;
    revoked_at = none;
  }

  issue_pair_lem :
      (user : User) (family_id : ℕ) (u : AuthWorld) {pair : TokenPair} {u' : AuthWorld}
      → issue_pair P user family_id u ≡ (ok pair, u')
      → let now = P.now (suc (suc u.tick)) in
        (find_token (P.hash_refresh_token pair.refresh_token) u.session.tokens ≡ none)
        × (u'.session.tokens
            ≡ u.session.tokens
              ++ (issued pair.refresh_token user.id family_id (now + P.refresh_ttl) ∷ []))
  unfolding issue_pair Users.create_token
  issue_pair_lem user family_id u e = ground arith

  -- The session in which a token is used up.
  abbrev used : (raw : String) → AuthWorld → AuthWorld
  used raw w = record w {
    session = Users.mark_used (P.hash_refresh_token raw) (P.now (suc w.tick)) w.committed;
    tick = suc (suc w.tick);
  }

  refresh_issues :
      (raw : String) (source_ip request_id : Option String) (w : AuthWorld) {pair : TokenPair}
      {w' : AuthWorld} {state : RefreshToken}
      → Users.get_token (P.hash_refresh_token raw) w.committed ≡ some state
      → request (refresh P raw source_ip request_id) w ≡ (ok pair, w')
      → (user : User) × (u : AuthWorld) × (issue_pair P user state.family_id (used raw w)
          ≡ (ok pair, u))
        × (w'.committed.tokens ≡ u.session.tokens)
  unfolding refresh refresh_token rotate refuse_reuse refuse_user request
  refresh_issues raw source_ip request_id w {pair} {w'} {state} found e =
      elim (Option-cases (active_user (Users.get_by_id state.user_id w.committed))) [
        | inl gone ↦ absurd (ground arith)
        | inr (user, there) ↦
            (user, (issue_pair P user state.family_id (used raw w)).1, ground arith, ground arith)
      ]

  -- A refresh that succeeds uses up the token that was presented, and leaves a fresh one of the same
  -- family and user, neither used nor revoked, under the hash of what the client was handed.
  pub refresh_rotates :
      (raw : String) (source_ip request_id : Option String) (w : AuthWorld) {pair : TokenPair}
      {w' : AuthWorld} {state : RefreshToken}
      → Users.get_token (P.hash_refresh_token raw) w.committed ≡ some state
      → request (refresh P raw source_ip request_id) w ≡ (ok pair, w')
      → (map_option
            (λ t. is_some t.used_at)
            (Users.get_token (P.hash_refresh_token raw) w'.committed)
          ≡ some true)
        × (map_option (λ t. t.family_id) (Users.get_token (P.hash_refresh_token raw) w'.committed)
            ≡ some state.family_id)
        × (map_option
              (λ t. is_some t.used_at || is_some t.revoked_at)
              (Users.get_token (P.hash_refresh_token pair.refresh_token) w'.committed)
            ≡ some false)
        × (map_option
              (λ t. t.family_id)
              (Users.get_token (P.hash_refresh_token pair.refresh_token) w'.committed)
            ≡ some state.family_id)
  unfolding Users.get_token Users.mark_used
  refresh_rotates raw source_ip request_id w {pair} {w'} {state} found e =
      let h = P.hash_refresh_token raw in
      let now = P.now (suc w.tick) in
      let (user, u, issuing, same) =
        refresh_issues raw source_ip request_id w {pair = pair} {w' = w'} {state = state} found e in
      let (unknown, grown) =
        issue_pair_lem user state.family_id (used raw w) {pair = pair} {u' = u} issuing in
      let new =
        issued pair.refresh_token user.id state.family_id
          (P.now (suc (suc (suc (suc w.tick)))) + P.refresh_ttl) in
      let tokens = map (use_token h now) w.committed.tokens in
      let fresh = P.hash_refresh_token pair.refresh_token in
      ground (
        arith,
        found,
        same,
        grown,
        unknown,
        find_token-append h tokens (new ∷ []),
        find_token-append fresh tokens (new ∷ []),
        find_token-use h h now w.committed.tokens,
        find_token-hash h w.committed.tokens {t = state} found,
        eq_refl fresh,
      )

  -- A refresh token works once: after a refresh that succeeded, presenting the same token again is
  -- refused and burns the family: every token of it, the fresh one included, is revoked in the committed
  -- tables.
  pub refresh_once :
      (raw : String) (source_ip request_id source_ip' request_id' : Option String) (w : AuthWorld)
      {pair : TokenPair} {w' : AuthWorld} {state : RefreshToken}
      → Users.get_token (P.hash_refresh_token raw) w.committed ≡ some state
      → request (refresh P raw source_ip request_id) w ≡ (ok pair, w')
      → let p = request (refresh P raw source_ip' request_id') w' in
        (p.0 ≡ err (Error.unauthorized "invalid refresh token"))
        × (all_revoked (of_family state.family_id) p.1.committed.tokens ≡ true)
  unfolding is_active
  refresh_once raw source_ip request_id source_ip' request_id' w {pair} {w'} {state} found e =
      let r =
        refresh_rotates raw source_ip request_id w {pair = pair} {w' = w'} {state = state} found
          e in
      elim (Option-cases (Users.get_token (P.hash_refresh_token raw) w'.committed)) [
        | inl absent ↦ absurd (ground arith)
        | inr (t, stored) ↦
            let burnt =
              refresh_reuse raw source_ip' request_id' w' {state = t} stored (ground arith) in
            ground arith
      ]

  -- A refresh for a user who is gone or inactive is refused, and leaves the committed tables as they
  -- were: what it revoked in its own session is rolled back.
  pub refresh_inactive :
      (raw : String) (source_ip request_id : Option String) (w : AuthWorld) {state : RefreshToken}
      → Users.get_token (P.hash_refresh_token raw) w.committed ≡ some state
      → is_active (P.now w.tick) state ≡ true
      → active_user (Users.get_by_id state.user_id w.committed) ≡ none
      → let p = request (refresh P raw source_ip request_id) w in
        (p.0 ≡ err (Error.unauthorized "invalid refresh token")) × (p.1.committed ≡ w.committed)
  unfolding refresh refresh_token refuse_user request
  refresh_inactive raw source_ip request_id w found live gone = ground arith

  -- A change of the password that succeeds revokes every refresh token of the user; one that is refused
  -- leaves the committed tables as they were.
  pub change_password_revokes :
      (actor : User) (current fresh : String) (source_ip request_id : Option String) (w : AuthWorld)
      → let p = request (change_password P actor current fresh source_ip request_id) w in
        ((succeeded p.0 ≡ true) × (all_revoked (of_user actor.id) p.1.committed.tokens ≡ true))
        ⊎ ((succeeded p.0 ≡ false) × (p.1.committed ≡ w.committed))
  unfolding change_password validate_new_password request Users.revoke_all_for_user
      Users.update_password_hash
  change_password_revokes actor current fresh source_ip request_id w = ground (
    arith,
    all_revoked-revoke_all (of_user actor.id) (P.now (suc w.tick)) w.committed.tokens (λ t. refl),
  )
