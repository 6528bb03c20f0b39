-- ===== src/Identity/Admin/Deletion.antt =====
-- `delete_user` of backend/src/spidey/identity/application/user_service.py: what becomes of the rows.
use spidey.Base.{
  ℕ, ◌≡◌, refl, ap, String, true, false, not, Option, none, List, [], ◌∷◌, ◌==◌, Bool-cases, inl,
  inr, arith, is_some, find, find-delete_row, keep, ==_iff,
}
use spidey.Base.Action.{succeeded}
use spidey.Identity.Users
use spidey.Identity.Users.{User, StoredUser, RefreshToken, Db, revoke_all, revoke_if, of_user}
use spidey.Identity.Auth.{Ports, AuthWorld}
use spidey.Identity.Auth.Sessions.{request}
use spidey.Identity.Admin.{delete_user}

-- The user and the user's tokens are gone, and nobody else's.
pub record IsErased (user_id : ℕ) (db db' : Db) : Type 0 where
  pub gone : find user_id db'.users ≡ none
  pub others : (k : ℕ) → (k == user_id) ≡ false → find k db'.users ≡ find k db.users
  pub tokens : db'.tokens ≡ keep (λ t. not (of_user user_id t)) db.tokens

keep-revoke_all :
    (user_id now : ℕ) (ts : List RefreshToken)
    → keep (λ t. not (of_user user_id t)) (revoke_all (of_user user_id) now ts)
      ≡ keep (λ t. not (of_user user_id t)) ts
keep-revoke_all user_id now [] = refl
keep-revoke_all user_id now (t ∷ ts) = elim (Bool-cases (t.user_id == user_id)) [
  | inl e ↦ elim (Bool-cases (is_some t.revoked_at)) [
    | inl f ↦ rw (e, f, e) (keep-revoke_all user_id now ts)
    | inr f ↦ rw (e, f, e) (keep-revoke_all user_id now ts)
  ]
  | inr e ↦ rw (e, e) (ap (◌∷◌ t) (keep-revoke_all user_id now ts))
]

erased :
    (user_id now : ℕ) (db : Db)
    → (Users.delete_user user_id (Users.revoke_all_for_user user_id now db)).0 ≡ true
    → IsErased user_id db (Users.delete_user user_id (Users.revoke_all_for_user user_id now db)).1
unfolding Users.delete_user Users.revoke_all_for_user
erased user_id now db e = elim (Bool-cases (is_some (find user_id db.users))) [
  | inl f ↦ rw f (record {
    gone = rw (find-delete_row user_id user_id db.users, (==_iff user_id user_id).1 refl) refl;
    others = λ k other. rw (find-delete_row k user_id db.users, other) refl;
    tokens = keep-revoke_all user_id now db.tokens;
  })
  | inr f ↦ absurd (ground (arith, e, f))
]

-- A deletion that succeeds is of another user than the actor, and erases that user and the user's tokens
-- from the committed tables, and nobody else's.
pub delete_user-IsErased :
    (P : Ports) (str_id : ℕ → String) (actor : User) (user_id : ℕ) (request_id : Option String)
    (w : AuthWorld)
    → succeeded (request (delete_user P str_id actor user_id request_id) w).0 ≡ true
    → ((user_id == actor.id) ≡ false)
      × IsErased user_id w.committed
          (request (delete_user P str_id actor user_id request_id) w).1.committed
unfolding request delete_user
delete_user-IsErased P str_id actor user_id request_id w = elim (Bool-cases (user_id == actor.id)) [
  | inl e ↦ rw e (λ h. absurd (ground (arith, h)))
  | inr e ↦
      let db = Users.revoke_all_for_user user_id (P.now w.tick) w.committed in
      elim (Bool-cases (Users.delete_user user_id db).0) [
        | inl f ↦
            let r = erased user_id (P.now w.tick) w.committed f in
            rw (e, f) (λ h. (refl, record { gone = r.gone; others = r.others; tokens = r.tokens }))
        | inr f ↦ rw (e, f) (λ h. absurd (ground (arith, h)))
      ]
]
