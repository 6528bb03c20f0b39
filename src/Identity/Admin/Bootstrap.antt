-- ===== src/Identity/Admin/Bootstrap.antt =====
-- `bootstrap_admin` of backend/src/spidey/identity/application/user_service.py: the first administrator.
use spidey.Base.{
  ℕ, suc, ◌≡◌, refl, sym, ap, subst, ◌∙◌, String, Bool, true, false, none, List, [], ◌∷◌,
  Bool-cases, inl, inr, arith, Table, ltb, str_len, str_contains, length,
}
use spidey.Base.Action.{Result, ok, err, raise_if}
use spidey.Base.Action.Rules.{>>=-eq-ok}
use spidey.Platform.Errors.{Error}
use spidey.Identity.Roles.{Role, role_value}
use spidey.Identity.Users
use spidey.Identity.Users.{User, StoredUser, Db, new_user, text, flag}
use spidey.Identity.Auth.{Ports, AuthWorld, validate_new_password, normalize_email}
use spidey.Identity.Auth.Sessions.{request, conclude}
use spidey.Identity.Admin.{audit_created, insert, insert_valid, bootstrap_first, bootstrap_admin}
use spidey.Identity.Admin.Tables.{Administered}

length-zero : {A : Type 0} (xs : List A) → ltb 0 (length xs) ≡ false → xs ≡ []
length-zero [] h = refl
length-zero (x ∷ xs) h = absurd (ground (arith, h))

raise_if-ok :
    (x : Error) (b : Bool) (w : AuthWorld) {u : AuthWorld}
    → raise_if b x w ≡ (ok tt, u)
    → (b ≡ false) × (w ≡ u)
raise_if-ok x true w h = absurd (ground (arith, h))
raise_if-ok x false w h = (refl, ap (λ (p : Result (Unit {0}) × AuthWorld). p.1) h)

abbrev refusal : Error
refusal = Error.conflict "bootstrap refused: users already exist"

module _ (P : Ports) (str_id : ℕ → String) where
  validate_new_password_lem :
      (password email : String) (w : AuthWorld) → (validate_new_password P password email w).1 ≡ w
  unfolding validate_new_password
  validate_new_password_lem password email w = elim (Bool-cases (ltb (str_len password) 12)) [
    | inl e ↦ rw e refl
    | inr e ↦ rw e (elim (Bool-cases (ltb 128 (str_len password))) [
      | inl f ↦ rw f refl
      | inr f ↦
          rw f (elim (Bool-cases (str_contains (normalize_email P email) (P.lower password))) [
            | inl g ↦ rw g refl
            | inr g ↦ rw g refl
          ])
    ])
  ]

  insert_valid-first :
      (email password : String) (role : Role) (w : AuthWorld)
      → w.session.users ≡ []
      → (k : ℕ) × (now : ℕ) × (h : String) × ((insert_valid P str_id email password role
            w).1.session.users
          ≡ (k, new_user k now email h role) ∷ [])
  unfolding insert_valid Users.create_user Users.get_by_email
  insert_valid-first email password role w e =
      (P.fresh (suc w.tick), P.now (suc (suc w.tick)), P.hash w.tick password, rw e refl)

  insert-first :
      (email password : String) (role : Role) (w : AuthWorld) {created : User} {v : AuthWorld}
      → w.session.users ≡ []
      → insert P str_id email password role w ≡ (ok created, v)
      → (k : ℕ) × (now : ℕ) × (h : String) × (v.session.users
          ≡ (k, new_user k now email h role) ∷ [])
  unfolding insert
  insert-first email password role w {created} {v} empty e =
      let (_, u, valid, rest) =
        >>=-eq-ok (validate_new_password P password email)
          (λ _. insert_valid P str_id email password role) w e in
      let same : w ≡ u =
        sym (validate_new_password_lem password email w)
        ∙ ap (λ (p : Result (Unit {0}) × AuthWorld). p.1) valid in
      let (k, now, h, row) =
        insert_valid-first email password role u
          (subst (λ (x : AuthWorld). x.session.users ≡ []) same empty) in
      (
        k,
        now,
        h,
        subst
            (λ (p : Result User × AuthWorld).
              p.1.session.users ≡ (k, new_user k now email h role) ∷ [])
            rest row,
      )

  bootstrap_first-Administered :
      (email password : String) (w : AuthWorld) {created : User} {v : AuthWorld}
      → w.session.users ≡ []
      → bootstrap_first P str_id email password w ≡ (ok created, v)
      → Administered v.session.users × (ltb 0 (length v.session.users) ≡ true)
  unfolding bootstrap_first
  bootstrap_first-Administered email password w {created} {v} empty e =
      let (made, u, inserted, rest) =
        >>=-eq-ok (insert P str_id (normalize_email P email) password Role.admin)
          (λ (c : User).
            audit_created c.id (normalize_email P email) none
              (("role", text (role_value Role.admin)) ∷ ("bootstrap", flag true) ∷ []) c)
          w e in
      let (k, now, h, row) =
        insert-first (normalize_email P email) password Role.admin w {created = made} {v = u} empty
          inserted in
      let users : v.session.users ≡ u.session.users =
        ap (λ (p : Result User × AuthWorld). p.1.session.users) (sym rest) in
      let st = new_user k now (normalize_email P email) h Role.admin in
      (rw (users, row) ((refl, tt), k, st, ground arith, (refl, refl)), rw (users, row) refl)

  first_admin :
      (email password : String) (w : AuthWorld) {created : User} {v : AuthWorld}
      → bootstrap_admin P str_id email password w ≡ (ok created, v)
      → (w.session.users ≡ [])
        × Administered v.session.users
        × (ltb 0 (length v.session.users) ≡ true)
  unfolding bootstrap_admin Users.count_users
  first_admin email password w {created} {v} e =
      let (_, u, guard, rest) =
        >>=-eq-ok (raise_if (ltb 0 (length w.session.users)) refusal)
          (λ _. bootstrap_first P str_id email password) w e in
      let (none_there, same) = raise_if-ok refusal _ w guard in
      let empty = length-zero w.session.users none_there in
      let (administered, some_user) =
        bootstrap_first-Administered email password u {created = created} {v = v}
          (subst (λ (x : AuthWorld). x.session.users ≡ []) same empty) rest in
      (empty, administered, some_user)

  refused_again :
      (email password : String) (w : AuthWorld)
      → ltb 0 (length w.committed.users) ≡ true
      → (request (bootstrap_admin P str_id email password) w).0 ≡ err refusal
  unfolding request bootstrap_admin Users.count_users
  refused_again email password w e = rw e refl

  -- A bootstrap that succeeds found no user, leaves an active administrator in the committed tables, and
  -- is the last one: any later one is refused on those tables.
  pub bootstrap_admin_once :
      (email password again_email again_password : String) (w : AuthWorld) {created : User}
      {w' : AuthWorld}
      → request (bootstrap_admin P str_id email password) w ≡ (ok created, w')
      → (w.committed.users ≡ [])
        × Administered w'.committed.users
        × ((request (bootstrap_admin P str_id again_email again_password) w').0 ≡ err refusal)
  unfolding request
  bootstrap_admin_once email password again_email again_password w {created} {w'} e =
      go (bootstrap_admin P str_id email password (record w { session = w.committed })) refl e
    where
      go :
          (p : Result User × AuthWorld)
          → bootstrap_admin P str_id email password (record w { session = w.committed }) ≡ p
          → conclude p ≡ (ok created, w')
          → (w.committed.users ≡ [])
            × Administered w'.committed.users
            × ((request (bootstrap_admin P str_id again_email again_password) w').0 ≡ err refusal)
      go (ok c, v) h done =
          let (empty, administered, some_user) =
            first_admin email password (record w { session = w.committed }) {created = c} {v = v}
              h in
          let stored : v.session.users ≡ w'.committed.users =
            ap (λ (p : Result User × AuthWorld). p.1.committed.users) done in
          (
            empty,
            subst Administered stored administered,
            refused_again again_email again_password w'
                (subst (λ (t : Table StoredUser). ltb 0 (length t) ≡ true) stored some_user),
          )
      go (err x, v) h done = absurd (ground (arith, done))
