-- ===== src/Admin/Remains.antt =====
-- The admin-user routes never lose the last admin (apps/api/src/admin/admin-user.service.ts, the guards on an
-- admin's own account, behind apps/api/src/auth).
use expertos.Common.{
  ℕ, ◌≡◌, refl, subst, sym, ◌⊎◌, inl, inr, Bool, true, not, ◌&&◌, List, [], ◌∷◌, In, String, str_eq,
  any, ◌==◌, Bool-cases, Option-cases,
}
use expertos.Orm.{Prisma, unordered, change}
use expertos.Orm.Reads.{In-keep, In-change}
use expertos.Database.{Result, ok, err, run}
use expertos.Database.Rows.{AuthUser, Role}
use expertos.Admin.{Account, AdminDb, AdminError, unique_violation, beta_access_denied}
use expertos.Admin.Service.{set_role}
use expertos.Admin.Auth.{
  DecodedIdToken, satisfies_role, is_consumer, can_activate, new_account, to_auth_user,
  find_or_create, is_allowed, admit, resolve_user_tx, resolve_user,
}
use expertos.Admin.Requests.{AdminCall, AdminRequest, guarded, handle, handle_all}
use expertos.Admin.Outcomes.{Touches, nobody, role_of, removes, perform_as-IsLogged}

abbrev pub HasAdmin : AdminDb → Type 0
HasAdmin db = (a : Account) × (In a db.users × (a.role ≡ Role.admin))

admin_of : (r : Role) → satisfies_role r Role.admin ≡ true → r ≡ Role.admin
admin_of Role.user h = cc
admin_of Role.expert h = cc
admin_of Role.admin h = refl

module _ (P : Prisma) where
  -- The account of the actor outlives the actor's calls.
  keeps_actor :
      (row : Account) (db after : AdminDb)
      → In row db.users
      → Touches P (to_auth_user row) db after
      → In row after.users
  keeps_actor row db after m (nobody e) = rw e m
  keeps_actor row db after m (role_of user_id role apart e) =
      subst (λ t. In row t) (sym e)
        (subst (λ r. In r (change (λ u. u.id == user_id) (set_role P role) db.users))
          (rw apart refl) (In-change (λ u. u.id == user_id) (set_role P role) row db.users m))
  keeps_actor row db after m (removes user_id apart e) =
      rw e (In-keep (λ u. not (u.id == user_id)) row db.users m (rw apart refl))

  -- A sign-in fails and changes nothing, or it answers with an account that is in the table, which has
  -- lost none.
  abbrev IsSignedIn : AdminDb → Result AdminError AuthUser × AdminDb → Type 0
  IsSignedIn db result =
      ((e : AdminError) × (result ≡ (err e, db)))
      ⊎ ((row : Account) × (db1 : AdminDb) × (result ≡ (ok (to_auth_user row), db1))
          × In row db1.users
          × ((a : Account) → In a db.users → In a db1.users))

  resolved :
      (normalized : String → String) (token : DecodedIdToken) (gate : Bool) (fresh now : ℕ)
      (row : Account) (db db1 : AdminDb)
      → find_or_create P normalized token fresh now db ≡ ok (row, db1)
      → In row db1.users
      → ((a : Account) → In a db.users → In a db1.users)
      → IsSignedIn db (resolve_user P normalized token gate fresh now db)
  unfolding resolve_user resolve_user_tx admit
  resolved normalized token gate fresh now row db db1 found m k =
      elim (Bool-cases (is_consumer row.role && gate && not (is_allowed P normalized row db1))) [
        | inl e ↦
            rw (resolve_user, run, resolve_user_tx, found, admit, e)
              (inl (beta_access_denied, refl))
        | inr e ↦
            rw (resolve_user, run, resolve_user_tx, found, admit, e) (inr (row, db1, refl, m, k))
      ]

  sign_in :
      (normalized : String → String) (token : DecodedIdToken) (gate : Bool) (fresh now : ℕ)
      (db : AdminDb)
      → IsSignedIn db (resolve_user P normalized token gate fresh now db)
  unfolding resolve_user resolve_user_tx find_or_create
  sign_in normalized token gate fresh now db =
      elim (Option-cases (P.find_first (λ u. str_eq u.firebase_uid token.uid) unordered db.users)) [
        | inr (row, f) ↦
            let (m, _, _) = P.find_first_some _ _ _ _ f in
            resolved normalized token gate fresh now row db db (rw (find_or_create, f) refl) m
              (λ a i. i)
        | inl f ↦ elim (Bool-cases (any (λ b. str_eq token.uid b.firebase_uid) db.users)) [
          | inl clash ↦
              let failed : find_or_create P normalized token fresh now db ≡ err unique_violation =
                simp (find_or_create, f, P.create_eq, clash) in
              rw (resolve_user, run, resolve_user_tx, failed) (inl (unique_violation, refl))
          | inr free ↦
              resolved normalized token gate fresh now (new_account token fresh now) db
                (record db { users = new_account token fresh now ∷ db.users })
                (simp (find_or_create, f, P.create_eq, free)) (inl refl) (λ a i. inr i)
        ]
      ]

  module _ (accepts : String → Bool) (normalized : String → String) where
    guarded-HasAdmin :
        (c : AdminCall) (row : Account) (db1 : AdminDb)
        → In row db1.users
        → HasAdmin db1
        → HasAdmin (guarded P accepts c (ok (to_auth_user row), db1))
    unfolding guarded can_activate
    guarded-HasAdmin c row db1 m h = elim (Bool-cases (satisfies_role row.role Role.admin)) [
      | inr e ↦ rw (guarded, can_activate, e) h
      | inl e ↦
          rw (guarded, can_activate, e)
            (elim (perform_as-IsLogged P accepts (to_auth_user row) c db1) [
              | inl (_, same) ↦ rw same h
              | inr (_, touched, _) ↦ (row, (keeps_actor row db1 _ m touched, admin_of row.role e))
            ])
    ]

    handle-HasAdmin :
        (r : AdminRequest) (db : AdminDb)
        → HasAdmin db
        → HasAdmin (handle P accepts normalized r db)
    unfolding handle guarded
    handle-HasAdmin r db h = elim (sign_in normalized r.token r.gate_enabled r.fresh r.now db) [
      | inl (e, same) ↦ rw (handle, same, guarded) h
      | inr (row, db1, same, m, k) ↦
          rw (handle, same) (guarded-HasAdmin r.call row db1 m (h.0, (k h.0 h.1.0, h.1.1)))
    ]

    -- Where some account is an admin's: after any sequence of calls of the admin-user routes, each of
    -- which signs in by its bearer token, passes the guard and runs before the next, some account is
    -- an admin's. The portal's sign-in and the whitelist editor are not among the calls.
    pub some_admin_remains :
        (rs : List AdminRequest) (db : AdminDb)
        → HasAdmin db
        → HasAdmin (handle_all P accepts normalized rs db)
    unfolding handle_all
    some_admin_remains [] db h = h
    some_admin_remains (r ∷ rs) db h =
        some_admin_remains rs (handle P accepts normalized r db) (handle-HasAdmin r db h)
