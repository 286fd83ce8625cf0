-- ===== src/Admin/Outcomes.antt =====
-- The branches of the admin's operations (apps/api/src/admin/admin-user.service.ts).
use expertos.Common.{
  ℕ, ◌≡◌, refl, ap, ◌∙◌, ◌⊎◌, inl, inr, Bool, true, false, not, ◌∷◌, String, any, keep, ◌==◌,
  Bool-cases, Option-cases,
}
use expertos.Orm.{Prisma, unordered, change}
use expertos.Database.{run}
use expertos.Database.Rows.{AuthUser, Role}
use expertos.Database.Audit.{AuditEntry, log_row, record_entry-eq}
use expertos.Admin.{FairUseFlagStatus, AdminDb, is_id}
use expertos.Admin.Service.{
  find_account, audited, set_role, forget_actor, update_role_tx, update_role, flag_fair_use_tx,
  flag_fair_use, update_fair_use_flag_tx, update_fair_use_flag, request_deletion_tx,
  request_deletion, delete_account, execute_deletion_tx, execute_deletion,
}
use expertos.Admin.Requests.{
  AdminCall, role_call, flag_call, flag_status_call, deletion_request_call, deletion_call,
  perform_as,
}

-- What a call may write in the table of accounts: nothing, or another account than the actor's.
pub data Touches (P : Prisma) (actor : AuthUser) (db after : AdminDb) : Type 0 where
  nobody : after.users ≡ db.users → Touches P actor db after
  role_of :
      (user_id : ℕ) (role : Role)
      → (actor.id == user_id) ≡ false
      → after.users ≡ change (λ u. u.id == user_id) (set_role P role) db.users
      → Touches P actor db after
  removes :
      (user_id : ℕ)
      → (actor.id == user_id) ≡ false
      → after.users ≡ keep (λ u. not (u.id == user_id)) db.users
      → Touches P actor db after

-- The entry that a call appends; the deletion of an account takes its name off older entries.
pub data Logs (actor : AuthUser) (db after : AdminDb) : Type 0 where
  appends :
      (entry : AuditEntry) → after.audit ≡ log_row actor entry ∷ db.audit → Logs actor db after
  appends_and_forgets :
      (entry : AuditEntry) (user_id : ℕ)
      → (actor.id == user_id) ≡ false
      → after.audit
        ≡ change (λ a. is_id a.actor_id user_id) forget_actor (log_row actor entry ∷ db.audit)
      → Logs actor db after

module _ (P : Prisma) (accepts : String → Bool) (actor : AuthUser) where
  -- A call is refused and changes nothing, or it is answered and logged.
  abbrev pub IsLogged : AdminDb → Bool × AdminDb → Type 0
  IsLogged db (answer, after) =
      ((answer ≡ false) × (after ≡ db))
      ⊎ ((answer ≡ true) × Touches P actor db after × Logs actor db after)

  role-IsLogged :
      (user_id : ℕ) (role : Role) (db : AdminDb)
      → IsLogged db (perform_as P accepts actor (role_call user_id role) db)
  unfolding perform_as update_role update_role_tx find_account audited
  role-IsLogged user_id role db = elim (Bool-cases (actor.id == user_id)) [
    | inl e ↦ rw (perform_as, update_role, e) (inl (refl, refl))
    | inr e ↦ elim (Option-cases (P.find_first (λ u. u.id == user_id) unordered db.users)) [
      | inl f ↦
          rw (perform_as, update_role, e, run, update_role_tx, find_account, f) (inl (refl, refl))
      | inr (row, f) ↦
          rw (perform_as, update_role, e, run, update_role_tx, find_account, f)
            (inr (
              refl,
              role_of user_id role e (P.update_many_eq _ _ db.users),
              appends _ (record_entry-eq P actor _ db.audit),
            ))
    ]
  ]

  flag-IsLogged :
      (user_id : ℕ) (reason : String) (fresh now : ℕ) (db : AdminDb)
      → IsLogged db (perform_as P accepts actor (flag_call user_id reason fresh now) db)
  unfolding perform_as flag_fair_use flag_fair_use_tx find_account audited
  flag-IsLogged user_id reason fresh now db =
      elim (Option-cases (P.find_first (λ u. u.id == user_id) unordered db.users)) [
        | inl f ↦
            rw (perform_as, flag_fair_use, run, flag_fair_use_tx, find_account, f)
              (inl (refl, refl))
        | inr (row, f) ↦ elim (Bool-cases (any (λ b. fresh == b.id) db.flags)) [
          | inl clash ↦ inl (
            simp (
              perform_as, flag_fair_use, run, flag_fair_use_tx, find_account, f, P.create_eq, clash,
            ),
            simp (
              perform_as, flag_fair_use, run, flag_fair_use_tx, find_account, f, P.create_eq, clash,
            ),
          )
          | inr free ↦
              rw
                (
                  perform_as, flag_fair_use, run, flag_fair_use_tx, find_account, f, P.create_eq,
                  free,
                )
                (inr (refl, nobody refl, appends _ (record_entry-eq P actor _ db.audit)))
        ]
      ]

  flag_status-IsLogged :
      (flag_id : ℕ) (status : FairUseFlagStatus) (db : AdminDb)
      → IsLogged db (perform_as P accepts actor (flag_status_call flag_id status) db)
  unfolding perform_as update_fair_use_flag update_fair_use_flag_tx audited
  flag_status-IsLogged flag_id status db =
      elim (Option-cases (P.find_first (λ f. f.id == flag_id) unordered db.flags)) [
        | inl f ↦
            rw (perform_as, update_fair_use_flag, run, update_fair_use_flag_tx, f)
              (inl (refl, refl))
        | inr (row, f) ↦
            rw (perform_as, update_fair_use_flag, run, update_fair_use_flag_tx, f)
              (inr (refl, nobody refl, appends _ (record_entry-eq P actor _ db.audit)))
      ]

  deletion_request-IsLogged :
      (user_id fresh now : ℕ) (db : AdminDb)
      → IsLogged db (perform_as P accepts actor (deletion_request_call user_id fresh now) db)
  unfolding perform_as request_deletion request_deletion_tx find_account audited
  deletion_request-IsLogged user_id fresh now db =
      elim (Option-cases (P.find_first (λ u. u.id == user_id) unordered db.users)) [
        | inl f ↦
            rw (perform_as, request_deletion, run, request_deletion_tx, find_account, f)
              (inl (refl, refl))
        | inr (row, f) ↦ elim (Bool-cases (any (λ b. fresh == b.id) db.deletions)) [
          | inl clash ↦ inl (
            simp (
              perform_as, request_deletion, run, request_deletion_tx, find_account, f, P.create_eq,
              clash,
            ),
            simp (
              perform_as, request_deletion, run, request_deletion_tx, find_account, f, P.create_eq,
              clash,
            ),
          )
          | inr free ↦
              rw
                (
                  perform_as, request_deletion, run, request_deletion_tx, find_account, f,
                  P.create_eq, free,
                )
                (inr (refl, nobody refl, appends _ (record_entry-eq P actor _ db.audit)))
        ]
      ]

  deletion-IsLogged :
      (user_id : ℕ) (db : AdminDb)
      → IsLogged db (perform_as P accepts actor (deletion_call user_id) db)
  unfolding perform_as execute_deletion execute_deletion_tx delete_account find_account audited
  deletion-IsLogged user_id db = elim (Bool-cases (actor.id == user_id)) [
    | inl e ↦ rw (perform_as, execute_deletion, e) (inl (refl, refl))
    | inr e ↦ elim (Option-cases (P.find_first (λ u. u.id == user_id) unordered db.users)) [
      | inl f ↦
          rw (perform_as, execute_deletion, e, run, execute_deletion_tx, find_account, f)
            (inl (refl, refl))
      | inr (row, f) ↦
          rw (perform_as, execute_deletion, e, run, execute_deletion_tx, find_account, f)
            (inr (
              refl,
              removes user_id e (P.delete_many_eq _ db.users),
              appends_and_forgets _ user_id e (
                  P.update_many_eq _ _ _
                  ∙ ap (change (λ a. is_id a.actor_id user_id) forget_actor)
                      (record_entry-eq P actor _ db.audit)),
            ))
    ]
  ]

  pub perform_as-IsLogged :
      (c : AdminCall) (db : AdminDb) → IsLogged db (perform_as P accepts actor c db)
  perform_as-IsLogged (role_call user_id role) db = role-IsLogged user_id role db
  perform_as-IsLogged (flag_call user_id reason fresh now) db =
      flag-IsLogged user_id reason fresh now db
  perform_as-IsLogged (flag_status_call flag_id status) db = flag_status-IsLogged flag_id status db
  perform_as-IsLogged (deletion_request_call user_id fresh now) db =
      deletion_request-IsLogged user_id fresh now db
  perform_as-IsLogged (deletion_call user_id) db = deletion-IsLogged user_id db
