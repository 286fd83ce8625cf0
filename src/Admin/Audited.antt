-- ===== src/Admin/Audited.antt =====
-- Every change by an admin leaves its entry in the log (admin-user.service.ts and
-- admin-audit.service.ts).
use expertos.Common.{suc, ◌≡◌, refl, ap, ◌⊎◌, inl, inr, Bool, true, false, In, String, length}
use expertos.Orm.{Prisma}
use expertos.Orm.Tables.{length-change}
use expertos.Database.Rows.{AuthUser}
use expertos.Database.Audit.{AuditEntry, log_row}
use expertos.Admin.{AdminDb, is_id}
use expertos.Admin.Service.{forget_actor}
use expertos.Admin.Requests.{AdminCall, perform_as}
use expertos.Admin.Outcomes.{Logs, appends, appends_and_forgets, perform_as-IsLogged}

module _ (actor : AuthUser) (db after : AdminDb) where
  abbrev HasEntry : AdminDb → Type 0
  HasEntry after =
      (entry : AuditEntry) × (In (log_row actor entry) after.audit
        × (length after.audit ≡ suc (length db.audit)))

  logged : Logs actor db after → HasEntry after
  logged (appends entry e) = (entry, rw e (inl refl, refl))
  logged (appends_and_forgets entry user_id apart e) = (
    entry,
    rw (e, apart)
        (inl refl, ap suc (length-change (λ a. is_id a.actor_id user_id) forget_actor db.audit)),
  )

-- A call of an admin is refused and leaves the database as it was, or it is answered, and the log has
-- one entry more, which names the actor.
pub answered_calls_logged :
    (P : Prisma) (accepts : String → Bool) (actor : AuthUser) (c : AdminCall) (db : AdminDb)
    → ((perform_as P accepts actor c db).0 ≡ false) × ((perform_as P accepts actor c db).1 ≡ db)
      ⊎ (((perform_as P accepts actor c db).0 ≡ true)
          × ((entry : AuditEntry) × In
                (log_row actor entry)
                (perform_as P accepts actor c db).1.audit
              × (length (perform_as P accepts actor c db).1.audit ≡ suc (length db.audit))))
answered_calls_logged P accepts actor c db = elim (perform_as-IsLogged P accepts actor c db) [
  | inl h ↦ inl h
  | inr (answered, touched, logs) ↦
      let (entry, (listed, more)) = logged actor db (perform_as P accepts actor c db).1 logs in
      inr (answered, (entry, listed, more))
]
