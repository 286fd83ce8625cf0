-- ===== src/Admin/Service.antt =====
-- apps/api/src/admin/admin-user.service.ts: roles, fair-use flags and the deletion of an account.
use expertos.Common.{
  ℕ, Bool, true, not, ◌&&◌, Option, none, some, List, [], ◌∷◌, String, str_eq, map, if◌then◌else◌,
  ◌==◌,
}
use expertos.Orm.{Prisma, unordered}
use expertos.Database.{Result, ok, err, ◌>>=◌, run}
use expertos.Database.Rows.{AuthUser, Role}
use expertos.Database.Audit.{Json, AuditEntry, AdminAuditLog, record_entry}
use expertos.Admin.{
  Account, FairUseFlag, FairUseFlagStatus, open_flag, reviewed, throttled, cleared,
  DataDeletionRequest, DataDeletionStatus, AdminDb, AdminError, bad_request, not_found,
  unique_violation, is_id,
}
use expertos.Admin.Dto.{
  AdminUserSummaryDto, AdminUserDetailDto, AdminFairUseFlagDto, DataDeletionRequestDto, to_flag,
  to_deletion, to_summary, to_detail,
}

pub record UserDeletionResultDto : Type 0 where
  pub user_id : ℕ
  pub deleted : Bool

abbrev pub role_text : Role → String
role_text Role.user = "user"
role_text Role.expert = "expert"
role_text Role.admin = "admin"

abbrev pub flag_status_text : FairUseFlagStatus → String
flag_status_text open_flag = "open"
flag_status_text reviewed = "reviewed"
flag_status_text throttled = "throttled"
flag_status_text cleared = "cleared"

abbrev pub role_changed : ℕ → Role → Role → AuditEntry
role_changed user_id from to = record {
  action = "user.role_changed";
  target_type = some "user";
  target_id = some user_id;
  metadata =
      ("from", Json.json_string (role_text from)) ∷ ("to", Json.json_string (role_text to)) ∷ [];
}

abbrev pub fair_use_flagged : ℕ → ℕ → AuditEntry
fair_use_flagged user_id flag_id = record {
  action = "user.fair_use_flagged";
  target_type = some "user";
  target_id = some user_id;
  metadata = ("flagId", Json.json_number flag_id) ∷ [];
}

abbrev pub fair_use_updated : ℕ → ℕ → FairUseFlagStatus → AuditEntry
fair_use_updated flag_id user_id status = record {
  action = "user.fair_use_updated";
  target_type = some "fair_use_flag";
  target_id = some flag_id;
  metadata =
      ("userId", Json.json_number user_id)
      ∷ ("status", Json.json_string (flag_status_text status))
      ∷ [];
}

abbrev pub deletion_requested : ℕ → ℕ → AuditEntry
deletion_requested user_id request_id = record {
  action = "user.deletion_requested";
  target_type = some "user";
  target_id = some user_id;
  metadata = ("requestId", Json.json_number request_id) ∷ [];
}

abbrev pub data_deleted : ℕ → Role → AuditEntry
data_deleted user_id role = record {
  action = "user.data_deleted";
  target_type = some "user";
  target_id = some user_id;
  metadata = ("role", Json.json_string (role_text role)) ∷ [];
}

-- `ON DELETE SET NULL` for the actor of an entry and for the user of an expert.
abbrev pub forget_actor : AdminAuditLog → AdminAuditLog
forget_actor row = record row { actor_id = none }

module _ (P : Prisma) where
  unfoldable pub find_account : ℕ → AdminDb → Result AdminError Account
  find_account user_id db = elim (P.find_first (λ u. u.id == user_id) unordered db.users) [
    | none ↦ err not_found
    | some row ↦ ok row
  ]

  unfoldable pub audited : AuthUser → AuditEntry → AdminDb → AdminDb
  audited actor entry db = record db { audit = record_entry P actor entry db.audit }

  unfoldable pub get : ℕ → AdminDb → Result AdminError AdminUserDetailDto
  get user_id db = do row ← find_account user_id db; ok (to_detail P row db)

  abbrev pub set_role : Role → Account → Account
  set_role role u = record u { role = role }

  unfoldable pub update_role_tx :
      AuthUser → ℕ → Role → AdminDb → Result AdminError (AdminUserSummaryDto × AdminDb)
  update_role_tx actor user_id role db = do
    current ← find_account user_id db
    let db1 = record db { users = P.update_many (λ u. u.id == user_id) (set_role role) db.users }
    let db2 = audited actor (role_changed user_id current.role role) db1
    ok (to_summary P (set_role role current) db2, db2)

  unfoldable pub update_role :
      AuthUser → ℕ → Role → AdminDb → Result AdminError AdminUserSummaryDto × AdminDb
  update_role actor user_id role db =
      if actor.id == user_id
      then (err bad_request, db)
      else run (update_role_tx actor user_id role) db

  unfoldable pub flag_fair_use_tx :
      AuthUser → ℕ → String → ℕ → ℕ → AdminDb → Result AdminError (AdminFairUseFlagDto × AdminDb)
  flag_fair_use_tx actor user_id reason fresh now db = do
    target ← find_account user_id db
    let flag : FairUseFlag = record {
      id = fresh;
      tenant_id = target.tenant_id;
      user_id = user_id;
      reason = reason;
      status = open_flag;
      created_at = now;
    }
    elim (P.create (λ a b. a.id == b.id) flag db.flags) [
      | none ↦ err unique_violation
      | some flags ↦ ok (
        to_flag flag,
        audited actor (fair_use_flagged user_id fresh) (record db { flags = flags }),
      )
    ]

  unfoldable pub flag_fair_use :
      AuthUser → ℕ → String → ℕ → ℕ → AdminDb → Result AdminError AdminFairUseFlagDto × AdminDb
  flag_fair_use actor user_id reason fresh now db =
      run (flag_fair_use_tx actor user_id reason fresh now) db

  unfoldable pub update_fair_use_flag_tx :
      AuthUser → ℕ → FairUseFlagStatus → AdminDb → Result AdminError (AdminFairUseFlagDto × AdminDb)
  update_fair_use_flag_tx actor flag_id status db =
      elim (P.find_first (λ f. f.id == flag_id) unordered db.flags) [
        | none ↦ err not_found
        | some existing ↦ ok (
          to_flag (record existing { status = status }),
          audited actor (fair_use_updated flag_id existing.user_id status) (record db {
            flags =
                P.update_many (λ f. f.id == flag_id) (λ f. record f { status = status }) db.flags;
          }),
        )
      ]

  unfoldable pub update_fair_use_flag :
      AuthUser → ℕ → FairUseFlagStatus → AdminDb → Result AdminError AdminFairUseFlagDto × AdminDb
  update_fair_use_flag actor flag_id status db =
      run (update_fair_use_flag_tx actor flag_id status) db

  unfoldable pub request_deletion_tx :
      AuthUser → ℕ → ℕ → ℕ → AdminDb → Result AdminError (DataDeletionRequestDto × AdminDb)
  request_deletion_tx actor user_id fresh now db = do
    target ← find_account user_id db
    let request : DataDeletionRequest = record {
      id = fresh;
      tenant_id = target.tenant_id;
      user_id = user_id;
      status = DataDeletionStatus.requested;
      requested_at = now;
      completed_at = none;
    }
    elim (P.create (λ a b. a.id == b.id) request db.deletions) [
      | none ↦ err unique_violation
      | some deletions ↦ ok (
        to_deletion request,
        audited actor (deletion_requested user_id fresh) (record db { deletions = deletions }),
      )
    ]

  unfoldable pub request_deletion :
      AuthUser → ℕ → ℕ → ℕ → AdminDb → Result AdminError DataDeletionRequestDto × AdminDb
  request_deletion actor user_id fresh now db = run (request_deletion_tx actor user_id fresh now) db

  -- `delete` of an account, with what the foreign keys do to the rows that name it.
  unfoldable pub delete_account : ℕ → AdminDb → AdminDb
  delete_account user_id db = record db {
    users = P.delete_many (λ u. u.id == user_id) db.users;
    subscriptions = P.delete_many (λ s. s.user_id == user_id) db.subscriptions;
    flags = P.delete_many (λ f. f.user_id == user_id) db.flags;
    deletions = P.delete_many (λ d. d.user_id == user_id) db.deletions;
    uploads = P.delete_many (λ u. u.user_id == user_id) db.uploads;
    owned = P.delete_many (λ r. r.user_id == user_id) db.owned;
    experts =
        P.update_many (λ e. is_id e.user_id user_id) (λ e. record e { user_id = none }) db.experts;
    audit = P.update_many (λ a. is_id a.actor_id user_id) forget_actor db.audit;
  }

  unfoldable pub execute_deletion_tx :
      AuthUser → ℕ → AdminDb → Result AdminError (List (Option String) × AdminDb)
  execute_deletion_tx actor user_id db = do
    target ← find_account user_id db
    let uploads = P.find_many (λ u. u.user_id == user_id) unordered db.uploads
    let db1 = audited actor (data_deleted user_id target.role) db
    ok (map (λ u. u.gcs_uri) uploads, delete_account user_id db1)

  -- `deleteStorageObjects`: the storage answers for each uri whether it took the call.
  unfoldable pub delete_storage_objects :
      (String → Bool) → List (Option String) → List String → List String
  delete_storage_objects accepts [] objects = objects
  delete_storage_objects accepts (none ∷ uris) objects = delete_storage_objects accepts uris objects
  delete_storage_objects accepts (some uri ∷ uris) objects = delete_storage_objects accepts uris (
      if not (str_eq uri "") && accepts uri
      then P.delete_many (λ o. str_eq o uri) objects
      else objects)

  -- After the commit, the bytes of the uploads.
  abbrev pub reclaim :
      (String → Bool)
      → ℕ
      → Result AdminError (List (Option String)) × AdminDb
      → Result AdminError UserDeletionResultDto × AdminDb
  reclaim accepts user_id (err e, db) = (err e, db)
  reclaim accepts user_id (ok uris, db) = (
    ok (record { user_id = user_id; deleted = true }),
    record db { objects = delete_storage_objects accepts uris db.objects },
  )

  unfoldable pub execute_deletion :
      (String → Bool) → AuthUser → ℕ → AdminDb → Result AdminError UserDeletionResultDto × AdminDb
  execute_deletion accepts actor user_id db =
      if actor.id == user_id
      then (err bad_request, db)
      else reclaim accepts user_id (run (execute_deletion_tx actor user_id) db)
