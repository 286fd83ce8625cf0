-- ===== src/Admin/Requests.antt =====
-- A call of an admin-user route: the sign-in by the bearer token, the guard of the route and the
-- operation (apps/api/src/admin/admin-user.controller.ts with its `@Roles("admin")`). The portal's own
-- sign-in, POST /me/admin-session, is another route and no part of it.
use expertos.Common.{ℕ, Bool, true, false, some, List, [], ◌∷◌, String}
use expertos.Orm.{Prisma}
use expertos.Database.{Result, ok, err}
use expertos.Database.Rows.{AuthUser, Role}
use expertos.Admin.{FairUseFlagStatus, AdminDb, AdminError}
use expertos.Admin.Service.{
  update_role, flag_fair_use, update_fair_use_flag, request_deletion, execute_deletion,
}
use expertos.Admin.Auth.{DecodedIdToken, can_activate, resolve_user}

pub data AdminCall : Type 0 where
  role_call : ℕ → Role → AdminCall
  flag_call : ℕ → String → ℕ → ℕ → AdminCall
  flag_status_call : ℕ → FairUseFlagStatus → AdminCall
  deletion_request_call : ℕ → ℕ → ℕ → AdminCall
  deletion_call : ℕ → AdminCall

pub record AdminRequest : Type 0 where
  pub token : DecodedIdToken
  pub gate_enabled : Bool
  pub fresh : ℕ
  pub now : ℕ
  pub call : AdminCall

abbrev is_ok : {E A : Type 0} → Result E A → Bool
is_ok (ok a) = true
is_ok (err e) = false

abbrev answered : {A : Type 0} → Result AdminError A × AdminDb → Bool × AdminDb
answered (r, db) = (is_ok r, db)

-- `accepts` says which deletions the object storage takes.
module _ (P : Prisma) (accepts : String → Bool) where
  -- Whether the operation was answered without an error, and the database after it.
  unfoldable pub perform_as : AuthUser → AdminCall → AdminDb → Bool × AdminDb
  perform_as actor (role_call user_id role) db = answered (update_role P actor user_id role db)
  perform_as actor (flag_call user_id reason fresh now) db =
      answered (flag_fair_use P actor user_id reason fresh now db)
  perform_as actor (flag_status_call flag_id status) db =
      answered (update_fair_use_flag P actor flag_id status db)
  perform_as actor (deletion_request_call user_id fresh now) db =
      answered (request_deletion P actor user_id fresh now db)
  perform_as actor (deletion_call user_id) db =
      answered (execute_deletion P accepts actor user_id db)

  unfoldable pub guarded : AdminCall → Result AdminError AuthUser × AdminDb → AdminDb
  guarded call (err e, db) = db
  guarded call (ok principal, db) = elim (can_activate (some Role.admin) (some principal)) [
    | ok _ ↦ (perform_as principal call db).1
    | err e ↦ db
  ]

  unfoldable pub handle : (String → String) → AdminRequest → AdminDb → AdminDb
  handle normalized r db =
      guarded r.call (resolve_user P normalized r.token r.gate_enabled r.fresh r.now db)

  unfoldable pub handle_all : (String → String) → List AdminRequest → AdminDb → AdminDb
  handle_all normalized [] db = db
  handle_all normalized (r ∷ rs) db = handle_all normalized rs (handle normalized r db)
