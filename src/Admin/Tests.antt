-- ===== src/Admin/Tests.antt =====
-- One admin and one user: each property at a concrete run.
use expertos.Common.{
  suc, ◌≡◌, refl, ◌⊎◌, inl, Bool, true, false, ◌&&◌, none, some, List, [], ◌∷◌, String, In, any,
  length,
}
use expertos.Orm.Listed.{listed}
use expertos.Database.{ok, err}
use expertos.Database.Rows.{AuthUser, Role}
use expertos.Database.Audit.{AuditEntry, log_row}
use expertos.Admin.{Account, AdminDb, AdminError}
use expertos.Admin.Service.{execute_deletion}
use expertos.Admin.Requests.{
  AdminCall, role_call, deletion_call, AdminRequest, perform_as, handle_all,
}
use expertos.Admin.Audited.{answered_calls_logged}
use expertos.Admin.Remains.{HasAdmin, some_admin_remains}
use expertos.Admin.Erased.{IsErased, is_upload, accepted_uri, holds, deletion_erases}

abbrev ada : Account
ada = record {
  id = 1;
  tenant_id = 0;
  firebase_uid = "f1";
  email = "ada@x";
  display_name = none;
  role = Role.admin;
  locale = "en";
  created_at = 5;
  updated_at = 5;
}

abbrev ben : Account
ben = record ada { id = 2; firebase_uid = "f2"; email = "ben@x"; role = Role.user }

abbrev db : AdminDb
db = record {
  users = ada ∷ ben ∷ [];
  plans = [];
  subscriptions = [];
  flags = [];
  deletions = [];
  uploads = record { id = 3; user_id = 2; gcs_uri = some "gs://b/3" } ∷ [];
  owned = record { table = "conversations"; user_id = 2 } ∷ [];
  experts = [];
  audit = [];
  allowed_emails = [];
  objects = "gs://b/3" ∷ [];
}

abbrev actor : AuthUser
actor = record { id = 1; tenant_id = 0; email = "ada@x"; role = Role.admin }

abbrev always : String → Bool
always uri = true

answered_calls_logged_example :
    ((perform_as listed always actor (role_call 2 Role.expert) db).0 ≡ false)
      × ((perform_as listed always actor (role_call 2 Role.expert) db).1 ≡ db)
    ⊎ (((perform_as listed always actor (role_call 2 Role.expert) db).0 ≡ true)
        × ((entry : AuditEntry) × In
              (log_row actor entry)
              (perform_as listed always actor (role_call 2 Role.expert) db).1.audit
            × (length (perform_as listed always actor (role_call 2 Role.expert) db).1.audit
                ≡ suc (length db.audit))))
answered_calls_logged_example =
    answered_calls_logged listed always actor (role_call 2 Role.expert) db

abbrev as_is : String → String
as_is s = s

abbrev console : AdminCall → AdminRequest
console call = record {
  token = record { uid = "f1"; email = some "ada@x"; name = none };
  gate_enabled = true;
  fresh = 9;
  now = 20;
  call = call;
}

abbrev requests : List AdminRequest
requests =
    console (role_call 1 Role.user)
    ∷ console (role_call 2 Role.admin)
    ∷ console (deletion_call 2)
    ∷ []

some_admin_remains_example : HasAdmin (handle_all listed always as_is requests db)
some_admin_remains_example =
    some_admin_remains listed always as_is requests db (ada, (inl refl, refl))

deletion_erases_example :
    ((e : AdminError) × (execute_deletion listed always actor 2 db ≡ (err e, db)))
    ⊎ (((execute_deletion listed always actor 2 db).0 ≡ ok (record { user_id = 2; deleted = true }))
        × IsErased listed always 2 (execute_deletion listed always actor 2 db).1
        × ((any (is_upload listed always 2 "gs://b/3") db.uploads
              && accepted_uri listed always "gs://b/3"
              && holds "gs://b/3" (execute_deletion listed always actor 2 db).1.objects)
            ≡ false))
deletion_erases_example = deletion_erases listed always actor 2 "gs://b/3" db
