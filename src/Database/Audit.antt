-- ===== src/Database/Audit.antt =====
-- The audit log of the admin actions: apps/api/src/admin/admin-audit.service.ts. The metadata of an
-- entry is a JSON object, as its keys with their values.
use expertos.Common.{ℕ, ◌≡◌, Bool, Option, some, List, ◌∷◌, String}
use expertos.Orm.{Prisma}
use expertos.Orm.Reads.{create_row, create_row-eq}
use expertos.Database.Rows.{AuthUser}

pub data Json : Type 0 where
  json_null : Json
  json_bool : Bool → Json
  json_number : ℕ → Json
  json_string : String → Json

pub record AuditEntry : Type 0 where
  pub action : String
  pub target_type : Option String
  pub target_id : Option ℕ
  pub metadata : List (String × Json)

pub record AdminAuditLog : Type 0 where
  pub tenant_id : ℕ
  pub actor_id : Option ℕ
  pub entry : AuditEntry

abbrev pub log_row : AuthUser → AuditEntry → AdminAuditLog
log_row actor entry = record {
  tenant_id = actor.tenant_id;
  actor_id = some actor.id;
  entry = entry;
}

module _ (P : Prisma) where
  unfoldable pub record_entry : AuthUser → AuditEntry → List AdminAuditLog → List AdminAuditLog
  record_entry actor entry logs = create_row P (log_row actor entry) logs

  pub record_entry-eq :
      (actor : AuthUser) (entry : AuditEntry) (logs : List AdminAuditLog)
      → record_entry actor entry logs ≡ log_row actor entry ∷ logs
  unfolding record_entry
  record_entry-eq actor entry logs = create_row-eq P (log_row actor entry) logs
