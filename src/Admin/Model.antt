-- ===== src/Admin/Model.antt =====
-- The accounts and what hangs on them, with the columns that the admin's service and the sign-in read
-- or write (packages/db/prisma/schema.prisma).
use expertos.Common.{ℕ, Bool, false, Option, none, some, List, String, ◌==◌}
use expertos.Database.Rows.{Role, Plan, Subscription}
use expertos.Database.Audit.{AdminAuditLog}

pub data FairUseFlagStatus : Type 0 where
  open_flag reviewed throttled cleared : FairUseFlagStatus

pub data DataDeletionStatus : Type 0 where
  requested processing completed failed : DataDeletionStatus

pub record Account : Type 0 where
  pub id : ℕ
  pub tenant_id : ℕ
  pub firebase_uid : String
  pub email : String
  pub display_name : Option String
  pub role : Role
  pub locale : String
  pub created_at : ℕ
  pub updated_at : ℕ

pub record FairUseFlag : Type 0 where
  pub id : ℕ
  pub tenant_id : ℕ
  pub user_id : ℕ
  pub reason : String
  pub status : FairUseFlagStatus
  pub created_at : ℕ

pub record DataDeletionRequest : Type 0 where
  pub id : ℕ
  pub tenant_id : ℕ
  pub user_id : ℕ
  pub status : DataDeletionStatus
  pub requested_at : ℕ
  pub completed_at : Option ℕ

pub record UploadedFile : Type 0 where
  pub id : ℕ
  pub user_id : ℕ
  pub gcs_uri : Option String

-- A row of another table whose user cascades: a conversation, a consultation, a saved answer.
pub record OwnedRow : Type 0 where
  pub table : String
  pub user_id : ℕ

pub record LinkedExpert : Type 0 where
  pub id : ℕ
  pub user_id : Option ℕ

pub record AllowedEmail : Type 0 where
  pub tenant_id : ℕ
  pub email : String

-- `objects` holds the uris that the object storage has bytes for.
pub record AdminDb : Type 0 where
  pub users : List Account
  pub plans : List Plan
  pub subscriptions : List Subscription
  pub flags : List FairUseFlag
  pub deletions : List DataDeletionRequest
  pub uploads : List UploadedFile
  pub owned : List OwnedRow
  pub experts : List LinkedExpert
  pub audit : List AdminAuditLog
  pub allowed_emails : List AllowedEmail
  pub objects : List String

pub data AdminError : Type 0 where
  bad_request not_found unique_violation unauthorized forbidden beta_access_denied : AdminError

-- `column = value` over a nullable column.
abbrev pub is_id : Option ℕ → ℕ → Bool
is_id none id = false
is_id (some p) id = p == id
