-- ===== src/Admin/Dto.antt =====
-- What the admin sees of an account (apps/api/src/admin/admin-user.service.ts, the mappers).
use expertos.Common.{ℕ, ◌&&◌, Option, none, some, List, String, str_eq, map, map_option, ◌==◌}
use expertos.Orm.{Prisma, unordered, desc}
use expertos.Database.Rows.{Role, Plan, Subscription, SubscriptionStatus, BillingInterval}
use expertos.Admin.{
  Account, FairUseFlag, FairUseFlagStatus, DataDeletionRequest, DataDeletionStatus, AdminDb,
}

pub record AdminUserSummaryDto : Type 0 where
  pub id : ℕ
  pub email : String
  pub display_name : Option String
  pub role : Role
  pub plan_key : Option String
  pub subscription_status : Option SubscriptionStatus
  pub created_at : ℕ

pub record AdminFairUseFlagDto : Type 0 where
  pub id : ℕ
  pub reason : String
  pub status : FairUseFlagStatus
  pub created_at : ℕ

pub record DataDeletionRequestDto : Type 0 where
  pub id : ℕ
  pub user_id : ℕ
  pub status : DataDeletionStatus
  pub requested_at : ℕ
  pub completed_at : Option ℕ

pub record AdminSubscriptionDto : Type 0 where
  pub id : ℕ
  pub plan_key : String
  pub plan_name : String
  pub interval : BillingInterval
  pub status : SubscriptionStatus
  pub current_period_end : Option ℕ
  pub cancel_at : Option ℕ

pub record UserActivity : Type 0 where
  pub conversation_count : ℕ
  pub upload_count : ℕ
  pub consultation_count : ℕ

pub record AdminUserDetailDto : Type 0 where
  pub id : ℕ
  pub email : String
  pub display_name : Option String
  pub role : Role
  pub locale : String
  pub created_at : ℕ
  pub updated_at : ℕ
  pub subscription : Option AdminSubscriptionDto
  pub activity : UserActivity
  pub fair_use_flags : List AdminFairUseFlagDto
  pub deletion : Option DataDeletionRequestDto

abbrev pub to_flag : FairUseFlag → AdminFairUseFlagDto
to_flag row = record {
  id = row.id;
  reason = row.reason;
  status = row.status;
  created_at = row.created_at;
}

abbrev pub to_deletion : DataDeletionRequest → DataDeletionRequestDto
to_deletion row = record {
  id = row.id;
  user_id = row.user_id;
  status = row.status;
  requested_at = row.requested_at;
  completed_at = row.completed_at;
}

abbrev pub to_subscription : Subscription → Plan → AdminSubscriptionDto
to_subscription sub plan = record {
  id = sub.id;
  plan_key = plan.key;
  plan_name = plan.name;
  interval = sub.interval;
  status = sub.status;
  current_period_end = sub.current_period_end;
  cancel_at = sub.cancel_at;
}

module _ (P : Prisma) where
  -- The latest subscription with its plan.
  unfoldable pub latest_subscription : ℕ → AdminDb → Option (Subscription × Plan)
  latest_subscription user_id db =
      elim (P.find_first (λ s. s.user_id == user_id) (desc (λ s. s.created_at)) db.subscriptions) [
        | none ↦ none
        | some sub ↦
            map_option (λ plan. (sub, plan))
              (P.find_first (λ p. p.id == sub.plan_id) unordered db.plans)
      ]

  unfoldable pub to_summary : Account → AdminDb → AdminUserSummaryDto
  to_summary row db =
      let sub = latest_subscription row.id db in
      record {
        id = row.id;
        email = row.email;
        display_name = row.display_name;
        role = row.role;
        plan_key = map_option (λ s. s.1.key) sub;
        subscription_status = map_option (λ s. s.0.status) sub;
        created_at = row.created_at;
      }

  unfoldable pub count_owned : String → ℕ → AdminDb → ℕ
  count_owned table user_id db =
      P.count (λ r. str_eq r.table table && r.user_id == user_id) db.owned

  unfoldable pub to_detail : Account → AdminDb → AdminUserDetailDto
  to_detail row db = record {
    id = row.id;
    email = row.email;
    display_name = row.display_name;
    role = row.role;
    locale = row.locale;
    created_at = row.created_at;
    updated_at = row.updated_at;
    subscription = map_option (λ s. to_subscription s.0 s.1) (latest_subscription row.id db);
    activity = record {
      conversation_count = count_owned "conversations" row.id db;
      upload_count = P.count (λ u. u.user_id == row.id) db.uploads;
      consultation_count = count_owned "consultations" row.id db;
    };
    fair_use_flags =
        map to_flag (P.find_many (λ f. f.user_id == row.id) (desc (λ f. f.created_at)) db.flags);
    deletion =
        map_option to_deletion
          (P.find_first (λ d. d.user_id == row.id) (desc (λ d. d.requested_at)) db.deletions);
  }
