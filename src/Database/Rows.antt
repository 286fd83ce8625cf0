-- ===== src/Database/Rows.antt =====
-- packages/db/prisma/schema.prisma: the rows of the plans, the subscriptions and the ledger. A
-- uuid, a timestamp in milliseconds and a count are natural numbers.
use expertos.Common.{ℕ, Bool, true, false, Option, String}

pub data Role : Type 0 where
  user expert admin : Role

pub data UsageWindow : Type 0 where
  day week month : UsageWindow

pub data BillingInterval : Type 0 where
  month year : BillingInterval

pub data FeatureType : Type 0 where
  boolean metered : FeatureType

pub data SubscriptionStatus : Type 0 where
  active trialing past_due canceled incomplete incomplete_expired unpaid : SubscriptionStatus

pub record Plan : Type 0 where
  pub id : ℕ
  pub key : String
  pub name : String
  pub active : Bool
  pub sort_order : ℕ

pub record PlanPrice : Type 0 where
  pub plan_id : ℕ
  pub interval : BillingInterval
  pub amount_cents : ℕ
  pub currency : String
  pub provider_price_id : Option String

pub record Feature : Type 0 where
  pub id : ℕ
  pub key : String
  pub name : String
  pub type : FeatureType

pub record PlanEntitlement : Type 0 where
  pub plan_id : ℕ
  pub feature_id : ℕ
  pub enabled : Bool
  pub limit : Option ℕ
  pub soft_limit : Option ℕ
  pub window : Option UsageWindow

pub record Subscription : Type 0 where
  pub id : ℕ
  pub tenant_id : ℕ
  pub user_id : ℕ
  pub plan_id : ℕ
  pub interval : BillingInterval
  pub status : SubscriptionStatus
  pub provider_customer_id : Option String
  pub provider_sub_id : Option String
  pub current_period_end : Option ℕ
  pub cancel_at : Option ℕ
  pub canceled_at : Option ℕ
  pub created_at : ℕ

pub record UsageCounter : Type 0 where
  pub tenant_id : ℕ
  pub user_id : ℕ
  pub feature_key : String
  pub window : UsageWindow
  pub window_start : ℕ
  pub count : ℕ

-- The acting principal (apps/api/src/auth/auth.types.ts).
pub record AuthUser : Type 0 where
  pub id : ℕ
  pub tenant_id : ℕ
  pub email : String
  pub role : Role

-- `status in (active, trialing)`.
abbrev pub is_live : SubscriptionStatus → Bool
is_live SubscriptionStatus.active = true
is_live SubscriptionStatus.trialing = true
is_live _ = false

abbrev pub same_window : UsageWindow → UsageWindow → Bool
same_window UsageWindow.day UsageWindow.day = true
same_window UsageWindow.week UsageWindow.week = true
same_window UsageWindow.month UsageWindow.month = true
same_window _ _ = false

abbrev pub same_interval : BillingInterval → BillingInterval → Bool
same_interval BillingInterval.month BillingInterval.month = true
same_interval BillingInterval.year BillingInterval.year = true
same_interval _ _ = false

pub record User : Type 0 where
  pub id : ℕ
  pub tenant_id : ℕ
  pub email : String
  pub created_at : ℕ

pub data TransactionType : Type 0 where
  subscription one_off refund adjustment : TransactionType

pub data TransactionStatus : Type 0 where
  pending succeeded failed refunded : TransactionStatus

pub record Transaction : Type 0 where
  pub tenant_id : ℕ
  pub user_id : Option ℕ
  pub amount_cents : ℕ
  pub currency : String
  pub type : TransactionType
  pub status : TransactionStatus
  pub provider : String
  pub provider_ref : Option String
