-- ===== src/Entitlement/Model.antt =====
-- The data of the entitlement service: the tables it reads, its answers and its refusals
-- (packages/shared/src/entitlements.ts).
use expertos.Common.{ℕ, Bool, Option, List, String}
use expertos.Database.Rows.{
  Plan, PlanPrice, Feature, FeatureType, PlanEntitlement, Subscription, UsageCounter, UsageWindow,
}

pub record Db : Type 0 where
  pub plans : List Plan
  pub prices : List PlanPrice
  pub features : List Feature
  pub entitlements : List PlanEntitlement
  pub subscriptions : List Subscription
  pub counters : List UsageCounter

pub data Reason : Type 0 where
  feature_disabled quota_exceeded : Reason

pub record UpgradeOption : Type 0 where
  pub key : String
  pub name : String

pub record DeniedPayload : Type 0 where
  pub reason : Reason
  pub feature : String
  pub current_plan : String
  pub upgrade_options : List UpgradeOption
  pub remaining_quota : Option ℕ

pub data Error : Type 0 where
  payment_required : DeniedPayload → Error
  free_plan_missing : Error
  -- A row that a foreign key names is not there: the schema's keys exclude it.
  dangling_key : Error

pub data Decision : Type 0 where
  allow : Decision
  degraded : String → Decision

pub record EntitlementView : Type 0 where
  pub key : String
  pub name : String
  pub type : FeatureType
  pub enabled : Bool
  pub limit : Option ℕ
  pub soft_limit : Option ℕ
  pub window : Option UsageWindow
  pub used : Option ℕ
  pub remaining : Option ℕ

pub record EntitlementsDto : Type 0 where
  pub plan_key : String
  pub plan_name : String
  pub features : List EntitlementView

pub record UpgradePlanDto : Type 0 where
  pub key : String
  pub name : String
  pub prices : List PlanPrice

pub record AvailablePlansDto : Type 0 where
  pub current_plan_key : String
  pub has_active_subscription : Bool
  pub upgrades : List UpgradePlanDto
