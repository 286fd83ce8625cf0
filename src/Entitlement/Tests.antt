-- ===== src/Entitlement/Tests.antt =====
-- A premium user with three questions a day: each property at a concrete database.
use Prim.Native.Nat.{min}
use expertos.Common.{
  ◌+◌, ◌-◌, ◌*◌, ◌/◌, ◌%◌, ◌≡◌, ◌↔◌, ◌≤◌, ◌<◌, refl, inl, inr, true, none, some, List, [], ◌∷◌, In,
  arith, keep,
}
use expertos.Orm.Listed.{listed}
use expertos.Database.{ok, err}
use expertos.Database.Rows.{
  Plan, Feature, FeatureType, PlanEntitlement, Subscription, SubscriptionStatus, BillingInterval,
  UsageCounter, UsageWindow, AuthUser, Role,
}
use expertos.Entitlement.Window.{current_window_start, current_window_start_bounds, span, day_ms}
use expertos.Entitlement.{
  Db, UpgradeOption, DeniedPayload, payment_required, Decision, allow, quota_exceeded, enforce,
  current_usage, resolve_plan, find_entitlement, feature_type, has_feature_key, upgrade_plans,
  judge, is_upgrade, grants, raises_cap, soften, enforce_tx, reserve,
}
use expertos.Entitlement.Gate.{IsGranted, enforce-IsGranted}
use expertos.Entitlement.Reserve.{IsCapped, counter_key}
use expertos.Entitlement.Quota.{enforce_other}
use expertos.Entitlement.Wall.{IsWayOut, enforce_wall}
use expertos.Entitlement.Schedule.{Turn, own, foreign, admitted, admitted_exact}
use expertos.Entitlement.Offers.{upgrade_unblocks}
use expertos.Entitlement.Resolution.{resolve_plan-latest}

abbrev premium : Plan
premium = record { id = 2; key = "premium"; name = "Premium"; active = true; sort_order = 1 }

abbrev pro : Plan
pro = record { id = 3; key = "pro"; name = "Pro"; active = true; sort_order = 2 }

abbrev questions : Feature
questions = record { id = 5; key = "ask_question"; name = "Questions"; type = FeatureType.metered }

abbrev three_a_day : PlanEntitlement
three_a_day = record {
  plan_id = 2;
  feature_id = 5;
  enabled = true;
  limit = some 3;
  soft_limit = none;
  window = some UsageWindow.day;
}

abbrev unlimited : PlanEntitlement
unlimited = record {
  plan_id = 3;
  feature_id = 5;
  enabled = true;
  limit = none;
  soft_limit = some 100;
  window = some UsageWindow.day;
}

abbrev paid : Subscription
paid = record {
  id = 11;
  tenant_id = 9;
  user_id = 1;
  plan_id = 2;
  interval = BillingInterval.month;
  status = SubscriptionStatus.active;
  provider_customer_id = none;
  provider_sub_id = none;
  current_period_end = none;
  cancel_at = none;
  canceled_at = none;
  created_at = 4;
}

abbrev one_used : UsageCounter
one_used = record {
  tenant_id = 9;
  user_id = 1;
  feature_key = "ask_question";
  window = UsageWindow.day;
  window_start = 0;
  count = 1;
}

abbrev db : Db
db = record {
  plans = premium ∷ pro ∷ [];
  prices = [];
  features = questions ∷ [];
  entitlements = three_a_day ∷ unlimited ∷ [];
  subscriptions = paid ∷ record paid { id = 12; user_id = 3; created_at = 8 } ∷ [];
  counters = one_used ∷ [];
}

abbrev all_used : Db
all_used = record db { counters = record one_used { count = 3 } ∷ [] }

abbrev ann : AuthUser
ann = record { id = 1; tenant_id = 9; email = "ann@x"; role = Role.user }

abbrev bob : AuthUser
bob = record { id = 2; tenant_id = 9; email = "bob@x"; role = Role.user }

capped : IsCapped listed ann "ask_question" premium three_a_day UsageWindow.day 3 db
unfolding listed resolve_plan find_entitlement feature_type has_feature_key
capped = record {
  resolved = refl;
  found = refl;
  enabled = refl;
  described = questions;
  typed = refl;
  metered = refl;
  windowed = refl;
  capped = refl;
}

all_used-IsCapped :
    IsCapped listed ann "ask_question" premium three_a_day UsageWindow.day 3 all_used
unfolding listed resolve_plan find_entitlement feature_type has_feature_key
all_used-IsCapped = record {
  resolved = refl;
  found = refl;
  enabled = refl;
  described = questions;
  typed = refl;
  metered = refl;
  windowed = refl;
  capped = refl;
}

abbrev turns : List Turn
turns = own 10 ∷ foreign bob "ask_question" 20 ∷ own 30 ∷ own 40 ∷ []

admitted_exact_example :
    admitted listed ann "ask_question" premium three_a_day UsageWindow.day 3 0 turns db
    ≡ min 3 (3 - current_usage listed db ann "ask_question" UsageWindow.day 10)
unfolding current_window_start listed
admitted_exact_example =
    admitted_exact listed ann "ask_question" premium three_a_day UsageWindow.day 3 0 10 turns db
      capped refl (omega arith) (refl, (refl, (refl, (refl, tt))))

enforce_run : (enforce listed ann "ask_question" 10 db).0 ≡ ok allow
unfolding enforce enforce_tx reserve judge soften listed resolve_plan find_entitlement feature_type
    has_feature_key current_window_start
enforce_run = refl

enforce-IsGranted_example : IsGranted db ann "ask_question"
enforce-IsGranted_example = enforce-IsGranted listed ann "ask_question" 10 db allow enforce_run

enforce_other_example :
    keep
      (counter_key listed ann "ask_question" UsageWindow.day 0)
      (enforce listed bob "ask_question" 20 db).1.counters
    ≡ keep (counter_key listed ann "ask_question" UsageWindow.day 0) db.counters
enforce_other_example =
    enforce_other listed bob ann "ask_question" "ask_question" UsageWindow.day 0 20 db refl

abbrev pro_option : UpgradeOption
pro_option = record { key = "pro"; name = "Pro" }

enforce_wall_example :
    (payload : DeniedPayload) × (enforce listed ann "ask_question" 50 all_used
      ≡ (err (payment_required payload), all_used))
    × (payload.reason ≡ quota_exceeded)
    × (payload.feature ≡ "ask_question")
    × (payload.current_plan ≡ "premium")
    × (payload.remaining_quota ≡ some 0)
    × (In pro_option payload.upgrade_options ↔ (
        (p : Plan) × IsWayOut all_used premium "ask_question" 3 p
        × (pro_option ≡ record { key = p.key; name = p.name })))
unfolding current_window_start
enforce_wall_example =
    enforce_wall listed ann "ask_question" premium three_a_day UsageWindow.day 3 0 3 50 all_used
      pro_option all_used-IsCapped refl (inr (record one_used { count = 3 }, refl, refl))
      (omega arith)

pro_offered : In pro (upgrade_plans listed db premium "ask_question" quota_exceeded (some 3))
unfolding listed upgrade_plans is_upgrade grants raises_cap has_feature_key
pro_offered = inl refl

upgrade_unblocks_example :
    (true ≡ true)
    × (1 < 2)
    × ((row : PlanEntitlement) × In row db.entitlements
        × (row.plan_id ≡ 3)
        × (row.enabled ≡ true)
        × (has_feature_key listed db row "ask_question" ≡ true)
        × ((d : Decision) × (judge listed db pro "ask_question" row 4 ≡ ok d)))
upgrade_unblocks_example =
    upgrade_unblocks listed db premium "ask_question" 3 4 pro (omega arith) pro_offered

resolve_plan-latest_example : resolve_plan listed db ann ≡ ok premium
resolve_plan-latest_example =
    resolve_plan-latest listed db ann paid premium (inl refl) refl refl
      (inl refl, (inr (inl refl), tt)) refl

current_window_start_bounds_example :
    (current_window_start UsageWindow.week 1000000000 ≤ 1000000000)
    × (1000000000
        < current_window_start UsageWindow.week 1000000000 + span UsageWindow.week * day_ms)
    × (current_window_start UsageWindow.week 1000000000 % day_ms ≡ 0)
    × (current_window_start UsageWindow.week 1000000000 / day_ms % 7 ≡ 4)
current_window_start_bounds_example =
    current_window_start_bounds UsageWindow.week 1000000000 (omega arith)
