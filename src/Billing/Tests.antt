-- ===== src/Billing/Tests.antt =====
-- A buyer's webhooks: each property at a concrete database and provider.
use expertos.Common.{◌≡◌, refl, true, none, some, [], ◌∷◌, arith}
use expertos.Orm.Listed.{listed}
use expertos.Database.{Result, ok, err}
use expertos.Database.Rows.{
  Plan, PlanPrice, SubscriptionStatus, BillingInterval, AuthUser, Role, Transaction,
  TransactionType, TransactionStatus,
}
use expertos.Entitlement.{resolve_plan}
use expertos.Billing.{
  BillingError, BillingDb, BillingEvent, SubscriptionChange, LedgerEntry, PaymentProvider,
  WebhookRequest, WebhookFailure, subscription, transaction, apply_event, handle_webhook,
  resolve_plan_price, resolve_tenant_id, is_entry,
}
use expertos.Billing.Ledger.{rows_for, ledger_exactly_once, ledger_redelivery}
use expertos.Billing.Redelivery.{subscription_redelivery}
use expertos.Billing.Purchase.{purchase_unlocks}
use expertos.Billing.Webhook.{callback-IsSafe}

abbrev premium : Plan
premium = record { id = 2; key = "premium"; name = "Premium"; active = true; sort_order = 1 }

abbrev free : Plan
free = record { id = 1; key = "free"; name = "Free"; active = true; sort_order = 0 }

abbrev monthly : PlanPrice
monthly = record {
  plan_id = 2;
  interval = BillingInterval.month;
  amount_cents = 2900;
  currency = "usd";
  provider_price_id = some "price_1";
}

abbrev db : BillingDb
db = record {
  plans = record {
    plans = free ∷ premium ∷ [];
    prices = monthly ∷ [];
    features = [];
    entitlements = [];
    subscriptions = [];
    counters = [];
  };
  users = record { id = 1; tenant_id = 9; email = "ann@x"; created_at = 5 } ∷ [];
  transactions = [];
}

abbrev ann : AuthUser
ann = record { id = 1; tenant_id = 9; email = "ann@x"; role = Role.user }

abbrev started : SubscriptionChange
started = record {
  event_id = "evt_1";
  provider_customer_id = "cus_1";
  provider_subscription_id = "sub_1";
  provider_price_id = some "price_1";
  interval = none;
  status = SubscriptionStatus.active;
  current_period_end = some 900;
  cancel_at = none;
  canceled_at = none;
  client_reference_id = some 1;
}

abbrev invoice : LedgerEntry
invoice = record {
  event_id = "evt_2";
  provider_ref = "evt_2";
  provider_customer_id = some "cus_1";
  amount_cents = 2900;
  currency = "usd";
  type = TransactionType.subscription;
  status = TransactionStatus.succeeded;
}

-- The row that a concurrent delivery of the invoice has committed.
abbrev winner : Transaction
winner = record {
  tenant_id = 9;
  user_id = some 1;
  amount_cents = 2900;
  currency = "usd";
  type = TransactionType.subscription;
  status = TransactionStatus.succeeded;
  provider = "offline";
  provider_ref = some "evt_2";
}

abbrev verify : WebhookRequest → Result WebhookFailure BillingEvent
verify req = elim req.signature [
  | none ↦ err WebhookFailure.verification_error
  | some s ↦ ok (subscription started)
]

abbrev provider : PaymentProvider
provider = record {
  name = "offline";
  RawEvent = BillingEvent;
  create_checkout_session = λ input. ok "offline://checkout";
  open_customer_portal = λ input. ok "offline://portal";
  verify_webhook = verify;
  parse_event = λ e. some e;
}

ledger_exactly_once_example :
    let (result, db') = apply_event listed provider (transaction invoice) 50 60 (winner ∷ []) db in
    (result ≡ ok tt) × (rows_for listed provider "evt_2" db'.transactions ≡ 1)
unfolding listed is_entry
ledger_exactly_once_example =
    ledger_exactly_once listed provider invoice 50 60 (winner ∷ []) db (omega arith)

ledger_redelivery_example :
    let db' = (apply_event listed provider (transaction invoice) 50 60 [] db).1 in
    apply_event listed provider (transaction invoice) 51 61 [] db' ≡ (ok tt, db')
ledger_redelivery_example = ledger_redelivery listed provider invoice 50 60 51 61 [] db

subscription_redelivery_example :
    let (result, db') = apply_event listed provider (subscription started) 50 60 [] db in
    (result ≡ ok tt)
    × (apply_event listed provider (subscription started) 51 61 [] db' ≡ (ok tt, db'))
subscription_redelivery_example =
    subscription_redelivery listed provider started 50 60 51 61 db (omega arith) refl

purchase_unlocks_example :
    let (result, db') = apply_event listed provider (subscription started) 50 60 [] db in
    (result ≡ ok tt) × (resolve_plan listed db'.plans ann ≡ ok premium)
unfolding listed resolve_plan_price resolve_tenant_id
purchase_unlocks_example =
    purchase_unlocks listed provider started 50 60 db ann monthly premium 9 refl refl refl refl refl
      refl tt refl

abbrev forged : WebhookRequest
forged = record { payload = 1 ∷ []; signature = none }

abbrev signed : WebhookRequest
signed = record { payload = 1 ∷ []; signature = some "s" }

forged_refused :
    let first = handle_webhook listed provider forged 50 60 [] db in
    (f : BillingError) × (first ≡ (err f, db))
    × (handle_webhook listed provider forged 51 61 [] first.1 ≡ (err f, db))
forged_refused = callback-IsSafe listed provider forged 50 60 51 61 [] db tt refl
