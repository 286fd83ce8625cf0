-- ===== src/Billing.antt =====
-- apps/api/src/billing: the payment-provider seam (payment-provider.ts) and the service that mirrors
-- its events into subscriptions and the revenue ledger (billing.service.ts).
mod Model
pub use Model.*
pub mod Ledger
pub mod Mirror
pub mod Redelivery
pub mod Purchase
pub mod Webhook
mod Tests
use expertos.Common.{
  ℕ, Bool, true, false, not, ◌&&◌, ◌||◌, Option, none, some, List, [], ◌∷◌, ◌++◌, String, str_eq,
  if◌then◌else◌, ◌==◌, is_some, or_else, or_option, map_option,
}
use Prim.Native.String.{◌++◌ as str_append}
use expertos.Orm.{Prisma, unordered, desc}
use expertos.Database.{Result, ok, err, ◌>>=◌, run}
use expertos.Database.Rows.{
  Plan, PlanPrice, Subscription, SubscriptionStatus, BillingInterval, AuthUser, User, Transaction,
  same_interval, TransactionType, TransactionStatus,
}
use expertos.Entitlement.{Db as Plans}

abbrev pub global_tenant_id : ℕ
global_tenant_id = 0

module _ (P : Prisma) (provider : PaymentProvider) where
  pub create_checkout :
      String → AuthUser → String → BillingInterval → BillingDb → Result BillingError String
  create_checkout web_app_url user plan_key interval db =
      let price =
        P.find_first
          (λ p.
            same_interval p.interval interval
            && is_some (
                P.find_first (λ q. q.id == p.plan_id && str_eq q.key plan_key && q.active) unordered
                  db.plans.plans))
          unordered db.plans.prices in
      let existing =
        P.find_first (λ s. s.user_id == user.id && is_some s.provider_customer_id)
          (desc (λ s. s.created_at)) db.plans.subscriptions in
      elim price [
        | none ↦ err bad_request
        | some p ↦ elim (truthy p.provider_price_id) [
          | none ↦ err bad_request
          | some price_id ↦ provider.create_checkout_session (record {
            price_id = price_id;
            client_reference_id = user.id;
            customer_email = user.email;
            customer_id = elim existing [ none ↦ none | some s ↦ s.provider_customer_id ];
            success_url = str_append web_app_url "/billing/success";
            cancel_url = str_append web_app_url "/billing/cancel";
          })
        ]
      ]

  pub create_portal : String → AuthUser → BillingDb → Result BillingError String
  create_portal web_app_url user db =
      let sub =
        P.find_first (λ s. s.user_id == user.id && is_some s.provider_customer_id)
          (desc (λ s. s.created_at)) db.plans.subscriptions in
      elim sub [
        | none ↦ err bad_request
        | some s ↦ elim (truthy s.provider_customer_id) [
          | none ↦ err bad_request
          | some customer_id ↦
              provider.open_customer_portal (record {
                customer_id = customer_id;
                return_url = str_append web_app_url "/account";
              })
        ]
      ]

  pub resolve_plan_price : BillingDb → Option String → Option PlanPrice
  resolve_plan_price db provider_price_id = elim (truthy provider_price_id) [
    | none ↦ none
    | some id ↦ P.find_first (λ p. has_value p.provider_price_id id) unordered db.plans.prices
  ]

  pub resolve_tenant_id : BillingDb → ℕ → Option ℕ
  resolve_tenant_id db user_id =
      map_option (λ u. u.tenant_id) (P.find_first (λ u. u.id == user_id) unordered db.users)

  -- The `data` of the update: a missing plan or interval leaves the column alone.
  pub mirror : SubscriptionChange → Option PlanPrice → Subscription → Subscription
  mirror event resolved s =
      let interval = or_option event.interval (map_option (λ p. p.interval) resolved) in
      record s {
        status = event.status;
        provider_customer_id = some event.provider_customer_id;
        current_period_end = event.current_period_end;
        cancel_at = event.cancel_at;
        canceled_at = event.canceled_at;
        plan_id = or_else (map_option (λ p. p.plan_id) resolved) s.plan_id;
        interval = or_else interval s.interval;
      }

  pub new_subscription : SubscriptionChange → PlanPrice → ℕ → ℕ → ℕ → ℕ → Subscription
  new_subscription event resolved tenant_id user_id id now = record {
    id = id;
    tenant_id = tenant_id;
    user_id = user_id;
    plan_id = resolved.plan_id;
    interval = or_else event.interval resolved.interval;
    status = event.status;
    provider_customer_id = some event.provider_customer_id;
    provider_sub_id = some event.provider_subscription_id;
    current_period_end = event.current_period_end;
    cancel_at = event.cancel_at;
    canceled_at = event.canceled_at;
    created_at = now;
  }

  -- Unique columns of `subscriptions`: the id and the provider's id.
  pub same_subscription : Subscription → Subscription → Bool
  same_subscription a b =
      a.id == b.id
      || elim a.provider_sub_id [ none ↦ false | some s ↦ has_value b.provider_sub_id s ]

  abbrev pub with_subscriptions : BillingDb → List Subscription → BillingDb
  with_subscriptions db subscriptions = record db {
    plans = record db.plans { subscriptions = subscriptions };
  }

  -- `id` and `now` are the defaults that the database fills in. A skipped event leaves it as it is.
  pub apply_subscription_change :
      SubscriptionChange → ℕ → ℕ → BillingDb → Result BillingError (Unit × BillingDb)
  apply_subscription_change event id now db =
      let existing =
        P.find_first (λ s. has_value s.provider_sub_id event.provider_subscription_id) unordered
          db.plans.subscriptions in
      let resolved = resolve_plan_price db event.provider_price_id in
      elim (or_option event.client_reference_id (map_option (λ s. s.user_id) existing)) [
        | none ↦ ok (tt, db)
        | some user_id ↦ elim existing [
          | some found ↦ ok (
            tt,
            with_subscriptions db (
                P.update_many (λ s. s.id == found.id) (mirror event resolved)
                  db.plans.subscriptions),
          )
          | none ↦ elim resolved [
            | none ↦ ok (tt, db)
            | some price ↦ elim (resolve_tenant_id db user_id) [
              | none ↦ ok (tt, db)
              | some tenant_id ↦
                  elim (P.create same_subscription
                    (new_subscription event price tenant_id user_id id now)
                    db.plans.subscriptions) [
                      | none ↦ err unexpected
                      | some subscriptions ↦ ok (tt, with_subscriptions db subscriptions)
                    ]
            ]
          ]
        ]
      ]

  pub is_entry : String → Transaction → Bool
  is_entry ref t = str_eq t.provider provider.name && has_value t.provider_ref ref

  -- The unique key `[provider, providerRef]`: null differs from every value.
  pub same_transaction : Transaction → Transaction → Bool
  same_transaction a b = elim a.provider_ref [
    | none ↦ false
    | some ref ↦ str_eq b.provider a.provider && has_value b.provider_ref ref
  ]

  -- The row of an event: the customer's latest subscription says whose it is.
  pub ledger_row : LedgerEntry → BillingDb → Transaction
  ledger_row event db =
      let customer : Option Subscription = elim (truthy event.provider_customer_id) [
        | none ↦ none
        | some id ↦
            P.find_first (λ s. has_value s.provider_customer_id id) (desc (λ s. s.created_at))
              db.plans.subscriptions
      ] in
      record {
        tenant_id = or_else (map_option (λ s. s.tenant_id) customer) global_tenant_id;
        user_id = map_option (λ s. s.user_id) customer;
        amount_cents = event.amount_cents;
        currency = event.currency;
        type = event.type;
        status = event.status;
        provider = provider.name;
        provider_ref = some event.provider_ref;
      }

  -- `meanwhile` is what concurrent transactions commit between the check and the insert.
  pub append_ledger_entry :
      LedgerEntry → List Transaction → BillingDb → Result BillingError (Unit × BillingDb)
  append_ledger_entry event meanwhile db =
      let entry = ledger_row event db in
      elim (P.find_first (is_entry event.provider_ref) unordered db.transactions) [
        | some dup ↦ ok (tt, record db { transactions = meanwhile ++ db.transactions })
        | none ↦ elim (P.create same_transaction entry (meanwhile ++ db.transactions)) [
          | none ↦ ok (tt, record db { transactions = meanwhile ++ db.transactions })
          | some transactions ↦ ok (tt, record db { transactions = transactions })
        ]
      ]

  pub apply_event :
      BillingEvent → ℕ → ℕ → List Transaction → BillingDb → Result BillingError Unit × BillingDb
  apply_event (subscription event) id now meanwhile db =
      run (apply_subscription_change event id now) db
  apply_event (transaction event) id now meanwhile db = run (append_ledger_entry event meanwhile) db

  pub handle_webhook :
      WebhookRequest → ℕ → ℕ → List Transaction → BillingDb → Result BillingError Unit × BillingDb
  handle_webhook req id now meanwhile db = elim (provider.verify_webhook req) [
    | err verification_error ↦ (err bad_request, db)
    | err other_error ↦ (err unexpected, db)
    | ok raw ↦ elim (provider.parse_event raw) [
      | none ↦ (ok tt, db)
      | some event ↦ apply_event event id now meanwhile db
    ]
  ]
