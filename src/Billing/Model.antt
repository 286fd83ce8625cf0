-- ===== src/Billing/Model.antt =====
-- The data of billing: the tables, the normalized events and the provider seam (payment-provider.ts).
use expertos.Common.{ℕ, Bool, false, Option, none, some, List, String, str_eq, if◌then◌else◌}
use expertos.Database.{Result}
use expertos.Database.Rows.{
  SubscriptionStatus, BillingInterval, User, Transaction, TransactionType, TransactionStatus,
}
use expertos.Entitlement.{Db as Plans}

pub record BillingDb : Type 0 where
  pub plans : Plans
  pub users : List User
  pub transactions : List Transaction

pub record CheckoutSessionInput : Type 0 where
  pub price_id : String
  pub client_reference_id : ℕ
  pub customer_email : String
  pub customer_id : Option String
  pub success_url : String
  pub cancel_url : String

pub record PortalSessionInput : Type 0 where
  pub customer_id : String
  pub return_url : String

pub record WebhookRequest : Type 0 where
  pub payload : List ℕ
  pub signature : Option String

pub record SubscriptionChange : Type 0 where
  pub event_id : String
  pub provider_customer_id : String
  pub provider_subscription_id : String
  pub provider_price_id : Option String
  pub interval : Option BillingInterval
  pub status : SubscriptionStatus
  pub current_period_end : Option ℕ
  pub cancel_at : Option ℕ
  pub canceled_at : Option ℕ
  pub client_reference_id : Option ℕ

pub record LedgerEntry : Type 0 where
  pub event_id : String
  pub provider_ref : String
  pub provider_customer_id : Option String
  pub amount_cents : ℕ
  pub currency : String
  pub type : TransactionType
  pub status : TransactionStatus

pub data BillingEvent : Type 0 where
  subscription : SubscriptionChange → BillingEvent
  transaction : LedgerEntry → BillingEvent

pub data BillingError : Type 0 where
  bad_request : BillingError
  -- The provider or the database threw something that the service does not handle.
  unexpected : BillingError

pub data WebhookFailure : Type 0 where
  verification_error other_error : WebhookFailure

-- The seam: each payment provider is an instance.
pub record PaymentProvider : Type 1 where
  pub name : String
  pub RawEvent : Type 0
  pub create_checkout_session : CheckoutSessionInput → Result BillingError String
  pub open_customer_portal : PortalSessionInput → Result BillingError String
  pub verify_webhook : WebhookRequest → Result WebhookFailure RawEvent
  pub parse_event : RawEvent → Option BillingEvent

-- A string that is there and is not empty, as JavaScript's tests on a nullable string read it.
abbrev pub truthy : Option String → Option String
truthy none = none
truthy (some s) = if str_eq s "" then none else some s

-- `column = value` over a nullable column.
abbrev pub has_value : Option String → String → Bool
has_value none v = false
has_value (some s) v = str_eq s v
