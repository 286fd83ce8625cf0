-- ===== src/Billing/Webhook.antt =====
-- The provider's callback is attacker-reachable, and it is delivered at least once (billing.service.ts,
-- handleWebhook).
use expertos.Common.{
  ℕ, ◌≡◌, ◌≤◌, refl, ◌∙◌, false, inl, inr, Option, none, some, List, [], Option-cases, any, length,
  ◌==◌,
}
use expertos.Orm.{Prisma}
use expertos.Database.{Result, ok, err}
use expertos.Database.Rows.{Transaction}
use expertos.Billing.{
  PaymentProvider, WebhookRequest, WebhookFailure, verification_error, other_error, BillingEvent,
  subscription, transaction, BillingDb, BillingError, bad_request, unexpected, apply_event,
  handle_webhook,
}
use expertos.Billing.Ledger.{ledger_redelivery}
use expertos.Billing.Redelivery.{subscription_redelivery}
use expertos.Billing.Mirror.{mirrored}

module _ (P : Prisma) (provider : PaymentProvider) where
  -- The rows of the provider's subscription that an event is about are at most one.
  abbrev pub IsUnique : BillingDb → Option BillingEvent → Type 0
  IsUnique db (some (subscription event)) = length (mirrored P provider event db) ≤ 1
  IsUnique db _ = Unit

  -- The event that a verification's answer carries.
  abbrev pub carried : Result WebhookFailure provider.RawEvent → Option BillingEvent
  carried (ok raw) = provider.parse_event raw
  carried (err e) = none

  -- What two deliveries of one callback come to, by the verification's answer.
  abbrev pub IsSafe :
      Result WebhookFailure provider.RawEvent
      → BillingDb
      → Result BillingError Unit × BillingDb
      → Result BillingError Unit × BillingDb
      → Type 0
  IsSafe (err e) db first second =
      ((f : BillingError) × (first ≡ (err f, db)) × (second ≡ (err f, db)))
  IsSafe (ok raw) db first second = second ≡ (ok tt, first.1)

  ignored :
      (req : WebhookRequest) (raw : provider.RawEvent) (id now : ℕ) (meanwhile : List Transaction)
      (db : BillingDb)
      → provider.verify_webhook req ≡ ok raw
      → provider.parse_event raw ≡ none
      → handle_webhook P provider req id now meanwhile db ≡ (ok tt, db)
  unfolding handle_webhook
  ignored req raw id now meanwhile db e k = rw (handle_webhook, e, k) refl

  applied :
      (req : WebhookRequest) (raw : provider.RawEvent) (event : BillingEvent) (id now : ℕ)
      (meanwhile : List Transaction) (db : BillingDb)
      → provider.verify_webhook req ≡ ok raw
      → provider.parse_event raw ≡ some event
      → handle_webhook P provider req id now meanwhile db
        ≡ apply_event P provider event id now meanwhile db
  unfolding handle_webhook
  applied req raw event id now meanwhile db e k = rw (handle_webhook, e, k) refl

  refused :
      (req : WebhookRequest) (failure : WebhookFailure)
      → provider.verify_webhook req ≡ err failure
      → (f : BillingError) × ((id now : ℕ) (meanwhile : List Transaction) (db : BillingDb)
          → handle_webhook P provider req id now meanwhile db ≡ (err f, db))
  unfolding handle_webhook
  refused req verification_error e =
      (bad_request, λ id now meanwhile db. rw (handle_webhook, e) refl)
  refused req other_error e = (unexpected, λ id now meanwhile db. rw (handle_webhook, e) refl)

  module _ (req : WebhookRequest) (id now id' now' : ℕ) (meanwhile : List Transaction)
      (db : BillingDb) where
    event_safe :
        (event : BillingEvent)
        → IsUnique db (some event)
        → any (λ s. s.id == id) db.plans.subscriptions ≡ false
        → apply_event P provider event id' now' []
            (apply_event P provider event id now meanwhile db).1
          ≡ (ok tt, (apply_event P provider event id now meanwhile db).1)
    unfolding apply_event
    event_safe (subscription event) unique fresh =
        (subscription_redelivery P provider event id now id' now' db unique fresh).1
    event_safe (transaction event) unique fresh =
        ledger_redelivery P provider event id now id' now' meanwhile db

    pub callback-IsSafe :
        IsUnique db (carried (provider.verify_webhook req))
        → any (λ s. s.id == id) db.plans.subscriptions ≡ false
        → let first = handle_webhook P provider req id now meanwhile db in
          IsSafe
            (provider.verify_webhook req)
            db
            first
            (handle_webhook P provider req id' now' [] first.1)
    callback-IsSafe unique fresh = go (provider.verify_webhook req) refl unique
      where
        go :
            (v : Result WebhookFailure provider.RawEvent)
            → provider.verify_webhook req ≡ v
            → IsUnique db (carried v)
            → let first = handle_webhook P provider req id now meanwhile db in
              IsSafe v db first (handle_webhook P provider req id' now' [] first.1)
        go (err failure) e u =
            let (f, same) = refused req failure e in
            (f, same id now meanwhile db, rw (same id now meanwhile db) (same id' now' [] db))
        go (ok raw) e u = elim (Option-cases (provider.parse_event raw)) [
          | inl k ↦
              rw (ignored req raw id now meanwhile db e k) (ignored req raw id' now' [] db e k)
          | inr (event, k) ↦ rw (applied req raw event id now meanwhile db e k) (
              applied req raw event id' now' [] (apply_event P provider event id now meanwhile db).1
                e k
              ∙ event_safe event (rw k at u) fresh)
        ]
