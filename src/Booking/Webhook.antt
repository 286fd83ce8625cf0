-- ===== src/Booking/Webhook.antt =====
-- The deliveries to the booking webhook route (booking.service.ts, handleWebhook).
use expertos.Common.{
  ℕ, ◌≡◌, refl, inl, inr, Bool, true, ◌&&◌, Option, none, some, String, str_eq, if◌then◌else◌,
  Option-cases,
}
use expertos.Orm.{Prisma}
use expertos.Database.{Result, ok, err}
use expertos.Booking.Drivers.{Platform, provider_env, http_provider, offline_provider}
use expertos.Booking.Targets.{default_provider}
use expertos.Booking.{
  BookingDb, BookingError, bad_request, unverified, provider_failed, ProviderEnv, TidyCalProvider,
  apply_booking_event, truthy,
}

module _ (P : Prisma) where
  -- What follows the check of the environment. A rejected delivery is the caller's error; any other
  -- failure is thrown on.
  unfoldable pub receive_delivery :
      TidyCalProvider → String → ℕ → BookingDb → Result BookingError Unit × BookingDb
  receive_delivery provider body now db = elim (provider.receive body) [
    | err unverified ↦ (err bad_request, db)
    | err bad_request ↦ (err bad_request, db)
    | err provider_failed ↦ (err provider_failed, db)
    | ok none ↦ (ok tt, db)
    | ok (some event) ↦ (ok tt, (apply_booking_event P event provider.name none now db).1)
  ]

  -- `is_production` is `NODE_ENV === "production"`.
  unfoldable pub handle_webhook :
      Bool → ProviderEnv → String → ℕ → BookingDb → Result BookingError Unit × BookingDb
  handle_webhook is_production env body now db =
      let provider = default_provider env in
      if str_eq provider.name "offline" && is_production
      then (err bad_request, db)
      else receive_delivery provider body now db

  module _ {N : Type 0} (J : Platform N) where
    -- In production every delivery is refused and changes nothing, whatever it says and whether or
    -- not an API token is configured: the network driver takes none, and the driver that trusts its
    -- deliveries is shut.
    pub production_rejects :
        (token : Option String) (decrypt_secret : String → Option String) (body : String) (now : ℕ)
        (db : BookingDb)
        → handle_webhook true (provider_env J token decrypt_secret) body now db
          ≡ (err bad_request, db)
    unfolding handle_webhook receive_delivery default_provider provider_env http_provider
        offline_provider
    production_rejects token decrypt_secret body now db = elim (Option-cases (truthy token)) [
      | inl e ↦ rw (e, default_provider) refl
      | inr (t, e) ↦ rw (e, default_provider) refl
    ]
