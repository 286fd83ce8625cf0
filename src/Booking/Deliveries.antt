-- ===== src/Booking/Deliveries.antt =====
-- A small platform: what the two drivers read from rows and deliveries, and the webhook route.
use expertos.Common.{
  length, ◌+◌, ℕ, ◌==◌, ◌≡◌, refl, Bool, true, false, none, some, [], ◌∷◌, str_eq, if◌then◌else◌,
}
use expertos.Orm.Listed.{listed}
use expertos.Database.{ok, err}
use expertos.Booking.{
  BookingDb, BookingEvent, booking_created, booking_cancelled, booked, canceled, bad_request,
  apply_booking_event, apply_events, ReconcileResult,
}
use expertos.Booking.Drivers.{
  JsonValue, missing, json_null, number, text, object, Platform, http_list, polled_events,
  polled_event, polled_type, polled_id, to_booking_event, booking_fields, with_id, field, is_record,
  stringify_id, is_truthy, to_date, as_text, type_name, type_of_name, offline_receive,
  parse_offline, offline_id, envelope, provider_env, offline_provider, http_provider,
}
use expertos.Booking.Moved.{AllSame, moved_bookings_skipped}
use expertos.Booking.Targets.{default_provider, PollTarget}
use expertos.Booking.Webhook.{handle_webhook, receive_delivery, production_rejects}

-- A row without an e-mail whose `id` is a number and whose start is a number too.
abbrev row : (is_cancelled : Bool) → ℕ → JsonValue ℕ
row is_cancelled starts_at = object (λ key.
    if str_eq key "id"
    then number 7
    else if str_eq key "starts_at"
    then number starts_at
    else if str_eq key "cancelled_at"
    then (if is_cancelled then text "2026-01-01" else json_null)
    else missing)

-- The envelope of a local script.
abbrev posted : JsonValue ℕ
posted = object (λ key.
    if str_eq key "eventType"
    then text "booking.cancelled"
    else if str_eq key "bookingRef"
    then text "b7"
    else missing)

abbrev platform : Platform ℕ
platform = record {
  is_zero = λ n. n == 0;
  is_finite = λ n. true;
  render = λ n. "7";
  render_time = λ t. "t";
  date_of_text = λ s. none;
  date_of_number = some;
  parse_json = λ s. if str_eq s "" then none else some posted;
  get_bookings = λ token since. ok (row false 50 ∷ row true 50 ∷ json_null ∷ []);
}

abbrev empty_db : BookingDb
empty_db = record { users = []; experts = []; consultations = []; events = []; next_id = 0 }

abbrev polled : BookingEvent
polled = record {
  event_id = "reconcile:7:booking.created";
  event_type = booking_created;
  booking_ref = "7";
  email = none;
  scheduled_at = some 50;
  status = booked;
}

abbrev polled_cancelled : BookingEvent
polled_cancelled = record polled {
  event_id = "reconcile:7:booking.cancelled";
  event_type = booking_cancelled;
  status = canceled;
}

abbrev delivered : BookingEvent
delivered = record {
  event_id = "fallback:b7:booking.cancelled:na";
  event_type = booking_cancelled;
  booking_ref = "b7";
  email = none;
  scheduled_at = none;
  status = canceled;
}

poll_reads_rows : http_list platform "token" 0 ≡ ok (polled ∷ polled_cancelled ∷ [])
unfolding http_list polled_events polled_event polled_type polled_id to_booking_event booking_fields
    with_id field is_record stringify_id is_truthy to_date as_text type_name
poll_reads_rows = refl

no_token_no_rows : http_list platform "" 0 ≡ ok []
unfolding http_list
no_token_no_rows = refl

envelope_is_read : offline_receive platform "posted" ≡ ok (some delivered)
unfolding offline_receive parse_offline offline_id envelope with_id field to_date as_text
    type_of_name type_name
envelope_is_read = refl

malformed_is_refused :
    handle_webhook listed false (provider_env platform none (λ s. none)) "" 10 empty_db
    ≡ (err bad_request, empty_db)
unfolding handle_webhook receive_delivery default_provider provider_env offline_provider
    offline_receive
malformed_is_refused = refl

delivery_is_applied :
    handle_webhook listed false (provider_env platform none (λ s. none)) "posted" 10 empty_db
    ≡ (ok tt, (apply_booking_event listed delivered "offline" none 10 empty_db).1)
unfolding handle_webhook receive_delivery default_provider provider_env offline_provider
    offline_receive parse_offline offline_id envelope with_id field to_date as_text type_of_name
    type_name
delivery_is_applied = refl

production_rejects_example :
    handle_webhook listed true (provider_env platform none (λ s. none)) "posted" 10 empty_db
    ≡ (err bad_request, empty_db)
production_rejects_example =
    production_rejects listed platform none (λ s. none) "posted" 10 empty_db

abbrev no_counts : ReconcileResult
no_counts = record { polled = 0; applied = 0; matched = 0; skipped = 0; failed_targets = 0 }

abbrev target : PollTarget
target = record {
  expert_id = some "e1";
  provider = http_provider platform "token";
  since = 0;
  polled_at = some 60;
}

one_booking : AllSame platform (row false 50 ∷ []) (row false 90 ∷ [])
unfolding is_record field polled_type is_truthy
one_booking = ((refl, refl, refl), tt)

moved_bookings_skipped_example :
    let db' =
      (apply_events listed
        (polled_events platform (row false 50 ∷ []))
        target
        10
        no_counts
        empty_db).1 in
    let events' = polled_events platform (row false 90 ∷ []) in
    apply_events listed events' target 20 no_counts db'
    ≡ (record no_counts { skipped = 0 + length events' }, db')
moved_bookings_skipped_example =
    moved_bookings_skipped listed platform (row false 50 ∷ []) (row false 90 ∷ []) target 10 20
      no_counts no_counts empty_db one_booking
