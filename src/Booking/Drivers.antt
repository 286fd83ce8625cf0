-- ===== src/Booking/Drivers.antt =====
-- The two calendar drivers (http-tidycal-provider.ts and offline-tidycal-provider.ts): what they make
-- of the JSON that a poll or a delivery brings.
use Prim.Native.String.{◌++◌ as str_append}
use expertos.Common.{
  ℕ, Bool, true, false, Option, none, some, List, [], ◌∷◌, String, str_eq, if◌then◌else◌, not,
  or_option, map_option, or_else,
}
use expertos.Database.{Result, ok, err}
use expertos.Booking.Model.{
  BookingEvent, BookingEventType, booking_created, booking_cancelled, booking_rescheduled,
  ConsultationStatus, status_for_booking_event, BookingError, unverified, TidyCalProvider,
  ProviderEnv, truthy,
}

-- A parsed JSON value over the platform's numbers. An object answers `missing` for a field that it
-- does not have; an array is an object, as `typeof` has it. `other` is a Boolean.
pub data JsonValue (N : Type 0) : Type 0 where
  missing json_null : JsonValue N
  other : Bool → JsonValue N
  number : N → JsonValue N
  text : String → JsonValue N
  object : (String → JsonValue N) → JsonValue N

-- What the drivers take from the platform: its numbers, `new Date`, `JSON.parse` and the transport
-- behind an API token, which answers with no rows where `data` is not an array.
pub record Platform (N : Type 0) : Type 0 where
  pub is_zero : N → Bool
  pub is_finite : N → Bool
  pub render : N → String
  pub render_time : ℕ → String
  pub date_of_text : String → Option ℕ
  pub date_of_number : N → Option ℕ
  pub parse_json : String → Option (JsonValue N)
  pub get_bookings : String → ℕ → Result BookingError (List (JsonValue N))

-- A booking event without its id.
pub record UnnamedEvent : Type 0 where
  pub event_type : BookingEventType
  pub booking_ref : String
  pub email : Option String
  pub scheduled_at : Option ℕ
  pub status : ConsultationStatus

unfoldable pub with_id : UnnamedEvent → String → BookingEvent
with_id b event_id = record {
  event_id = event_id;
  event_type = b.event_type;
  booking_ref = b.booking_ref;
  email = b.email;
  scheduled_at = b.scheduled_at;
  status = b.status;
}

unfoldable pub type_name : BookingEventType → String
type_name booking_created = "booking.created"
type_name booking_cancelled = "booking.cancelled"
type_name booking_rescheduled = "booking.rescheduled"

unfoldable pub type_of_name : String → Option BookingEventType
type_of_name s =
    if str_eq s "booking.created"
    then some booking_created
    else if str_eq s "booking.cancelled"
    then some booking_cancelled
    else if str_eq s "booking.rescheduled"
    then some booking_rescheduled
    else none

module _ {N : Type 0} where
  -- `value.key`, for a value that is a record.
  unfoldable pub field : String → JsonValue N → JsonValue N
  field key (object f) = f key
  field key _ = missing

  unfoldable pub is_record : JsonValue N → Bool
  is_record (object f) = true
  is_record _ = false

  unfoldable pub as_text : JsonValue N → Option String
  as_text (text s) = some s
  as_text _ = none

module _ {N : Type 0} (J : Platform N) where
  -- `toDate`.
  unfoldable pub to_date : JsonValue N → Option ℕ
  to_date (text s) = J.date_of_text s
  to_date (number n) = J.date_of_number n
  to_date _ = none

  -- `stringifyId`.
  unfoldable pub stringify_id : JsonValue N → Option String
  stringify_id (text s) = truthy (some s)
  stringify_id (number n) = if J.is_finite n then some (J.render n) else none
  stringify_id _ = none

  unfoldable pub is_truthy : JsonValue N → Bool
  is_truthy missing = false
  is_truthy json_null = false
  is_truthy (other b) = b
  is_truthy (number n) = not (J.is_zero n)
  is_truthy (text s) = not (str_eq s "")
  is_truthy (object f) = true

  unfoldable pub booking_fields : JsonValue N → BookingEventType → String → UnnamedEvent
  booking_fields row event_type booking_ref = record {
    event_type = event_type;
    booking_ref = booking_ref;
    email = or_option (as_text (field "email" (field "contact" row))) (as_text (field "email" row));
    scheduled_at = to_date (field "starts_at" row);
    status = status_for_booking_event event_type;
  }

  unfoldable pub to_booking_event : JsonValue N → BookingEventType → Option UnnamedEvent
  to_booking_event row event_type =
      map_option (booking_fields row event_type) (stringify_id (field "id" row))

  -- The kind of event that a polled row is reported as.
  unfoldable pub polled_type : JsonValue N → BookingEventType
  polled_type row =
      if is_truthy (field "cancelled_at" row) then booking_cancelled else booking_created

  unfoldable pub polled_id : UnnamedEvent → String
  polled_id b =
      str_append "reconcile:" (str_append b.booking_ref (str_append ":" (type_name b.event_type)))

  -- One row of a poll.
  unfoldable pub polled_event : JsonValue N → Option BookingEvent
  polled_event row =
      if is_record row
      then map_option (λ b. with_id b (polled_id b)) (to_booking_event row (polled_type row))
      else none

  unfoldable pub polled_events : List (JsonValue N) → List BookingEvent
  polled_events [] = []
  polled_events (row ∷ rows) =
      let rest = polled_events rows in
      elim (polled_event row) [ none ↦ rest | some event ↦ event ∷ rest ]

  unfoldable pub http_list : String → ℕ → Result BookingError (List BookingEvent)
  http_list api_token since =
      if str_eq api_token "" then ok [] else elim (J.get_bookings api_token since) [
        | err e ↦ err e
        | ok rows ↦ ok (polled_events rows)
      ]

  -- `HttpTidyCalProvider`: it takes no deliveries.
  unfoldable pub http_provider : String → TidyCalProvider
  http_provider api_token = record {
    name = "tidycal";
    receive = λ body. err unverified;
    list_bookings = http_list api_token;
  }

  -- `parseOfflineBookingEvent`.
  unfoldable pub offline_id : JsonValue N → UnnamedEvent → String
  offline_id raw b =
      or_else (elim (as_text (field "eventId" raw)) [ none ↦ none | some s ↦ truthy (some s) ])
        (str_append "fallback:" (
          str_append b.booking_ref (
            str_append ":" (
              str_append (type_name b.event_type)
                (str_append ":" (or_else (map_option J.render_time b.scheduled_at) "na"))))))

  unfoldable pub envelope : JsonValue N → BookingEventType → String → UnnamedEvent
  envelope raw event_type booking_ref = record {
    event_type = event_type;
    booking_ref = booking_ref;
    email = as_text (field "email" raw);
    scheduled_at = to_date (field "scheduledAt" raw);
    status = status_for_booking_event event_type;
  }

  unfoldable pub parse_offline : JsonValue N → Option BookingEvent
  parse_offline raw = elim (as_text (field "eventType" raw)) [
    | none ↦ none
    | some name ↦ elim (type_of_name name) [
      | none ↦ none
      | some event_type ↦ elim (as_text (field "bookingRef" raw)) [
        | none ↦ none
        | some s ↦
            map_option
              (λ booking_ref.
                let b = envelope raw event_type booking_ref in with_id b (offline_id raw b))
              (truthy (some s))
      ]
    ]
  ]

  -- `OfflineTidyCalProvider`: it trusts its deliveries, and lists nothing.
  unfoldable pub offline_receive : String → Result BookingError (Option BookingEvent)
  offline_receive body = elim (J.parse_json body) [
    | none ↦ err unverified
    | some raw ↦ ok (parse_offline raw)
  ]

  unfoldable pub offline_provider : TidyCalProvider
  offline_provider = record {
    name = "offline";
    receive = offline_receive;
    list_bookings = λ since. ok [];
  }

  -- What the factory builds its providers from.
  unfoldable pub provider_env : Option String → (String → Option String) → ProviderEnv
  provider_env tidycal_api_token decrypt_secret = record {
    tidycal_api_token = tidycal_api_token;
    decrypt_secret = decrypt_secret;
    http_provider = http_provider;
    offline_provider = offline_provider;
  }
