-- ===== src/Booking/Model.antt =====
-- The data of the booking sync: the rows, the events and the provider seam of tidycal-provider.ts.
use expertos.Common.{ℕ, Bool, false, Option, none, some, List, String, str_eq, if◌then◌else◌}
use expertos.Database.{Result}
use expertos.Database.Rows.{User}

pub data ConsultationStatus : Type 0 where
  recommended booked confirmed completed canceled no_show : ConsultationStatus

pub data BookingEventType : Type 0 where
  booking_created booking_cancelled booking_rescheduled : BookingEventType

abbrev pub status_for_booking_event : BookingEventType → ConsultationStatus
status_for_booking_event booking_cancelled = canceled
status_for_booking_event _ = booked

pub record BookingEvent : Type 0 where
  pub event_id : String
  pub event_type : BookingEventType
  pub booking_ref : String
  pub email : Option String
  pub scheduled_at : Option ℕ
  pub status : ConsultationStatus

-- `consultations`.
pub record Consultation : Type 0 where
  pub id : ℕ
  pub tenant_id : ℕ
  pub user_id : ℕ
  pub expert_id : Option String
  pub status : ConsultationStatus
  pub booking_ref : Option String
  pub scheduled_at : Option ℕ
  pub created_at : ℕ

-- `booking_webhook_events`: the snapshot in `payload` is the event.
pub record BookingWebhookEvent : Type 0 where
  pub id : ℕ
  pub provider : String
  pub event_id : String
  pub event_type : BookingEventType
  pub booking_ref : String
  pub email : Option String
  pub scheduled_at : Option ℕ
  pub consultation_id : Option ℕ
  pub matched : Bool
  pub payload : BookingEvent
  pub received_at : ℕ

-- `experts`, as far as the poll reads it. A uuid that is rendered into text is a string.
pub record Expert : Type 0 where
  pub id : String
  pub tidycal_api_token_enc : Option String
  pub tidycal_polled_at : Option ℕ

-- `next_id` stands for the uuids that the database fills in.
pub record BookingDb : Type 0 where
  pub users : List User
  pub experts : List Expert
  pub consultations : List Consultation
  pub events : List BookingWebhookEvent
  pub next_id : ℕ

pub data BookingError : Type 0 where
  bad_request unverified provider_failed : BookingError

-- The seam. `receive` is `verifyWebhook` and then `parseEvent`, which only ever run together, on the
-- text of a delivery; `list_bookings` is given `since`.
pub record TidyCalProvider : Type 0 where
  pub name : String
  pub receive : String → Result BookingError (Option BookingEvent)
  pub list_bookings : ℕ → Result BookingError (List BookingEvent)

-- What the factory reads from outside: the environment, the secret store's decryption, and the
-- network client that an API token opens.
pub record ProviderEnv : Type 0 where
  pub tidycal_api_token : Option String
  pub decrypt_secret : String → Option String
  pub http_provider : String → TidyCalProvider
  pub offline_provider : TidyCalProvider

-- A string that is there and is not empty.
abbrev pub truthy : Option String → Option String
truthy none = none
truthy (some s) = if str_eq s "" then none else some s

-- `column = value` over a nullable column.
abbrev pub has_value : Option String → String → Bool
has_value none v = false
has_value (some s) v = str_eq s v
