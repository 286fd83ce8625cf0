-- ===== src/Booking.antt =====
-- apps/api/src/consultation: booking confirmation by polling (booking.service.ts), the provider seam
-- (tidycal-provider.ts) and the choice of a provider per expert (tidycal-provider.factory.ts).
mod Model
pub use Model.*
pub mod Drivers
pub mod Targets
pub mod Ledger
pub mod Correlate
pub mod Account
pub mod Returns
pub mod Webhook
pub mod Moved
mod Tests
mod Deliveries
use Prim.Native.String.{◌++◌ as str_append}
use expertos.Common.{
  ℕ, suc, ◌+◌, ◌-◌, Bool, true, false, not, ◌&&◌, ◌||◌, Option, none, some, List, [], ◌∷◌, map,
  String, str_eq, if◌then◌else◌, ◌==◌, is_some, or_else, or_option, map_option, length, take, drop,
}
use expertos.Orm.{Prisma, unordered, desc}
use expertos.Database.{Result, ok, err, ◌>>=◌}
use expertos.Database.Rows.{User}
use expertos.Booking.Targets.{PollTarget, ReconcileInput, resolve_targets}

pub data ApplyOutcome : Type 0 where
  matched unmatched duplicate : ApplyOutcome

pub record ReconcileResult : Type 0 where
  pub polled : ℕ
  pub applied : ℕ
  pub matched : ℕ
  pub skipped : ℕ
  pub failed_targets : ℕ

abbrev same_status : ConsultationStatus → Bool
same_status recommended = true
same_status _ = false

pub scope_event_to_expert : BookingEvent → Option String → BookingEvent
scope_event_to_expert event none = event
scope_event_to_expert event (some expert_id) = record event {
  event_id = str_append "expert:" (str_append expert_id (str_append ":" event.event_id));
}

module _ (P : Prisma) where
  -- The update of a booking that is linked already: attribution is filled in, never reassigned.
  pub follow_up : BookingEvent → Option String → Consultation → Consultation
  follow_up event expert_id c = record c {
    status = event.status;
    scheduled_at = or_option event.scheduled_at c.scheduled_at;
    expert_id = or_option c.expert_id expert_id;
  }

  -- The update that links a pending recommendation to its booking.
  pub claim : BookingEvent → Consultation → Consultation
  claim event c = record c {
    status = event.status;
    booking_ref = some event.booking_ref;
    scheduled_at = or_option event.scheduled_at c.scheduled_at;
  }

  pub find_user : BookingEvent → BookingDb → Option User
  find_user event db = elim (truthy event.email) [
    | none ↦ none
    | some email ↦ P.find_first (λ u. str_eq u.email email) (desc (λ u. u.created_at)) db.users
  ]

  pub is_pending : User → Option String → Consultation → Bool
  is_pending user expert_id c =
      c.user_id == user.id
      && same_status c.status
      && not (is_some c.booking_ref)
      && elim expert_id [ none ↦ true | some id ↦ has_value c.expert_id id ]

  pub correlate : BookingEvent → Option String → ℕ → BookingDb → (Option ℕ × Bool) × BookingDb
  correlate event expert_id now db =
      elim (P.find_first (λ c. has_value c.booking_ref event.booking_ref) unordered
        db.consultations) [
          | some existing ↦ (
            (some existing.id, true),
            record db {
              consultations =
                  P.update_many (λ c. c.id == existing.id) (follow_up event expert_id)
                    db.consultations;
            },
          )
          | none ↦ elim (find_user event db) [
            | none ↦ ((none, false), db)
            | some user ↦
                elim (P.find_first (is_pending user expert_id) (desc (λ c. c.created_at))
                  db.consultations) [
                    | some pending ↦ (
                      (some pending.id, true),
                      record db {
                        consultations =
                            P.update_many (λ c. c.id == pending.id) (claim event) db.consultations;
                      },
                    )
                    | none ↦
                        let created : Consultation = record {
                          id = db.next_id;
                          tenant_id = user.tenant_id;
                          user_id = user.id;
                          expert_id = expert_id;
                          status = event.status;
                          booking_ref = some event.booking_ref;
                          scheduled_at = event.scheduled_at;
                          created_at = now;
                        } in
                        (
                          (some created.id, true),
                          record db {
                            consultations = created ∷ db.consultations;
                            next_id = suc db.next_id;
                          },
                        )
                  ]
          ]
        ]

  -- The unique key `[provider, eventId]`.
  pub is_event : String → String → BookingWebhookEvent → Bool
  is_event provider event_id e = str_eq e.provider provider && str_eq e.event_id event_id

  pub ledger_row : BookingEvent → String → Option ℕ → Bool → ℕ → ℕ → BookingWebhookEvent
  ledger_row event provider consultation_id is_matched id now = record {
    id = id;
    provider = provider;
    event_id = event.event_id;
    event_type = event.event_type;
    booking_ref = event.booking_ref;
    email = event.email;
    scheduled_at = event.scheduled_at;
    consultation_id = consultation_id;
    matched = is_matched;
    payload = event;
    received_at = now;
  }

  -- The conflict on the unique key aborts the transaction: what it wrote before is rolled back.
  pub apply_booking_event :
      BookingEvent → String → Option String → ℕ → BookingDb → ApplyOutcome × BookingDb
  apply_booking_event event provider expert_id now db =
      elim (P.find_first (is_event provider event.event_id) unordered db.events) [
        | some seen ↦ (duplicate, db)
        | none ↦
            let ((consultation_id, is_matched), db') = correlate event expert_id now db in
            elim (P.create (λ a b. is_event a.provider a.event_id b)
              (ledger_row event provider consultation_id is_matched db'.next_id now) db'.events) [
                | none ↦ (duplicate, db)
                | some events ↦ (
                  if is_matched then matched else unmatched,
                  record db' { events = events; next_id = suc db'.next_id },
                )
              ]
      ]

  -- One outcome, counted.
  pub tally : ApplyOutcome → ReconcileResult → ReconcileResult
  tally duplicate r = record r { skipped = r.skipped + 1 }
  tally matched r = record r { applied = r.applied + 1; matched = r.matched + 1 }
  tally unmatched r = record r { applied = r.applied + 1 }

  -- The events of one poll, each in a transaction of its own.
  pub apply_events :
      List BookingEvent → PollTarget → ℕ → ReconcileResult → BookingDb → ReconcileResult × BookingDb
  apply_events [] target now r db = (r, db)
  apply_events (event ∷ events) target now r db =
      let scoped = scope_event_to_expert event target.expert_id in
      let (outcome, db') =
        apply_booking_event scoped target.provider.name target.expert_id now db in
      apply_events events target now (tally outcome r) db'

  pub advance_watermark : PollTarget → BookingDb → BookingDb
  advance_watermark target db = elim target.expert_id [
    | none ↦ db
    | some id ↦ elim target.polled_at [
      | none ↦ db
      | some polled_at ↦ record db {
        experts =
            P.update_many (λ e. str_eq e.id id)
              (λ e. record e { tidycal_polled_at = some polled_at }) db.experts;
      }
    ]
  ]

  -- A poll that throws ends the run; what was applied before it stays.
  pub poll_all :
      List PollTarget
      → ℕ
      → ReconcileResult
      → BookingDb
      → Result BookingError ReconcileResult × BookingDb
  poll_all [] now r db = (ok r, db)
  poll_all (target ∷ targets) now r db = elim (target.provider.list_bookings target.since) [
    | err e ↦ (err e, db)
    | ok events ↦
        let counted = record r { polled = r.polled + length events } in
        let (r', db') = apply_events events target now counted db in
        poll_all targets now r' (advance_watermark target db')
  ]

  pub reconcile :
      ProviderEnv → ReconcileInput → ℕ → BookingDb → Result BookingError ReconcileResult × BookingDb
  reconcile env input now db =
      let (targets, failed_targets) = resolve_targets P env input now db in
      poll_all targets now
        (record {
          polled = 0;
          applied = 0;
          matched = 0;
          skipped = 0;
          failed_targets = failed_targets;
        })
        db

  -- `listUnmatched`: the recovery feed.
  pub list_unmatched : ℕ → ℕ → BookingDb → List BookingWebhookEvent
  list_unmatched limit offset db =
      take limit
        (drop offset (P.find_many (λ e. not e.matched) (desc (λ e. e.received_at)) db.events))
