-- ===== src/Booking/Moved.antt =====
-- What a second poll makes of bookings that were moved meanwhile (http-tidycal-provider.ts over
-- booking.service.ts).
use expertos.Common.{
  ℕ, ◌+◌, ◌≡◌, refl, ◌⊎◌, inl, inr, Option, none, some, List, [], ◌∷◌, String, length, Option-cases,
  Bool-cases,
}
use expertos.Orm.{Prisma}
use expertos.Booking.Drivers.{
  Platform, JsonValue, field, is_record, polled_type, polled_event, polled_events, polled_id,
  stringify_id, booking_fields, to_booking_event, with_id,
}
use expertos.Booking.Targets.{PollTarget}
use expertos.Booking.Ledger.{AllRecorded, apply_events-recorded, apply_events-settled}
use expertos.Booking.{BookingDb, BookingEvent, ReconcileResult, apply_events, scope_event_to_expert}

abbrev SameIds : List BookingEvent → List BookingEvent → Type 0
SameIds [] [] = Unit
SameIds (e ∷ es) (e' ∷ es') = (e'.event_id ≡ e.event_id) × SameIds es es'
SameIds _ _ = ⊥

module _ {N : Type 0} (J : Platform N) where
  -- Two rows of one booking, neither or both cancelled: the start may differ.
  abbrev pub SameBooking : JsonValue N → JsonValue N → Type 0
  SameBooking row row' =
      (is_record row' ≡ is_record row)
      × (field "id" row' ≡ field "id" row)
      × (polled_type J row' ≡ polled_type J row)

  abbrev pub AllSame : List (JsonValue N) → List (JsonValue N) → Type 0
  AllSame [] [] = Unit
  AllSame (row ∷ rows) (row' ∷ rows') = SameBooking row row' × AllSame rows rows'
  AllSame _ _ = ⊥

  polled_event-cases :
      (row row' : JsonValue N)
      → SameBooking row row'
      → ((polled_event J row ≡ none) × (polled_event J row' ≡ none))
        ⊎ ((e : BookingEvent) × (e' : BookingEvent) × (polled_event J row ≡ some e)
            × (polled_event J row' ≡ some e')
            × (e'.event_id ≡ e.event_id))
  unfolding polled_event to_booking_event booking_fields with_id polled_id
  polled_event-cases row row' (r, i, t) = elim (Bool-cases (is_record row)) [
    | inr f ↦ inl (rw (polled_event, f), rw (polled_event, r, f))
    | inl k ↦ elim (Option-cases (stringify_id J (field "id" row))) [
      | inl n ↦ inl (
        rw (polled_event, k, to_booking_event, n),
        rw (polled_event, r, k, to_booking_event, i, n),
      )
      | inr (s, n) ↦
          let b = booking_fields J row (polled_type J row) s in
          let b' = booking_fields J row' (polled_type J row') s in
          inr (
            with_id b (polled_id J b),
            with_id b' (polled_id J b'),
            rw (polled_event, k, to_booking_event, n) refl,
            rw (polled_event, r, k, to_booking_event, i, n) refl,
            rw t refl,
          )
    ]
  ]

  polled_events-SameIds :
      (rows rows' : List (JsonValue N))
      → AllSame rows rows'
      → SameIds (polled_events J rows) (polled_events J rows')
  unfolding polled_events
  polled_events-SameIds [] [] h = tt
  polled_events-SameIds [] (row' ∷ rows') h = elim h [ ]
  polled_events-SameIds (row ∷ rows) [] h = elim h [ ]
  polled_events-SameIds (row ∷ rows) (row' ∷ rows') (h, hs) =
      let rest = polled_events-SameIds rows rows' hs in
      elim (polled_event-cases row row' h) [
        | inl (a, b) ↦ rw (polled_events, a, b) rest
        | inr (e, e', a, b, same) ↦ rw (polled_events, a, b) (same, rest)
      ]

scope-event_id :
    (e e' : BookingEvent) (expert_id : Option String)
    → e'.event_id ≡ e.event_id
    → (scope_event_to_expert e' expert_id).event_id ≡ (scope_event_to_expert e expert_id).event_id
unfolding scope_event_to_expert
scope-event_id e e' none h = h
scope-event_id e e' (some id) h = rw h refl

module _ (P : Prisma) where
  AllRecorded-SameIds :
      (es es' : List BookingEvent) (target : PollTarget) (db : BookingDb)
      → SameIds es es'
      → AllRecorded P target es db
      → AllRecorded P target es' db
  AllRecorded-SameIds [] [] target db h r = tt
  AllRecorded-SameIds [] (e' ∷ es') target db h r = elim h [ ]
  AllRecorded-SameIds (e ∷ es) [] target db h r = elim h [ ]
  AllRecorded-SameIds (e ∷ es) (e' ∷ es') target db (h, hs) (r, rs) =
      (rw (scope-event_id e e' target.expert_id h) r, AllRecorded-SameIds es es' target db hs rs)

  -- A poll that lists the bookings of an earlier poll again, each as cancelled as it was and at
  -- whatever time, skips every one of them and changes nothing.
  pub moved_bookings_skipped :
      {N : Type 0} (J : Platform N) (rows rows' : List (JsonValue N)) (target : PollTarget)
      (now now' : ℕ) (r r' : ReconcileResult) (db : BookingDb)
      → AllSame J rows rows'
      → let db' = (apply_events P (polled_events J rows) target now r db).1 in
        let events' = polled_events J rows' in
        apply_events P events' target now' r' db'
        ≡ (record r' { skipped = r'.skipped + length events' }, db')
  moved_bookings_skipped J rows rows' target now now' r r' db same =
      let events = polled_events J rows in
      let db' = (apply_events P events target now r db).1 in
      apply_events-settled P (polled_events J rows') target now' r' db' (
        AllRecorded-SameIds events (polled_events J rows') target db'
          (polled_events-SameIds J rows rows' same)
          (apply_events-recorded P events target now r db))
