-- ===== src/Booking/Ledger.antt =====
-- Replays and accounts of the booking poll (booking.service.ts, applyBookingEvent and reconcile).
use expertos.Common.{
  ℕ, suc, ◌+◌, ◌≡◌, refl, ◌⊎◌, inl, inr, Bool, true, false, Option, List, [], ◌∷◌, String, eq_iff,
  if◌then◌else◌, arith, Option-cases, any, length, ap, ◌∙◌, sym, subst, is_some, is_some,
}
use expertos.Orm.{Prisma, unordered}
use expertos.Orm.Reads.{find_first-any}
use expertos.Booking.Targets.{PollTarget}
use expertos.Booking.{
  BookingDb, BookingEvent, BookingWebhookEvent, matched, unmatched, duplicate, ReconcileResult,
  apply_booking_event, apply_events, correlate, is_event, ledger_row, tally, scope_event_to_expert,
}

add_zero : (a : ℕ) → a + 0 ≡ a
add_zero a = omega arith

add_assoc_one : (a b : ℕ) → a + 1 + b ≡ a + suc b
add_assoc_one a b = omega arith

module _ (P : Prisma) where
  -- The event has a row under the provider's name.
  abbrev pub recorded : String → BookingEvent → BookingDb → Bool
  recorded provider event db = any (is_event P provider event.event_id) db.events

  correlate-events :
      (event : BookingEvent) (expert_id : Option String) (now : ℕ) (db : BookingDb)
      → (correlate P event expert_id now db).1.events ≡ db.events
  unfolding correlate
  correlate-events event expert_id now db = ground arith

  ledger_row-is_event :
      (event : BookingEvent) (provider : String) (c : Option ℕ) (m : Bool) (id now : ℕ)
      → is_event P provider event.event_id (ledger_row P event provider c m id now) ≡ true
  unfolding is_event ledger_row
  ledger_row-is_event event provider c m id now =
      rw ((eq_iff provider provider).1 refl, (eq_iff event.event_id event.event_id).1 refl) refl

  row_key :
      (event : BookingEvent) (provider : String) (c : Option ℕ) (m : Bool) (id now : ℕ)
      (l : List BookingWebhookEvent)
      → let row = ledger_row P event provider c m id now in
        any (is_event P row.provider row.event_id) l ≡ any (is_event P provider event.event_id) l
  unfolding ledger_row
  row_key event provider c m id now l = refl

  -- An event that the ledger holds is skipped; any other is applied, and gets one row.
  pub apply-cases :
      (event : BookingEvent) (provider : String) (expert_id : Option String) (now : ℕ)
      (db : BookingDb)
      → ((recorded provider event db ≡ true)
          × (apply_booking_event P event provider expert_id now db ≡ (duplicate, db)))
        ⊎ ((recorded provider event db ≡ false)
            × (let ((c, m), db') = correlate P event expert_id now db in
                let row = ledger_row P event provider c m db'.next_id now in
                apply_booking_event P event provider expert_id now db ≡ (
                  if m then matched else unmatched,
                  record db' { events = row ∷ db.events; next_id = suc db'.next_id },
                )))
  unfolding apply_booking_event
  apply-cases event provider expert_id now db =
      let key = is_event P provider event.event_id in
      let seen = find_first-any P key unordered db.events in
      elim (Option-cases (P.find_first key unordered db.events)) [
        | inr (r, e) ↦ inl (sym seen ∙ ap is_some e, rw (e, apply_booking_event) refl)
        | inl e ↦
            let free = sym seen ∙ ap is_some e in
            let ((c, m), db') = correlate P event expert_id now db in
            inr (
              free,
              rw
                  (
                    e,
                    apply_booking_event,
                    P.create_eq,
                    correlate-events event expert_id now db,
                    row_key event provider c m db'.next_id now db.events,
                    free,
                  )
                  refl,
            )
      ]

  -- Whatever a delivery does, its event is in the ledger afterwards, the rows before it stay, and
  -- the outcome says by how much the ledger has grown.
  pub apply-recorded :
      (event : BookingEvent) (provider : String) (expert_id : Option String) (now : ℕ)
      (db : BookingDb)
      → recorded provider event (apply_booking_event P event provider expert_id now db).1 ≡ true
  apply-recorded event provider expert_id now db =
      elim (apply-cases event provider expert_id now db) [
        | inl (r, e) ↦ rw e r
        | inr (r, e) ↦
            let ((c, m), db') = correlate P event expert_id now db in
            rw (e, ledger_row-is_event event provider c m db'.next_id now) refl
      ]

  apply-keeps :
      (event : BookingEvent) (provider : String) (expert_id : Option String) (now : ℕ)
      (db : BookingDb) (p : BookingWebhookEvent → Bool)
      → any p db.events ≡ true
      → any p (apply_booking_event P event provider expert_id now db).1.events ≡ true
  apply-keeps event provider expert_id now db p h =
      elim (apply-cases event provider expert_id now db) [
        | inl (r, e) ↦ rw e h
        | inr (r, e) ↦ rw e (ground (arith, h))
      ]

  -- An event under an id that the provider's ledger has taken already, whatever the event says and
  -- whenever and for whichever expert it comes, is answered `duplicate` and changes nothing: so is
  -- the same event delivered or polled again.
  pub apply_replay :
      (event event' : BookingEvent) (provider : String) (expert_id expert_id' : Option String)
      (now now' : ℕ) (db : BookingDb)
      → event'.event_id ≡ event.event_id
      → let db' = (apply_booking_event P event provider expert_id now db).1 in
        apply_booking_event P event' provider expert_id' now' db' ≡ (duplicate, db')
  apply_replay event event' provider expert_id expert_id' now now' db same =
      let db' = (apply_booking_event P event provider expert_id now db).1 in
      elim (apply-cases event' provider expert_id' now' db') [
        | inl (r, e) ↦ e
        | inr (r, e) ↦
            let k = apply-recorded event provider expert_id now db in
            cc (subst (λ i. any (is_event P provider i) db'.events ≡ false) same r, k)
      ]

  -- The name under which an event of a poll is recorded.
  abbrev pub PolledAs : PollTarget → BookingEvent → BookingDb → Type 0
  PolledAs target event db =
      recorded target.provider.name (scope_event_to_expert event target.expert_id) db ≡ true

  abbrev pub AllRecorded : PollTarget → List BookingEvent → BookingDb → Type 0
  AllRecorded target [] db = Unit
  AllRecorded target (e ∷ es) db = PolledAs target e db × AllRecorded target es db

  pub apply_events-keeps :
      (events : List BookingEvent) (target : PollTarget) (now : ℕ) (r : ReconcileResult)
      (db : BookingDb) (p : BookingWebhookEvent → Bool)
      → any p db.events ≡ true
      → any p (apply_events P events target now r db).1.events ≡ true
  unfolding apply_events
  apply_events-keeps [] target now r db p h = h
  apply_events-keeps (e ∷ es) target now r db p h =
      let scoped = scope_event_to_expert e target.expert_id in
      let (outcome, db') =
        apply_booking_event P scoped target.provider.name target.expert_id now db in
      apply_events-keeps es target now (tally P outcome r) db' p
        (apply-keeps scoped target.provider.name target.expert_id now db p h)

  pub apply_events-recorded :
      (events : List BookingEvent) (target : PollTarget) (now : ℕ) (r : ReconcileResult)
      (db : BookingDb)
      → AllRecorded target events (apply_events P events target now r db).1
  unfolding apply_events
  apply_events-recorded [] target now r db = tt
  apply_events-recorded (e ∷ es) target now r db =
      let scoped = scope_event_to_expert e target.expert_id in
      let (outcome, db') =
        apply_booking_event P scoped target.provider.name target.expert_id now db in
      (
        apply_events-keeps es target now (tally P outcome r) db'
            (is_event P target.provider.name scoped.event_id)
            (apply-recorded scoped target.provider.name target.expert_id now db),
        apply_events-recorded es target now (tally P outcome r) db',
      )

  -- A poll whose events are all in the ledger skips every one of them.
  pub apply_events-settled :
      (events : List BookingEvent) (target : PollTarget) (now : ℕ) (r : ReconcileResult)
      (db : BookingDb)
      → AllRecorded target events db
      → apply_events P events target now r db
        ≡ (record r { skipped = r.skipped + length events }, db)
  unfolding apply_events tally
  apply_events-settled [] target now r db h = rw (add_zero r.skipped) refl
  apply_events-settled (e ∷ es) target now r db h =
      let scoped = scope_event_to_expert e target.expert_id in
      elim (apply-cases scoped target.provider.name target.expert_id now db) [
        | inr (f, k) ↦ cc (f, h.0)
        | inl (f, k) ↦
            rw
              (
                k,
                apply_events-settled es target now (record r { skipped = r.skipped + 1 }) db h.1,
                add_assoc_one r.skipped (length es),
              )
              refl
      ]

  -- A poll that is applied a second time, by the next run or by one beside it, changes nothing: all
  -- of its events are counted as skipped.
  poll_replay :
      (events : List BookingEvent) (target : PollTarget) (now now' : ℕ) (r r' : ReconcileResult)
      (db : BookingDb)
      → let db' = (apply_events P events target now r db).1 in
        apply_events P events target now' r' db'
        ≡ (record r' { skipped = r'.skipped + length events }, db')
  poll_replay events target now now' r r' db =
      apply_events-settled events target now' r' (apply_events P events target now r db).1
        (apply_events-recorded events target now r db)
