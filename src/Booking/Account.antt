-- ===== src/Booking/Account.antt =====
-- The summary of a reconcile run against the ledger (booking.service.ts, reconcile).
use expertos.Common.{
  ℕ, ◌+◌, ◌≤◌, ◌≡◌, refl, inl, inr, Option, List, [], ◌∷◌, String, arith, Bool-cases, In, length,
  ap, ◌∙◌, subst,
}
use expertos.Orm.{Prisma}
use expertos.Database.{ok, Result-cases}
use expertos.Booking.Targets.{PollTarget, ReconcileInput, resolve_targets}
use expertos.Booking.{
  BookingDb, BookingEvent, ReconcileResult, ProviderEnv, apply_booking_event, apply_events,
  advance_watermark, poll_all, reconcile, tally, correlate, scope_event_to_expert, is_event,
}
use expertos.Booking.Ledger.{apply-cases, apply_events-keeps, apply_events-recorded, AllRecorded}

-- From one summary and database to a later one, `n` polled events further.
abbrev pub Accounts : ℕ → ReconcileResult → BookingDb → ReconcileResult → BookingDb → Type 0
Accounts n r db r' db' =
    (r'.applied + r'.skipped ≡ r.applied + r.skipped + n)
    × (r'.matched + r.applied ≤ r.matched + r'.applied)
    × (length db'.events + r.applied ≡ length db.events + r'.applied)
    × (r'.polled ≡ r.polled)
    × (r'.failed_targets ≡ r.failed_targets)

module _ (P : Prisma) where
  one_event :
      (event : BookingEvent) (provider : String) (expert_id : Option String) (now : ℕ)
      (r : ReconcileResult) (db : BookingDb)
      → let (outcome, db') = apply_booking_event P event provider expert_id now db in
        Accounts 1 r db (tally P outcome r) db'
  unfolding tally
  one_event event provider expert_id now r db =
      elim (apply-cases P event provider expert_id now db) [
        | inl (_, e) ↦ rw e (omega arith, omega arith, omega arith, refl, refl)
        | inr (_, e) ↦ elim (Bool-cases (correlate P event expert_id now db).0.1) [
          | inl m ↦ rw (e, m) (omega arith, omega arith, omega arith, refl, refl)
          | inr m ↦ rw (e, m) (omega arith, omega arith, omega arith, refl, refl)
        ]
      ]

  pub apply_events-Accounts :
      (events : List BookingEvent) (target : PollTarget) (now : ℕ) (r : ReconcileResult)
      (db : BookingDb)
      → let (r', db') = apply_events P events target now r db in
        Accounts (length events) r db r' db'
  unfolding apply_events
  apply_events-Accounts [] target now r db = (omega arith, omega arith, omega arith, refl, refl)
  apply_events-Accounts (e ∷ es) target now r db =
      let scoped = scope_event_to_expert e target.expert_id in
      let (outcome, db') =
        apply_booking_event P scoped target.provider.name target.expert_id now db in
      let (a, b, c, d, f) = one_event scoped target.provider.name target.expert_id now r db in
      let (a', b', c', d', f') = apply_events-Accounts es target now (tally P outcome r) db' in
      (omega arith, omega arith, omega arith, d' ∙ d, f' ∙ f)

  advance-events :
      (target : PollTarget) (db : BookingDb) → (advance_watermark P target db).events ≡ db.events
  unfolding advance_watermark
  advance-events target db = ground arith

  -- What a run of the targets leaves, when it returns.
  abbrev Balanced : ReconcileResult → BookingDb → ReconcileResult → BookingDb → Type 0
  Balanced r db r' db' =
      (r'.applied + r'.skipped + r.polled ≡ r.applied + r.skipped + r'.polled)
      × (r'.matched + r.applied ≤ r.matched + r'.applied)
      × (length db'.events + r.applied ≡ length db.events + r'.applied)
      × (r'.failed_targets ≡ r.failed_targets)

  poll_all-Balanced :
      (targets : List PollTarget) (now : ℕ) (r : ReconcileResult) (db : BookingDb)
      (r' : ReconcileResult) (db' : BookingDb)
      → poll_all P targets now r db ≡ (ok r', db')
      → Balanced r db r' db'
  unfolding poll_all
  poll_all-Balanced [] now r db r' db' h =
      (ground (arith, h), ground (arith, h), ground (arith, h), ground (arith, h))
  poll_all-Balanced (target ∷ targets) now r db r' db' h =
      elim (Result-cases (target.provider.list_bookings target.since)) [
        | inr (e, k) ↦ cc (rw (k, poll_all) at h)
        | inl (events, k) ↦
            let counted = record r { polled = r.polled + length events } in
            let (r1, db1) = apply_events P events target now counted db in
            let (a, b, c, d, f) = apply_events-Accounts events target now counted db in
            let (a', b', c', f') =
              poll_all-Balanced targets now r1 (advance_watermark P target db1) r' db'
                (rw (k, poll_all) at h) in
            let e = ap length (advance-events target db1) in
            (omega arith, omega arith, omega arith, f' ∙ f)
      ]

  advance-recorded :
      (target : PollTarget) (db : BookingDb) (t : PollTarget) (events : List BookingEvent)
      → AllRecorded P t events db
      → AllRecorded P t events (advance_watermark P target db)
  advance-recorded target db t [] h = tt
  advance-recorded target db t (e ∷ es) h =
      (rw (advance-events target db) (h.0), advance-recorded target db t es h.1)

  apply_events-keep_recorded :
      (events : List BookingEvent) (target : PollTarget) (now : ℕ) (r : ReconcileResult)
      (db : BookingDb) (t : PollTarget) (es : List BookingEvent)
      → AllRecorded P t es db
      → AllRecorded P t es (apply_events P events target now r db).1
  apply_events-keep_recorded events target now r db t [] h = tt
  apply_events-keep_recorded events target now r db t (e ∷ es) h = (
    apply_events-keeps P events target now r db
        (is_event P t.provider.name (scope_event_to_expert e t.expert_id).event_id) h.0,
    apply_events-keep_recorded events target now r db t es h.1,
  )

  poll_all-keep_recorded :
      (targets : List PollTarget) (now : ℕ) (r : ReconcileResult) (db : BookingDb) (t : PollTarget)
      (es : List BookingEvent)
      → AllRecorded P t es db
      → AllRecorded P t es (poll_all P targets now r db).1
  unfolding poll_all
  poll_all-keep_recorded [] now r db t es h = h
  poll_all-keep_recorded (target ∷ targets) now r db t es h =
      elim (Result-cases (target.provider.list_bookings target.since)) [
        | inr (e, k) ↦ rw (k, poll_all) h
        | inl (events, k) ↦
            let counted = record r { polled = r.polled + length events } in
            let (r1, db1) = apply_events P events target now counted db in
            rw (k, poll_all)
              (poll_all-keep_recorded targets now r1 (advance_watermark P target db1) t es (
                advance-recorded target db1 t es
                  (apply_events-keep_recorded events target now counted db t es h)))
      ]

  poll_head-recorded :
      (t : PollTarget) (targets : List PollTarget) (now : ℕ) (r : ReconcileResult) (db : BookingDb)
      (es : List BookingEvent)
      → t.provider.list_bookings t.since ≡ ok es
      → AllRecorded P t es (poll_all P (t ∷ targets) now r db).1
  unfolding poll_all
  poll_head-recorded t targets now r db es k =
      let counted = record r { polled = r.polled + length es } in
      let (r1, db1) = apply_events P es t now counted db in
      rw (k, poll_all)
        (poll_all-keep_recorded targets now r1 (advance_watermark P t db1) t es
          (advance-recorded t db1 t es (apply_events-recorded P es t now counted db)))

  poll_all-recorded :
      (targets : List PollTarget) (now : ℕ) (r : ReconcileResult) (db : BookingDb)
      (r' : ReconcileResult) (t : PollTarget) (es : List BookingEvent)
      → (poll_all P targets now r db).0 ≡ ok r'
      → In t targets
      → t.provider.list_bookings t.since ≡ ok es
      → AllRecorded P t es (poll_all P targets now r db).1
  unfolding poll_all
  poll_all-recorded [] now r db r' t es h m k = absurd m
  poll_all-recorded (target ∷ targets) now r db r' t es h m k =
      elim (Result-cases (target.provider.list_bookings target.since)) [
        | inr (e, l) ↦ cc (rw (l, poll_all) at h)
        | inl (events, l) ↦
            let counted = record r { polled = r.polled + length events } in
            let (r1, db1) = apply_events P events target now counted db in
            elim m [
              | inl same ↦
                  subst (λ x. AllRecorded P t es (poll_all P (x ∷ targets) now r db).1) same
                    (poll_head-recorded t targets now r db es k)
              | inr rest ↦
                  rw (l, poll_all)
                    (poll_all-recorded targets now r1 (advance_watermark P target db1) r' t es
                      (rw (l, poll_all) at h) rest k)
            ]
      ]

  -- The summary of a run that returns is true to the ledger: every polled event was applied or
  -- skipped, the ledger grew by the applied ones, of which the matched ones are a part, and the
  -- failed targets are those that the resolution of targets could not poll.
  pub reconcile_accounts :
      (env : ProviderEnv) (input : ReconcileInput) (now : ℕ) (db : BookingDb) (r : ReconcileResult)
      (db' : BookingDb)
      → reconcile P env input now db ≡ (ok r, db')
      → (r.applied + r.skipped ≡ r.polled)
        × (r.matched ≤ r.applied)
        × (length db'.events ≡ length db.events + r.applied)
        × (r.failed_targets ≡ (resolve_targets P env input now db).1)
  unfolding reconcile
  reconcile_accounts env input now db r db' h =
      let (targets, failed) = resolve_targets P env input now db in
      let start : ReconcileResult = record {
        polled = 0;
        applied = 0;
        matched = 0;
        skipped = 0;
        failed_targets = failed;
      } in
      let (a, b, c, d) = poll_all-Balanced targets now start db r db' h in
      (omega arith, omega arith, omega arith, d)

  -- After a run that returns, every booking that a target's calendar listed is in the ledger.
  pub reconcile_records :
      (env : ProviderEnv) (input : ReconcileInput) (now : ℕ) (db : BookingDb) (r : ReconcileResult)
      (target : PollTarget) (events : List BookingEvent)
      → (reconcile P env input now db).0 ≡ ok r
      → In target (resolve_targets P env input now db).0
      → target.provider.list_bookings target.since ≡ ok events
      → AllRecorded P target events (reconcile P env input now db).1
  unfolding reconcile
  reconcile_records env input now db r target events h m k =
      let (targets, failed) = resolve_targets P env input now db in
      poll_all-recorded targets now _ db r target events h m k
