-- ===== src/Booking/Returns.antt =====
-- A reconcile run ends, with everything that was listed in the ledger (booking.service.ts, reconcile).
use expertos.Common.{ℕ, ◌+◌, ◌≡◌, refl, List, [], ◌∷◌, All, All-of_In, All_in, length, arith}
use expertos.Orm.{Prisma}
use expertos.Database.{Result, ok, err}
use expertos.Booking.Targets.{PollTarget, ReconcileInput, resolve_targets}
use expertos.Booking.Ledger.{AllRecorded}
use expertos.Booking.Account.{apply_events-Accounts, reconcile_accounts, reconcile_records}
use expertos.Booking.{
  BookingDb, BookingError, BookingEvent, ReconcileResult, ProviderEnv, apply_events,
  advance_watermark, poll_all, reconcile,
}

-- The target's calendar answers.
abbrev pub Answers : PollTarget → Type 0
Answers target =
    (events : List BookingEvent) × (target.provider.list_bookings target.since ≡ ok events)

abbrev pub answer_length : Result BookingError (List BookingEvent) → ℕ
answer_length (ok events) = length events
answer_length (err e) = 0

-- How many bookings the calendars of the targets list.
abbrev pub listed_by : List PollTarget → ℕ
listed_by [] = 0
listed_by (target ∷ targets) =
    answer_length (target.provider.list_bookings target.since) + listed_by targets

module _ (P : Prisma) where
  -- The target's calendar has answered, and all of its answer is in the ledger.
  abbrev pub IsSettled : BookingDb → PollTarget → Type 0
  IsSettled db target =
      (events : List BookingEvent) × (target.provider.list_bookings target.since ≡ ok events)
      × AllRecorded P target events db

  poll_all_returns :
      (targets : List PollTarget) (now : ℕ) (r : ReconcileResult) (db : BookingDb)
      → All Answers targets
      → (r' : ReconcileResult) × ((poll_all P targets now r db).0 ≡ ok r')
        × (r'.polled ≡ r.polled + listed_by targets)
  unfolding poll_all
  poll_all_returns [] now r db h = (r, refl, omega arith)
  poll_all_returns (target ∷ targets) now r db ((events, k), h) =
      let counted = record r { polled = r.polled + length events } in
      let (r1, db1) = apply_events P events target now counted db in
      let (_, _, _, same, _) = apply_events-Accounts P events target now counted db in
      let (r', e, total) = poll_all_returns targets now r1 (advance_watermark P target db1) h in
      (r', rw (k, poll_all) e, rw k (omega arith))

  -- A run whose calendars all answer returns a summary. Its number of polled bookings is that of all
  -- the bookings that the calendars list, each of them is counted as applied or as skipped, the
  -- ledger grows by the applied ones, and every listed booking is in it.
  pub reconcile_returns :
      (env : ProviderEnv) (input : ReconcileInput) (now : ℕ) (db : BookingDb)
      → All Answers (resolve_targets P env input now db).0
      → let targets = (resolve_targets P env input now db).0 in
        let (result, after) = reconcile P env input now db in
        (r : ReconcileResult) × (result ≡ ok r)
        × (r.polled ≡ listed_by targets)
        × (r.applied + r.skipped ≡ r.polled)
        × (length after.events ≡ length db.events + r.applied)
        × All (IsSettled after) targets
  unfolding reconcile
  reconcile_returns env input now db h =
      let targets = (resolve_targets P env input now db).0 in
      let after = (reconcile P env input now db).1 in
      let (r, e, total) = poll_all_returns targets now _ db h in
      let (sum, _, grown, _) = reconcile_accounts P env input now db r after (rw e refl) in
      (
        r,
        e,
        omega arith,
        sum,
        grown,
        All-of_In targets (λ t m.
            let (events, k) = All_in Answers t targets m h in
            (events, k, reconcile_records P env input now db r t events e m k)),
      )
