-- ===== src/Booking/Tests.antt =====
-- Two experts' calendars and a poll of them: each property at a concrete database.
use expertos.Common.{
  ◌+◌, ◌≡◌, refl, inl, Option, none, some, [], ◌∷◌, String, In, length, ◌≤◌, str_eq, if◌then◌else◌,
  All, ap,
}
use expertos.Orm.Listed.{listed}
use expertos.Database.{ok}
use expertos.Database.Rows.{User}
use expertos.Booking.Targets.{
  PollTarget, ReconcileInput, resolve_targets, targets_for, poll_targets, for_expert, is_polled,
  default_provider,
}
use expertos.Booking.{
  BookingDb, BookingEvent, Consultation, recommended, booked, booking_created, Expert,
  TidyCalProvider, ProviderEnv, ReconcileResult, matched, duplicate, apply_booking_event, reconcile,
  correlate, find_user, is_pending, is_event, ledger_row, poll_all, apply_events, advance_watermark,
  scope_event_to_expert, tally,
}
use expertos.Booking.Ledger.{apply_replay, AllRecorded}
use expertos.Booking.Returns.{Answers, listed_by, IsSettled, reconcile_returns}
use expertos.Booking.Account.{reconcile_accounts, reconcile_records}
use expertos.Booking.Correlate.{no_booking_vanishes, IsAccountedFor, apply-Kept, Kept}
use expertos.Booking.Targets.Own.{resolve_targets-IsOwn, IsOwn}

abbrev ann : User
ann = record { id = 1; tenant_id = 9; email = "ann@x"; created_at = 5 }

abbrev pending : Consultation
pending = record {
  id = 7;
  tenant_id = 9;
  user_id = 1;
  expert_id = some "e1";
  status = recommended;
  booking_ref = none;
  scheduled_at = none;
  created_at = 6;
}

abbrev coach : Expert
coach = record { id = "e1"; tidycal_api_token_enc = some "sealed"; tidycal_polled_at = none }

abbrev broken : Expert
broken = record { id = "e2"; tidycal_api_token_enc = some "garbage"; tidycal_polled_at = none }

abbrev db : BookingDb
db = record {
  users = ann ∷ [];
  experts = coach ∷ broken ∷ [];
  consultations = pending ∷ [];
  events = [];
  next_id = 20;
}

abbrev created : BookingEvent
created = record {
  event_id = "reconcile:b1:booking.created";
  event_type = booking_created;
  booking_ref = "b1";
  email = some "ann@x";
  scheduled_at = some 100;
  status = booked;
}

-- The same booking after its owner has moved it: the poll gives it the same id.
abbrev moved : BookingEvent
moved = record created { scheduled_at = some 200 }

abbrev calendar : TidyCalProvider
calendar = record {
  name = "tidycal";
  receive = λ body. ok none;
  list_bookings = λ since. ok (created ∷ []);
}

abbrev offline : TidyCalProvider
offline = record { name = "offline"; receive = λ body. ok none; list_bookings = λ since. ok [] }

abbrev open_secret : String → Option String
open_secret s = if str_eq s "sealed" then some "token" else none

abbrev env : ProviderEnv
env = record {
  tidycal_api_token = none;
  decrypt_secret = open_secret;
  http_provider = λ token. calendar;
  offline_provider = offline;
}

abbrev everyone : ReconcileInput
everyone = record { expert_id = none; since = none }

abbrev coach_target : PollTarget
coach_target = record {
  expert_id = some "e1";
  provider = calendar;
  since = 13600000;
  polled_at = some 100000000;
}

run_matches : (apply_booking_event listed created "tidycal" (some "e1") 50 db).0 ≡ matched
unfolding apply_booking_event correlate listed is_event ledger_row find_user is_pending
run_matches = refl

apply_replay_example :
    let db' = (apply_booking_event listed created "tidycal" (some "e1") 50 db).1 in
    apply_booking_event listed moved "tidycal" (some "e1") 60 db' ≡ (duplicate, db')
apply_replay_example =
    apply_replay listed created moved "tidycal" (some "e1") (some "e1") 50 60 db refl

no_booking_vanishes_example : IsAccountedFor listed created (some "e1") 50 db "tidycal"
no_booking_vanishes_example = no_booking_vanishes listed created (some "e1") 50 db "tidycal" refl

apply-Kept_example :
    let db' = (apply_booking_event listed created "tidycal" (some "e2") 50 db).1 in
    (c' : Consultation) × In c' db'.consultations × Kept listed created (some "e2") 50 db pending c'
apply-Kept_example = apply-Kept listed created (some "e2") 50 db "tidycal" pending (inl refl)

resolve_targets-IsOwn_example :
    All (IsOwn env db.experts) (resolve_targets listed env everyone 100000000 db).0
resolve_targets-IsOwn_example = resolve_targets-IsOwn listed env everyone 100000000 db

abbrev summary : ReconcileResult
summary = record { polled = 1; applied = 1; matched = 1; skipped = 0; failed_targets = 1 }

abbrev reconciled : BookingDb
reconciled = (reconcile listed env everyone 100000000 db).1

reconcile_run : reconcile listed env everyone 100000000 db ≡ (ok summary, reconciled)
unfolding reconcile poll_all apply_events apply_booking_event correlate listed is_event ledger_row
    find_user is_pending tally scope_event_to_expert advance_watermark resolve_targets targets_for
    poll_targets for_expert is_polled default_provider
reconcile_run = refl

In-targets : In coach_target (resolve_targets listed env everyone 100000000 db).0
unfolding resolve_targets targets_for poll_targets for_expert is_polled default_provider listed
In-targets = inl refl

reconcile_accounts_example :
    (1 + 0 ≡ 1)
    × (1 ≤ 1)
    × (length reconciled.events ≡ length db.events + 1)
    × (1 ≡ (resolve_targets listed env everyone 100000000 db).1)
reconcile_accounts_example =
    reconcile_accounts listed env everyone 100000000 db summary reconciled reconcile_run

reconcile_records_example : AllRecorded listed coach_target (created ∷ []) reconciled
reconcile_records_example =
    reconcile_records listed env everyone 100000000 db summary coach_target (created ∷ [])
      (ap (λ x. x.0) reconcile_run) In-targets refl

All-answer : All Answers (resolve_targets listed env everyone 100000000 db).0
unfolding resolve_targets targets_for poll_targets for_expert is_polled default_provider listed
All-answer = ((created ∷ [], refl), tt)

reconcile_returns_example :
    (r : ReconcileResult) × ((reconcile listed env everyone 100000000 db).0 ≡ ok r)
    × (r.polled ≡ listed_by (resolve_targets listed env everyone 100000000 db).0)
    × (r.applied + r.skipped ≡ r.polled)
    × (length reconciled.events ≡ length db.events + r.applied)
    × All (IsSettled listed reconciled) (resolve_targets listed env everyone 100000000 db).0
reconcile_returns_example = reconcile_returns listed env everyone 100000000 db All-answer
