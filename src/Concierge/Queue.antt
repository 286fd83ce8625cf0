-- ===== src/Concierge/Queue.antt =====
-- apps/api/src/concierge/concierge-queue.service.ts: after a chat turn, a weak answer is queued for a
-- silent review. The clock is read once, and the uuid that the database draws is an argument.
use Prim.Native.Nat.{◌%◌}
use expertos.Common.{
  ℕ, ◌+◌, ◌-◌, ◌*◌, Bool, true, false, not, ◌&&◌, ◌||◌, Option, none, some, if◌then◌else◌, ◌==◌,
  leb, is_some,
}
use expertos.Orm.{Prisma, unordered}
use expertos.Database.{Result, ok, err, run}
use expertos.Database.Rows.{AuthUser}
use expertos.Concierge.{
  ReviewTriggerMode, ReviewVisibility, ReviewRequestStatus, ReviewConfig, HumanReviewRequest,
  ConciergeDb, ReviewError, unique_violation, is_auto_silent,
}

pub record ConciergeEnqueueInput : Type 0 where
  pub message_id : ℕ
  pub conversation_id : ℕ
  pub insufficient_knowledge : Bool
  pub confidence : Option ℕ

abbrev pub start_of_utc_day : ℕ → ℕ
start_of_utc_day now = now - now % 86400000

abbrev pub triggers : ConciergeEnqueueInput → ℕ → Bool
triggers input threshold =
    input.insufficient_knowledge
    || elim input.confidence [ none ↦ false | some confidence ↦ leb confidence threshold ]

-- `config && config.enabled && config.triggerMode === "auto_silent"`.
abbrev pub silent_mode : ReviewConfig → Bool
silent_mode config = config.enabled && is_auto_silent config.trigger_mode

abbrev pub is_request_for : AuthUser → ConciergeEnqueueInput → HumanReviewRequest → Bool
is_request_for user input r = r.tenant_id == user.tenant_id && r.message_id == input.message_id

abbrev pub created_since : ℕ → ℕ → HumanReviewRequest → Bool
created_since tenant_id since r = r.tenant_id == tenant_id && leb since r.created_at

abbrev pub new_request :
    AuthUser → ConciergeEnqueueInput → ReviewConfig → ℕ → ℕ → HumanReviewRequest
new_request user input config fresh now = record {
  id = fresh;
  tenant_id = user.tenant_id;
  user_id = user.id;
  message_id = input.message_id;
  assignee_id = none;
  trigger_mode = ReviewTriggerMode.auto_silent;
  visibility = ReviewVisibility.silent;
  confidence_score = input.confidence;
  status = ReviewRequestStatus.requested;
  sla_due_at = some (now + config.sla_hours * 60 * 60 * 1000);
  answered_at = none;
  created_at = now;
}

module _ (P : Prisma) where
  -- The work of the transaction once the settings are read.
  unfoldable pub enqueue_under :
      AuthUser
      → ConciergeEnqueueInput
      → ReviewConfig
      → ℕ
      → ℕ
      → ConciergeDb
      → Result ReviewError (Unit × ConciergeDb)
  enqueue_under user input config fresh now db =
      if not (silent_mode config)
      then ok (tt, db)
      else if not (triggers input config.confidence_threshold)
      then ok (tt, db)
      else if is_some (P.find_first (is_request_for user input) unordered db.requests)
      then ok (tt, db)
      else if leb config.volume_cap_per_day
          (P.count (created_since user.tenant_id (start_of_utc_day now)) db.requests)
      then ok (tt, db)
      else elim (P.create (λ a b. a.id == b.id) (new_request user input config fresh now)
          db.requests) [
            | none ↦ err unique_violation
            | some requests ↦ ok (tt, record db { requests = requests })
          ]

  unfoldable pub enqueue_tx :
      AuthUser
      → ConciergeEnqueueInput
      → ℕ
      → ℕ
      → ConciergeDb
      → Result ReviewError (Unit × ConciergeDb)
  enqueue_tx user input fresh now db = elim (P.find_first (λ c. true) unordered db.configs) [
    | none ↦ ok (tt, db)
    | some config ↦ enqueue_under user input config fresh now db
  ]

  -- An error is caught and logged.
  unfoldable pub enqueue_if_triggered :
      AuthUser → ConciergeEnqueueInput → ℕ → ℕ → ConciergeDb → ConciergeDb
  enqueue_if_triggered user input fresh now db = (run (enqueue_tx user input fresh now) db).1
