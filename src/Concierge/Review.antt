-- ===== src/Concierge/Review.antt =====
-- apps/api/src/concierge/concierge-review.service.ts: the reviewer's verdict on a queued answer, and
-- its escalation into a consultation.
use expertos.Common.{
  ℕ, Bool, true, false, not, ◌&&◌, Option, none, some, String, str_eq, if◌then◌else◌, ◌==◌, or_else,
  map_option, is_some,
}
use expertos.Orm.{Prisma, unordered, asc}
use expertos.Orm.Reads.{create_row}
use expertos.Database.{Result, ok, err, ◌>>=◌, run}
use expertos.Database.Rows.{AuthUser, Role}
use expertos.Concierge.{
  ReviewRequestStatus, ReviewVerdict, HumanReviewRequest, ReviewResponse, Message, ConsultationType,
  ConciergeDb, ReviewError, not_found, conflict, unique_violation, is_id, respondable,
}
use expertos.Concierge.Flywheel.{FlywheelInput, FlywheelEnv, apply_review_outcome}
use expertos.Concierge.Delivery.{DeliveryInput, DeliveryEnv, deliver}

pub record ReviewResponseCreateInput : Type 0 where
  pub verdict : ReviewVerdict
  pub revised_answer : Option String
  pub notes : Option String

pub record ReviewEscalationDto : Type 0 where
  pub review_request_id : ℕ
  pub status : ReviewRequestStatus
  pub consultation_id : ℕ
  pub consultation_type_key : Option String
  pub tidycal_link : Option String

-- The uuids that the database draws in one call, for each new row.
pub record FreshIds : Type 0 where
  pub created : ℕ
  pub delivered : ℕ

abbrev pub is_admin : Role → Bool
is_admin Role.admin = true
is_admin _ = false

-- `revised !== null && revised !== original`.
abbrev pub is_edited : Option String → String → Bool
is_edited none original = false
is_edited (some revised) original = not (str_eq revised original)

abbrev pub new_response :
    AuthUser → HumanReviewRequest → Message → ReviewResponseCreateInput → ℕ → ℕ → ReviewResponse
new_response user row message input fresh now = record {
  id = fresh;
  tenant_id = user.tenant_id;
  review_request_id = row.id;
  reviewer_id = user.id;
  verdict = input.verdict;
  original_answer = message.content;
  revised_answer = input.revised_answer;
  edited = is_edited input.revised_answer message.content;
  notes = input.notes;
  delivered_to_user = false;
  created_at = now;
}

abbrev pub mark_answered : AuthUser → ℕ → HumanReviewRequest → HumanReviewRequest
mark_answered user now r = record r {
  status = ReviewRequestStatus.answered;
  answered_at = some now;
  assignee_id = some user.id;
}

abbrev pub mark_escalated : AuthUser → HumanReviewRequest → HumanReviewRequest
mark_escalated user r = record r {
  status = ReviewRequestStatus.escalated;
  assignee_id = some user.id;
}

abbrev pub flywheel_input :
    AuthUser → HumanReviewRequest → Message → ReviewResponseCreateInput → FlywheelInput
flywheel_input user row message input = record {
  review_request_id = row.id;
  tenant_id = user.tenant_id;
  verdict = input.verdict;
  improved_answer = or_else input.revised_answer message.content;
  edited = is_edited input.revised_answer message.content;
}

abbrev pub delivery_input :
    AuthUser → HumanReviewRequest → Message → ReviewResponseCreateInput → ℕ → DeliveryInput
delivery_input user row message input response_id = record {
  review_request_id = row.id;
  response_id = response_id;
  tenant_id = user.tenant_id;
  revised_answer = input.revised_answer;
  edited = is_edited input.revised_answer message.content;
}

abbrev pub escalation_dto : HumanReviewRequest → Option ConsultationType → ℕ → ReviewEscalationDto
escalation_dto row type fresh = record {
  review_request_id = row.id;
  status = ReviewRequestStatus.escalated;
  consultation_id = fresh;
  consultation_type_key = map_option (λ t. t.key) type;
  tidycal_link = elim type [ none ↦ none | some t ↦ t.tidycal_link ];
}

abbrev pub Reviewed : Type 0
Reviewed = ReviewResponse × (FlywheelInput × DeliveryInput)

module _ (P : Prisma) where
  unfoldable pub message_of : HumanReviewRequest → ConciergeDb → Option Message
  message_of row db = P.find_first (λ m. m.id == row.message_id) unordered db.messages

  -- `message: { conversation: { expertId } }`, the filter over the relations of a request.
  unfoldable pub in_voice : ℕ → ConciergeDb → HumanReviewRequest → Bool
  in_voice expert_id db row = elim (message_of row db) [
    | none ↦ false
    | some message ↦ is_some (
        P.find_first (λ c. c.id == message.conversation_id && is_id c.expert_id expert_id) unordered
          db.conversations)
  ]

  unfoldable pub resolve_expert : AuthUser → Option ℕ → ConciergeDb → Option ℕ
  resolve_expert user requested_expert_id db =
      if is_admin user.role
      then elim requested_expert_id [
        | none ↦ none
        | some id ↦
            map_option (λ e. e.id)
              (P.find_first (λ e. e.id == id && e.tenant_id == user.tenant_id) unordered db.experts)
      ]
      else map_option (λ e. e.id)
          (P.find_first (λ e. is_id e.user_id user.id && e.tenant_id == user.tenant_id) unordered
            db.experts)

  unfoldable pub visible_to : AuthUser → ℕ → ℕ → ConciergeDb → HumanReviewRequest → Bool
  visible_to user expert_id id db r =
      r.id == id && r.tenant_id == user.tenant_id && in_voice expert_id db r

  unfoldable pub load_in_voice :
      AuthUser → Option ℕ → ℕ → ConciergeDb → Result ReviewError (HumanReviewRequest × Message)
  load_in_voice user requested_expert_id id db = elim (resolve_expert user requested_expert_id db) [
    | none ↦ err not_found
    | some expert_id ↦ elim (P.find_first (visible_to user expert_id id db) unordered db.requests) [
      | none ↦ err not_found
      | some row ↦ elim (message_of row db) [
        | none ↦ err not_found
        | some message ↦ ok (row, message)
      ]
    ]
  ]

  unfoldable pub set_request :
      ℕ → (HumanReviewRequest → HumanReviewRequest) → ConciergeDb → ConciergeDb
  set_request id change db = record db {
    requests = P.update_many (λ r. r.id == id) change db.requests;
  }

  unfoldable pub create_response : ReviewResponse → ConciergeDb → Result ReviewError ConciergeDb
  create_response response db = elim (P.create (λ a b. a.id == b.id) response db.responses) [
    | none ↦ err unique_violation
    | some responses ↦ ok (record db { responses = responses })
  ]

  unfoldable pub respond_tx :
      AuthUser
      → Option ℕ
      → ℕ
      → ReviewResponseCreateInput
      → ℕ
      → ℕ
      → ConciergeDb
      → Result ReviewError (Reviewed × ConciergeDb)
  respond_tx user requested_expert_id id input fresh now db = do
    (row, message) ← load_in_voice user requested_expert_id id db
    if not (respondable row.status) then err (conflict row.status) else do
      let response = new_response user row message input fresh now
      db1 ← create_response response db
      ok (
        (
          response,
          (
            flywheel_input user row message input,
            delivery_input user row message input response.id,
          ),
        ),
        set_request row.id (mark_answered user now) db1,
      )

  -- After the commit: the flywheel, then the delivery.
  unfoldable pub after_commit :
      FlywheelEnv
      → DeliveryEnv
      → ℕ
      → ℕ
      → Result ReviewError Reviewed × ConciergeDb
      → Result ReviewError ReviewResponse × ConciergeDb
  after_commit flywheel delivery fresh now (err e, db) = (err e, db)
  after_commit flywheel delivery fresh now (ok (response, (f, d)), db) =
      (ok response, deliver P delivery d fresh now (apply_review_outcome P flywheel f now db))

  unfoldable pub respond :
      FlywheelEnv
      → DeliveryEnv
      → AuthUser
      → Option ℕ
      → ℕ
      → ReviewResponseCreateInput
      → FreshIds
      → ℕ
      → ConciergeDb
      → Result ReviewError ReviewResponse × ConciergeDb
  respond flywheel delivery user requested_expert_id id input ids now db =
      after_commit flywheel delivery ids.delivered now
        (run (respond_tx user requested_expert_id id input ids.created now) db)

  unfoldable pub default_consultation_type : ConciergeDb → Option ConsultationType
  default_consultation_type db =
      P.find_first (λ t. t.active) (asc (λ t. t.created_at)) db.consultation_types

  unfoldable pub resolve_consultation_type : Option String → ConciergeDb → Option ConsultationType
  resolve_consultation_type none db = default_consultation_type db
  resolve_consultation_type (some key) db =
      if str_eq key ""
      then default_consultation_type db
      else elim (P.find_first (λ t. str_eq t.key key && t.active) unordered db.consultation_types) [
        | some by_key ↦ some by_key
        | none ↦ default_consultation_type db
      ]

  unfoldable pub open_consultation :
      AuthUser → HumanReviewRequest → Option ConsultationType → ℕ → ConciergeDb → ConciergeDb
  open_consultation user row type fresh db = record db {
    consultations =
        create_row P
          (record {
            id = fresh;
            tenant_id = user.tenant_id;
            user_id = row.user_id;
            type_id = map_option (λ t. t.id) type;
            amount_cents = elim type [ none ↦ none | some t ↦ t.price_cents ];
          })
          db.consultations;
  }

  unfoldable pub escalate_tx :
      AuthUser
      → Option ℕ
      → ℕ
      → Option String
      → ℕ
      → ConciergeDb
      → Result ReviewError (ReviewEscalationDto × ConciergeDb)
  escalate_tx user requested_expert_id id consultation_type_key fresh db = do
    (row, message) ← load_in_voice user requested_expert_id id db
    if not (respondable row.status) then err (conflict row.status) else do
      let type = resolve_consultation_type consultation_type_key db
      let db1 = open_consultation user row type fresh db
      ok (escalation_dto row type fresh, set_request row.id (mark_escalated user) db1)

  unfoldable pub escalate :
      AuthUser
      → Option ℕ
      → ℕ
      → Option String
      → ℕ
      → ConciergeDb
      → Result ReviewError ReviewEscalationDto × ConciergeDb
  escalate user requested_expert_id id consultation_type_key fresh db =
      run (escalate_tx user requested_expert_id id consultation_type_key fresh) db
