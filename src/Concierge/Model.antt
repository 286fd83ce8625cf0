-- ===== src/Concierge/Model.antt =====
-- The rows that the review of answers reads and writes (packages/db/prisma/schema.prisma), with the
-- inputs and results of its services. A confidence and a threshold, which are only compared, are
-- natural numbers, as is a timestamp in milliseconds.
use expertos.Common.{ℕ, Bool, true, false, Option, none, some, List, String, ◌==◌}
use expertos.Database.Audit.{AdminAuditLog}

pub data ReviewTriggerMode : Type 0 where
  user_prompted auto_silent : ReviewTriggerMode

pub data ReviewVisibility : Type 0 where
  visible silent : ReviewVisibility

pub data ReviewRequestStatus : Type 0 where
  requested in_review answered escalated dismissed : ReviewRequestStatus

pub data ReviewVerdict : Type 0 where
  good bad great : ReviewVerdict

pub data MessageRole : Type 0 where
  user assistant system : MessageRole

pub data Language : Type 0 where
  en vi : Language

pub record ReviewConfig : Type 0 where
  pub id : ℕ
  pub enabled : Bool
  pub trigger_mode : ReviewTriggerMode
  pub confidence_threshold : ℕ
  pub sla_hours : ℕ
  pub volume_cap_per_day : ℕ
  pub updated_at : ℕ

pub record HumanReviewRequest : Type 0 where
  pub id : ℕ
  pub tenant_id : ℕ
  pub user_id : ℕ
  pub message_id : ℕ
  pub assignee_id : Option ℕ
  pub trigger_mode : ReviewTriggerMode
  pub visibility : ReviewVisibility
  pub confidence_score : Option ℕ
  pub status : ReviewRequestStatus
  pub sla_due_at : Option ℕ
  pub answered_at : Option ℕ
  pub created_at : ℕ

pub record ReviewResponse : Type 0 where
  pub id : ℕ
  pub tenant_id : ℕ
  pub review_request_id : ℕ
  pub reviewer_id : ℕ
  pub verdict : ReviewVerdict
  pub original_answer : String
  pub revised_answer : Option String
  pub edited : Bool
  pub notes : Option String
  pub delivered_to_user : Bool
  pub created_at : ℕ

pub record Message : Type 0 where
  pub id : ℕ
  pub tenant_id : ℕ
  pub conversation_id : ℕ
  pub role : MessageRole
  pub content : String
  pub refined_from_message_id : Option ℕ
  pub created_at : ℕ

pub record Conversation : Type 0 where
  pub id : ℕ
  pub expert_id : Option ℕ
  pub language : Language
  pub updated_at : ℕ

pub record Expert : Type 0 where
  pub id : ℕ
  pub tenant_id : ℕ
  pub user_id : Option ℕ

pub record UserRow : Type 0 where
  pub id : ℕ
  pub email : String
  pub display_name : Option String

pub record ConsultationType : Type 0 where
  pub id : ℕ
  pub key : String
  pub price_cents : Option ℕ
  pub tidycal_link : Option String
  pub active : Bool
  pub created_at : ℕ

-- A consultation that an escalation opens, in status `recommended`.
pub record RecommendedConsultation : Type 0 where
  pub id : ℕ
  pub tenant_id : ℕ
  pub user_id : ℕ
  pub type_id : Option ℕ
  pub amount_cents : Option ℕ

pub record Citation : Type 0 where
  pub message_id : ℕ
  pub chunk_id : Option ℕ

pub record Chunk : Type 0 where
  pub id : ℕ
  pub flag_count : ℕ
  pub last_flagged_at : Option ℕ

-- A knowledge draft in status `draft`.
pub record KnowledgeDraft : Type 0 where
  pub tenant_id : ℕ
  pub conversation_id : ℕ
  pub expert_id : Option ℕ
  pub title : String
  pub content : String
  pub language : Language

pub record VoiceProfile : Type 0 where
  pub id : ℕ
  pub expert_id : ℕ
  pub language : Language
  pub published : Bool
  pub updated_at : ℕ

pub record VoiceExample : Type 0 where
  pub tenant_id : ℕ
  pub voice_profile_id : ℕ
  pub prompt : Option String
  pub content : String
  pub language : Language
  pub embedding : String
  pub created_at : ℕ

pub record EmailMessage : Type 0 where
  pub to : String
  pub subject : String
  pub text : String

-- `outbox` holds the messages that the mail provider has taken, the latest first.
pub record ConciergeDb : Type 0 where
  pub configs : List ReviewConfig
  pub requests : List HumanReviewRequest
  pub responses : List ReviewResponse
  pub messages : List Message
  pub conversations : List Conversation
  pub experts : List Expert
  pub users : List UserRow
  pub consultation_types : List ConsultationType
  pub consultations : List RecommendedConsultation
  pub citations : List Citation
  pub chunks : List Chunk
  pub drafts : List KnowledgeDraft
  pub voice_profiles : List VoiceProfile
  pub voice_examples : List VoiceExample
  pub audit : List AdminAuditLog
  pub outbox : List EmailMessage

pub data ReviewError : Type 0 where
  not_found silent_pending unique_violation : ReviewError
  conflict : ReviewRequestStatus → ReviewError

abbrev pub is_auto_silent : ReviewTriggerMode → Bool
is_auto_silent user_prompted = false
is_auto_silent auto_silent = true

abbrev pub same_language : Language → Language → Bool
same_language en en = true
same_language vi vi = true
same_language _ _ = false

-- `column = value` over a nullable column.
abbrev pub is_id : Option ℕ → ℕ → Bool
is_id none id = false
is_id (some p) id = p == id

-- `RESPONDABLE.has(status)`.
abbrev pub respondable : ReviewRequestStatus → Bool
respondable requested = true
respondable in_review = true
respondable _ = false
