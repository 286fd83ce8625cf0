-- ===== src/Knowledge/Model.antt =====
-- The documents, their versions and chunks, with the columns that the review reads or writes
-- (packages/db/prisma/schema.prisma and knowledge.constants.ts).
use expertos.Common.{ℕ, Bool, true, false, Option, none, some, List, String, ◌==◌}

pub data PublishStatus : Type 0 where
  draft ai_processing expert_review published archived : PublishStatus

pub data ChunkStatus : Type 0 where
  pending published archived : ChunkStatus

pub record Document : Type 0 where
  pub id : ℕ
  pub title : String
  pub status : PublishStatus
  pub published_version_id : Option ℕ

pub record DocumentVersion : Type 0 where
  pub id : ℕ
  pub document_id : ℕ
  pub version_number : ℕ
  pub status : PublishStatus
  pub change_summary : Option String
  pub approved_by : Option ℕ
  pub approved_at : Option ℕ
  pub created_at : ℕ

pub record Chunk : Type 0 where
  pub document_version_id : ℕ
  pub content : String
  pub status : ChunkStatus

-- `invalidated` lists the tenants whose cached answers were dropped, the latest first.
pub record KnowledgeDb : Type 0 where
  pub documents : List Document
  pub versions : List DocumentVersion
  pub chunks : List Chunk
  pub invalidated : List ℕ

pub data KnowledgeError : Type 0 where
  not_found : KnowledgeError
  conflict : PublishStatus → KnowledgeError
  not_reviewed : PublishStatus → KnowledgeError

pub record KnowledgeVersionDto : Type 0 where
  pub id : ℕ
  pub document_id : ℕ
  pub version_number : ℕ
  pub status : PublishStatus
  pub change_summary : Option String
  pub chunk_count : ℕ
  pub approved_by : Option ℕ
  pub approved_at : Option ℕ
  pub created_at : ℕ
  pub is_published : Bool

abbrev pub same_status : PublishStatus → PublishStatus → Bool
same_status PublishStatus.draft PublishStatus.draft = true
same_status PublishStatus.ai_processing PublishStatus.ai_processing = true
same_status PublishStatus.expert_review PublishStatus.expert_review = true
same_status PublishStatus.published PublishStatus.published = true
same_status PublishStatus.archived PublishStatus.archived = true
same_status _ _ = false

abbrev pub is_expert_review : PublishStatus → Bool
is_expert_review s = same_status s PublishStatus.expert_review

-- `pointer !== null && pointer === id`.
abbrev pub is_id : Option ℕ → ℕ → Bool
is_id none id = false
is_id (some p) id = p == id
