-- ===== src/Knowledge.antt =====
-- apps/api/src/knowledge: the review and publication of document versions (knowledge.service.ts) and
-- the one primitive that makes a version live (publish-version.ts).
mod Model
pub use Model.*
pub mod Live
pub mod Generation
pub mod Reachable
pub mod Approval
pub mod History
mod Tests
use expertos.Common.{
  ℕ, Bool, true, false, not, Option, none, some, List, [], ◌∷◌, if◌then◌else◌, ◌==◌,
}
use expertos.Orm.{Prisma, unordered}
use expertos.Database.{Result, ok, err, ◌>>=◌, run}
use expertos.Database.Rows.{AuthUser}

module _ (P : Prisma) where
  pub load_version : ℕ → KnowledgeDb → Result KnowledgeError DocumentVersion
  load_version version_id db = elim (P.find_first (λ v. v.id == version_id) unordered db.versions) [
    | none ↦ err not_found
    | some row ↦ ok row
  ]

  pub load_document : ℕ → KnowledgeDb → Result KnowledgeError Document
  load_document document_id db =
      elim (P.find_first (λ d. d.id == document_id) unordered db.documents) [
        | none ↦ err not_found
        | some row ↦ ok row
      ]

  -- `update` of a version with its row as the answer; it throws where there is none.
  pub update_version :
      ℕ
      → (DocumentVersion → DocumentVersion)
      → KnowledgeDb
      → Result KnowledgeError (DocumentVersion × KnowledgeDb)
  update_version version_id change db = do
    row ← load_version version_id db
    ok (
      change row,
      record db { versions = P.update_many (λ v. v.id == version_id) change db.versions },
    )

  abbrev pub set_version_status : PublishStatus → DocumentVersion → DocumentVersion
  set_version_status status v = record v { status = status }

  pub set_chunk_status : ℕ → ChunkStatus → KnowledgeDb → KnowledgeDb
  set_chunk_status version_id status db = record db {
    chunks =
        P.update_many (λ c. c.document_version_id == version_id) (λ c. record c { status = status })
          db.chunks;
  }

  pub update_document : ℕ → (Document → Document) → KnowledgeDb → KnowledgeDb
  update_document document_id change db = record db {
    documents = P.update_many (λ d. d.id == document_id) change db.documents;
  }

  pub to_version_dto : DocumentVersion → Option ℕ → KnowledgeDb → KnowledgeVersionDto
  to_version_dto row published_version_id db = record {
    id = row.id;
    document_id = row.document_id;
    version_number = row.version_number;
    status = row.status;
    change_summary = row.change_summary;
    chunk_count = P.count (λ c. c.document_version_id == row.id) db.chunks;
    approved_by = row.approved_by;
    approved_at = row.approved_at;
    created_at = row.created_at;
    is_published = is_id published_version_id row.id;
  }

  -- The generation that a publication supersedes.
  pub supersede : Option ℕ → ℕ → KnowledgeDb → Result KnowledgeError KnowledgeDb
  supersede none version_id db = ok db
  supersede (some current) version_id db = if current == version_id then ok db else do
    (_, db1) ← update_version current (set_version_status PublishStatus.archived) db
    ok (set_chunk_status current ChunkStatus.archived db1)

  pub publish_reviewed_version_tx :
      ℕ
      → PublishStatus
      → Option ℕ
      → ℕ
      → ℕ
      → KnowledgeDb
      → Result KnowledgeError (DocumentVersion × KnowledgeDb)
  publish_reviewed_version_tx version_id version_status current approver_id now db =
      if not (is_expert_review version_status) then err (not_reviewed version_status) else do
        db1 ← supersede current version_id db
        (updated, db2) ←
            update_version version_id
              (λ v. record v {
                status = PublishStatus.published;
                approved_by = some approver_id;
                approved_at = some now;
              })
              db1
        ok (
          updated,
          update_document updated.document_id
              (λ d. record d {
                published_version_id = some version_id;
                status = PublishStatus.published;
              })
              (set_chunk_status version_id ChunkStatus.published db2),
        )

  pub transition_tx :
      ℕ
      → PublishStatus
      → PublishStatus
      → KnowledgeDb
      → Result KnowledgeError (KnowledgeVersionDto × KnowledgeDb)
  transition_tx version_id from to db = do
    version ← load_version version_id db
    if not (same_status version.status from) then err (conflict version.status) else do
      document ← load_document version.document_id db
      (updated, db1) ← update_version version_id (set_version_status to) db
      let db2 = update_document version.document_id (λ d. record d { status = to }) db1
      ok (to_version_dto updated document.published_version_id db2, db2)

  pub submit : ℕ → KnowledgeDb → Result KnowledgeError KnowledgeVersionDto × KnowledgeDb
  submit version_id db =
      run (transition_tx version_id PublishStatus.draft PublishStatus.expert_review) db

  pub request_changes : ℕ → KnowledgeDb → Result KnowledgeError KnowledgeVersionDto × KnowledgeDb
  request_changes version_id db =
      run (transition_tx version_id PublishStatus.expert_review PublishStatus.draft) db

  pub approve_tx :
      AuthUser → ℕ → ℕ → KnowledgeDb → Result KnowledgeError (KnowledgeVersionDto × KnowledgeDb)
  approve_tx user version_id now db = do
    version ← load_version version_id db
    if not (is_expert_review version.status) then err (conflict version.status) else do
      document ← load_document version.document_id db
      (updated, db1) ←
          publish_reviewed_version_tx version_id version.status document.published_version_id
            user.id now db
      ok (to_version_dto updated (some version_id) db1, db1)

  pub archive_tx : ℕ → KnowledgeDb → Result KnowledgeError (KnowledgeVersionDto × KnowledgeDb)
  archive_tx version_id db = do
    version ← load_version version_id db
    if not (same_status version.status PublishStatus.published)
        then err (conflict version.status)
        else do
          document ← load_document version.document_id db
          (updated, db1) ← update_version version_id (set_version_status PublishStatus.archived) db
          let db2 = set_chunk_status version_id ChunkStatus.archived db1
          let live = is_id document.published_version_id version_id
          let db3 =
              if live
              then update_document version.document_id
                  (λ d. record d { published_version_id = none; status = PublishStatus.archived })
                  db2
              else db2
          ok (
            to_version_dto updated (if live then none else document.published_version_id) db3,
            db3,
          )

  -- After the transaction, the tenant's cached answers are dropped.
  abbrev pub invalidate :
      {A : Type 0}
      → AuthUser
      → Result KnowledgeError A × KnowledgeDb
      → Result KnowledgeError A × KnowledgeDb
  invalidate user (ok dto, db) =
      (ok dto, record db { invalidated = user.tenant_id ∷ db.invalidated })
  invalidate user (err e, db) = (err e, db)

  pub approve :
      AuthUser → ℕ → ℕ → KnowledgeDb → Result KnowledgeError KnowledgeVersionDto × KnowledgeDb
  approve user version_id now db = invalidate user (run (approve_tx user version_id now) db)

  pub archive : AuthUser → ℕ → KnowledgeDb → Result KnowledgeError KnowledgeVersionDto × KnowledgeDb
  archive user version_id db = invalidate user (run (archive_tx version_id) db)
