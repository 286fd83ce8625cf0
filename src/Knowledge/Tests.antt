-- ===== src/Knowledge/Tests.antt =====
-- A document with a live version and a reviewed draft: each property at a concrete run.
use expertos.Common.{
  ℕ, ◌≡◌, ◌≤◌, refl, ◌⊎◌, inl, inr, none, some, List, [], ◌∷◌, ◌==◌, In, arith, keep, length,
}
use expertos.Orm.Listed.{listed}
use expertos.Database.{ok}
use expertos.Database.Rows.{AuthUser, Role}
use expertos.Knowledge.{
  PublishStatus, DocumentVersion, KnowledgeDb, KnowledgeVersionDto, approve, approve_tx,
  load_version, load_document, update_version, update_document, set_chunk_status, supersede,
  publish_reviewed_version_tx,
}
use expertos.Knowledge.Live.{IsReviewed, approve-IsReviewed}
use expertos.Knowledge.Generation.{IsLive}
use expertos.Knowledge.History.{
  KnowledgeCall, approve_call, perform, perform_all, one_live_generation,
}

abbrev expert : AuthUser
expert = record { id = 7; tenant_id = 9; email = "eve@x"; role = Role.expert }

abbrev live_version : DocumentVersion
live_version = record {
  id = 21;
  document_id = 4;
  version_number = 1;
  status = PublishStatus.published;
  change_summary = none;
  approved_by = some 7;
  approved_at = some 10;
  created_at = 5;
}

abbrev next_version : DocumentVersion
next_version = record {
  id = 22;
  document_id = 4;
  version_number = 2;
  status = PublishStatus.expert_review;
  change_summary = some "fees";
  approved_by = none;
  approved_at = none;
  created_at = 15;
}

abbrev db : KnowledgeDb
db = record {
  documents =
      record {
        id = 4;
        title = "Visas";
        status = PublishStatus.published;
        published_version_id = some 21;
      }
      ∷ [];
  versions = live_version ∷ next_version ∷ [];
  chunks = [];
  invalidated = [];
}

unique_document : (i : ℕ) → length (keep (λ d. d.id == i) db.documents) ≤ 1
unique_document i = ground arith

unique_version : (i : ℕ) → length (keep (λ v. v.id == i) db.versions) ≤ 1
unique_version i = ground arith

db-IsLive : IsLive db
db-IsLive = record {
  unique_documents = unique_document;
  unique_versions = unique_version;
  current = (refl, (refl, tt));
}

approve-IsReviewed_example :
    ((approve listed expert 22 50 db).1 ≡ db)
    ⊎ (IsReviewed listed 22 db
        × ((dto : KnowledgeVersionDto) × ((approve listed expert 22 50 db).0 ≡ ok dto)))
approve-IsReviewed_example = approve-IsReviewed listed expert 22 50 db

abbrev calls : List KnowledgeCall
calls = approve_call expert 22 50 ∷ []

abbrev approved : DocumentVersion
approved = record next_version {
  status = PublishStatus.published;
  approved_by = some 7;
  approved_at = some 50;
}

In-calls : In approved (perform_all listed calls db).versions
unfolding perform_all perform approve approve_tx load_version load_document update_version
    update_document set_chunk_status supersede publish_reviewed_version_tx listed
In-calls = inr (inl refl)

one_live_generation_example : approved ≡ approved
one_live_generation_example =
    one_live_generation listed calls db approved approved db-IsLive In-calls In-calls refl refl refl
