-- ===== src/Knowledge/History.antt =====
-- Any sequence of reviews, approvals and archivings (knowledge.service.ts).
use expertos.Common.{ℕ, ◌≡◌, refl, List, [], ◌∷◌, In}
use expertos.Orm.{Prisma}
use expertos.Database.{Result, ok, err, run}
use expertos.Database.Rows.{AuthUser}
use expertos.Knowledge.{
  PublishStatus, DocumentVersion, KnowledgeDb, KnowledgeError, approve_tx, approve, submit,
  request_changes, archive, archive_tx, invalidate,
}
use expertos.Knowledge.Generation.{IsLive, one_generation}
use expertos.Knowledge.Reachable.{IsLive-tables, transition-IsLive, archive_tx-IsLive}
use expertos.Knowledge.Approval.{approve_tx-IsLive}

-- The calls of the review.
pub data KnowledgeCall : Type 0 where
  submit_call request_changes_call : ℕ → KnowledgeCall
  approve_call : AuthUser → ℕ → ℕ → KnowledgeCall
  archive_call : AuthUser → ℕ → KnowledgeCall

module _ (P : Prisma) where
  -- A call of the review, by some user at some time.
  unfoldable pub perform : KnowledgeCall → KnowledgeDb → KnowledgeDb
  perform (submit_call version_id) db = (submit P version_id db).1
  perform (request_changes_call version_id) db = (request_changes P version_id db).1
  perform (approve_call user version_id now) db = (approve P user version_id now db).1
  perform (archive_call user version_id) db = (archive P user version_id db).1

  unfoldable pub perform_all : List KnowledgeCall → KnowledgeDb → KnowledgeDb
  perform_all [] db = db
  perform_all (c ∷ cs) db = perform_all cs (perform c db)

  invalidated-IsLive :
      {A : Type 0} (user : AuthUser) (r : Result KnowledgeError A × KnowledgeDb)
      → IsLive r.1
      → IsLive (invalidate P user r).1
  invalidated-IsLive user (ok a, db) h = IsLive-tables db _ refl refl h
  invalidated-IsLive user (err e, db) h = h

  perform-IsLive : (c : KnowledgeCall) (db : KnowledgeDb) → IsLive db → IsLive (perform c db)
  unfolding perform submit request_changes approve archive
  perform-IsLive (submit_call version_id) db h = transition-IsLive P version_id _ _ db refl h
  perform-IsLive (request_changes_call version_id) db h =
      transition-IsLive P version_id _ _ db refl h
  perform-IsLive (approve_call user version_id now) db h =
      invalidated-IsLive user (run (approve_tx P user version_id now) db)
        (approve_tx-IsLive P user version_id now db h)
  perform-IsLive (archive_call user version_id) db h =
      invalidated-IsLive user (run (archive_tx P version_id) db)
        (archive_tx-IsLive P version_id db h)

  perform_all-IsLive :
      (cs : List KnowledgeCall) (db : KnowledgeDb) → IsLive db → IsLive (perform_all cs db)
  unfolding perform_all
  perform_all-IsLive [] db h = h
  perform_all-IsLive (c ∷ cs) db h = perform_all-IsLive cs (perform c db) (perform-IsLive c db h)

  -- Whatever is submitted, returned, approved and archived from a database whose ids are unique and
  -- whose published versions are those that their documents point at: of one document, two published
  -- versions are the same one.
  pub one_live_generation :
      (cs : List KnowledgeCall) (db : KnowledgeDb) (v w : DocumentVersion)
      → IsLive db
      → In v (perform_all cs db).versions
      → In w (perform_all cs db).versions
      → v.document_id ≡ w.document_id
      → v.status ≡ PublishStatus.published
      → w.status ≡ PublishStatus.published
      → v ≡ w
  one_live_generation cs db v w h =
      one_generation (perform_all cs db) v w (perform_all-IsLive cs db h)
