-- ===== src/Knowledge/Live.antt =====
-- Nothing goes live without an expert's review (knowledge.service.ts, approve, and
-- publish-version.ts).
use expertos.Common.{ℕ, ◌≡◌, refl, ◌⊎◌, inl, inr, true, Bool-cases, Option-cases, In, ◌==◌}
use expertos.Orm.{Prisma, unordered}
use expertos.Database.{ok, err, Result-cases, run_ok, run_err}
use expertos.Database.Rows.{AuthUser}
use expertos.Knowledge.{
  PublishStatus, DocumentVersion, KnowledgeDb, KnowledgeError, KnowledgeVersionDto, not_found,
  conflict, is_expert_review, load_version, approve_tx, approve,
}

module _ (P : Prisma) where
  -- The version is in the table and in expert review.
  abbrev pub IsReviewed : ℕ → KnowledgeDb → Type 0
  IsReviewed version_id db =
      (v : DocumentVersion) × In v db.versions
      × ((v.id == version_id) ≡ true)
      × (v.status ≡ PublishStatus.expert_review)

  expert_review_of :
      (s : PublishStatus) → is_expert_review s ≡ true → s ≡ PublishStatus.expert_review
  expert_review_of PublishStatus.draft h = cc
  expert_review_of PublishStatus.ai_processing h = cc
  expert_review_of PublishStatus.expert_review h = refl
  expert_review_of PublishStatus.published h = cc
  expert_review_of PublishStatus.archived h = cc

  approve_tx-IsReviewed :
      (user : AuthUser) (version_id now : ℕ) (db : KnowledgeDb)
      → ((e : KnowledgeError) × (approve_tx P user version_id now db ≡ err e))
        ⊎ (((r : KnowledgeVersionDto × KnowledgeDb) × (approve_tx P user version_id now db ≡ ok r))
            × IsReviewed version_id db)
  unfolding approve_tx load_version
  approve_tx-IsReviewed user version_id now db =
      let key = λ (v : DocumentVersion). v.id == version_id in
      elim (Option-cases (P.find_first key unordered db.versions)) [
        | inl e ↦ inl (not_found, rw (approve_tx, load_version, e) refl)
        | inr (v, e) ↦ elim (Bool-cases (is_expert_review v.status)) [
          | inr h ↦ inl (conflict v.status, rw (approve_tx, load_version, e, h) refl)
          | inl h ↦
              let (m, k, _) = P.find_first_some key unordered db.versions v e in
              elim (Result-cases (approve_tx P user version_id now db)) [
                | inr (f, r) ↦ inl (f, r)
                | inl (d, r) ↦ inr ((d, r), (v, m, k, expert_review_of v.status h))
              ]
        ]
      ]

  -- An approval either leaves the whole database as it is, or it succeeds, and then the version was
  -- there in expert review.
  pub approve-IsReviewed :
      (user : AuthUser) (version_id now : ℕ) (db : KnowledgeDb)
      → ((approve P user version_id now db).1 ≡ db)
        ⊎ (IsReviewed version_id db
            × ((dto : KnowledgeVersionDto) × ((approve P user version_id now db).0 ≡ ok dto)))
  unfolding approve
  approve-IsReviewed user version_id now db = elim (approve_tx-IsReviewed user version_id now db) [
    | inl (e, h) ↦ inl (rw (run_err (approve_tx P user version_id now) db h) refl)
    | inr (((dto, db'), h), reviewed) ↦
        inr (reviewed, (dto, rw (run_ok (approve_tx P user version_id now) db h) refl))
  ]
