-- ===== src/Knowledge/Reachable.antt =====
-- The operations of knowledge.service.ts keep one generation live.
use expertos.Common.{
  ℕ, ◌≡◌, refl, inl, inr, true, false, none, List, [], ◌∷◌, arith, Bool-cases, Option-cases, ◌∙◌,
  sym, any, ◌==◌, subst,
}
use expertos.Orm.{Prisma, unordered}
use expertos.Orm.Reads.{change_none}
use expertos.Database.{run}
use expertos.Knowledge.{
  PublishStatus, Document, DocumentVersion, KnowledgeDb, same_status, is_id, load_version,
  load_document, update_version, set_version_status, set_chunk_status, update_document,
  transition_tx, archive_tx,
}
use expertos.Knowledge.Generation.{IsLive, retired, retired-IsLive, points}
use expertos.Orm.Tables.{any-stable, any-change, only_one}

pub IsLive-tables :
    (db db' : KnowledgeDb)
    → db'.documents ≡ db.documents
    → db'.versions ≡ db.versions
    → IsLive db
    → IsLive db'
IsLive-tables db db' d v h = record {
  unique_documents = λ i. rw d (h.unique_documents i);
  unique_versions = λ i. rw v (h.unique_versions i);
  current = rw (d, v) (h.current);
}

-- A document that points at one version does not point at another.
not_pointed :
    (db : KnowledgeDb) (version_id : ℕ) (w : DocumentVersion) (doc x : Document)
    → is_id doc.published_version_id version_id ≡ true
    → (w.id == version_id) ≡ false
    → x ≡ doc
    → points w x ≡ false
not_pointed db version_id w doc x live apart same =
    subst (λ y. points w y ≡ false) (sym same)
      (elim (Option-cases doc.published_version_id) [
        | inl e ↦ rw e (ground arith)
        | inr (p, e) ↦ rw e (ground (arith, rw e at live))
      ])

module _ (P : Prisma) where
  -- A transition between two states that are not published.
  pub transition-IsLive :
      (version_id : ℕ) (from to : PublishStatus) (db : KnowledgeDb)
      → same_status to PublishStatus.published ≡ false
      → IsLive db
      → IsLive (run (transition_tx P version_id from to) db).1
  unfolding transition_tx load_version load_document update_version update_document
  transition-IsLive version_id from to db out h =
      elim (Option-cases (P.find_first (λ v. v.id == version_id) unordered db.versions)) [
        | inl e ↦ rw (run, transition_tx, load_version, e) h
        | inr (v, e) ↦ elim (Bool-cases (same_status v.status from)) [
          | inr k ↦ rw (run, transition_tx, load_version, e, k) h
          | inl k ↦
              elim (Option-cases
                (P.find_first (λ d. d.id == v.document_id) unordered db.documents)) [
                  | inl d ↦ rw (run, transition_tx, load_version, e, k, load_document, d) h
                  | inr (doc, d) ↦
                      rw (run, transition_tx, load_version, e, k, load_document, d, update_version)
                        (IsLive-tables
                          (retired db version_id (set_version_status P to) (λ v. refl) (λ v. out)
                            (λ x. x.id == v.document_id) (λ x. record x { status = to })
                            (λ x. refl))
                          _ (P.update_many_eq _ _ db.documents) (P.update_many_eq _ _ db.versions)
                          (retired-IsLive db version_id (set_version_status P to) (λ v. refl)
                            (λ v. out) (λ x. x.id == v.document_id) (λ x. record x { status = to })
                            (λ x. refl)
                            (λ w m apart a.
                              any-stable (λ x. x.id == v.document_id) (points w)
                                (λ x. record x { status = to }) db.documents (λ x. refl)
                              ∙ a)
                            h))
                ]
        ]
      ]

  any-never : {A : Type 0} (t : List A) → any (λ x. false) t ≡ false
  any-never [] = refl
  any-never (x ∷ t) = any-never t

  pub archive_tx-IsLive :
      (version_id : ℕ) (db : KnowledgeDb) → IsLive db → IsLive (run (archive_tx P version_id) db).1
  unfolding archive_tx load_version load_document update_version update_document set_chunk_status
  archive_tx-IsLive version_id db h =
      let f = set_version_status P PublishStatus.archived in
      let clear = λ (x : Document). record x {
        published_version_id = none;
        status = PublishStatus.archived;
      } in
      elim (Option-cases (P.find_first (λ v. v.id == version_id) unordered db.versions)) [
        | inl e ↦ rw (run, archive_tx, load_version, e) h
        | inr (v, e) ↦ elim (Bool-cases (same_status v.status PublishStatus.published)) [
          | inr k ↦ rw (run, archive_tx, load_version, e, k) h
          | inl k ↦
              elim (Option-cases
                (P.find_first (λ d. d.id == v.document_id) unordered db.documents)) [
                  | inl d ↦ rw (run, archive_tx, load_version, e, k, load_document, d) h
                  | inr (doc, d) ↦ elim (Bool-cases (is_id doc.published_version_id version_id)) [
                    | inl live ↦
                        let (md, kd, _) =
                          P.find_first_some (λ x. x.id == v.document_id) unordered db.documents doc
                            d in
                        rw
                          (
                            run, archive_tx, load_version, e, k, load_document, d, update_version,
                            live,
                          )
                          (IsLive-tables
                            (retired db version_id f (λ v. refl) (λ v. refl)
                              (λ x. x.id == v.document_id) clear (λ x. refl))
                            _ (P.update_many_eq _ _ db.documents) (P.update_many_eq _ _ db.versions)
                            (retired-IsLive db version_id f (λ v. refl) (λ v. refl)
                              (λ x. x.id == v.document_id) clear (λ x. refl)
                              (λ w m apart a.
                                any-change (λ x. x.id == v.document_id) (points w) clear
                                  db.documents db.documents
                                  (λ x i on. not_pointed db version_id w doc x live apart (
                                    only_one (λ x. x.id == v.document_id) db.documents x doc
                                      (h.unique_documents v.document_id) i on md kd))
                                  (λ x i. i) a)
                              h))
                    | inr dead ↦
                        rw
                          (
                            run, archive_tx, load_version, e, k, load_document, d, update_version,
                            dead,
                          )
                          (IsLive-tables
                            (retired db version_id f (λ v. refl) (λ v. refl) (λ x. false) clear
                              (λ x. refl))
                            _
                            (sym (
                              change_none (λ x. false) clear db.documents (any-never db.documents)))
                            (P.update_many_eq _ _ db.versions)
                            (retired-IsLive db version_id f (λ v. refl) (λ v. refl) (λ x. false)
                              clear (λ x. refl)
                              (λ w m apart a.
                                rw
                                  (change_none (λ x. false) clear db.documents
                                    (any-never db.documents))
                                  a)
                              h))
                  ]
                ]
        ]
      ]
