-- ===== src/Knowledge/Approval.antt =====
-- An approval moves the one live generation (publish-version.ts, knowledge.service.ts).
use expertos.Common.{
  ℕ, ◌≤◌, ◌≡◌, refl, ◌⊎◌, inl, inr, true, false, Option, none, some, List, [], ◌∷◌, if◌then◌else◌,
  arith, Bool-cases, Option-cases, sym, In, ◌==◌, keep, length, All, subst,
}
use expertos.Orm.{Prisma, unordered, change}
use expertos.Orm.Reads.{In-change}
use expertos.Database.{ok, err, run}
use expertos.Database.Rows.{AuthUser}
use expertos.Knowledge.{
  PublishStatus, ChunkStatus, Document, DocumentVersion, KnowledgeDb, KnowledgeError, not_found,
  same_status, is_expert_review, is_id, load_version, load_document, update_version,
  set_version_status, set_chunk_status, update_document, supersede, publish_reviewed_version_tx,
  approve_tx,
}
use expertos.Knowledge.Generation.{IsLive, IsReady, is_current, promoted, promoted-IsLive}
use expertos.Orm.Tables.{only_one, unique-change, All-change}
use expertos.Knowledge.Reachable.{IsLive-tables}

-- The tables after the former generation is archived.
pub record IsSuperseded (db : KnowledgeDb) (version : DocumentVersion) (version_id : ℕ)
    (pointer : Option ℕ) (db1 : KnowledgeDb) : Type 0 where
  pub same_documents : db1.documents ≡ db.documents
  pub unique : (i : ℕ) → length (keep (λ v. v.id == i) db1.versions) ≤ 1
  pub ready : All (IsReady db.documents version_id pointer) db1.versions
  pub kept : In version db1.versions

All-map : {A : Type 0} (Q R : A → Type 0) (l : List A) → ((x : A) → Q x → R x) → All Q l → All R l
All-map Q R [] f h = tt
All-map Q R (x ∷ l) f h = (f x h.0, All-map Q R l f h.1)

module _ (P : Prisma) (db : KnowledgeDb) (version : DocumentVersion) (version_id : ℕ) where
  IsReady-if :
      (pointer : Option ℕ) (w : DocumentVersion)
      → ((w.id == version_id) ≡ false → is_id pointer w.id ≡ false)
      → is_current db.documents w ≡ true
      → IsReady db.documents version_id pointer w
  IsReady-if pointer w f c = elim (Bool-cases (w.id == version_id)) [
    | inl k ↦ inl k
    | inr k ↦ elim (Bool-cases (same_status w.status PublishStatus.published)) [
      | inr s ↦ inr (inl s)
      | inl s ↦ inr (inr (rw s at c, f k))
    ]
  ]

  supersede-IsSuperseded :
      (pointer : Option ℕ)
      → IsLive db
      → In version db.versions
      → (version.id == version_id) ≡ true
      → ((e : KnowledgeError) × (supersede P pointer version_id db ≡ err e))
        ⊎ ((db1 : KnowledgeDb) × (supersede P pointer version_id db ≡ ok db1)
            × IsSuperseded db version version_id pointer db1)
  unfolding supersede update_version load_version set_chunk_status
  supersede-IsSuperseded none h m k = inr (
    db,
    refl,
    record {
      same_documents = refl;
      unique = h.unique_versions;
      ready =
          All-map (λ v. is_current db.documents v ≡ true) (IsReady db.documents version_id none)
            db.versions (λ w c. IsReady-if none w (λ n. refl) c) h.current;
      kept = m;
    },
  )
  supersede-IsSuperseded (some current) h m k = elim (Bool-cases (current == version_id)) [
    | inl same ↦ inr (
      db,
      rw same refl,
      record {
        same_documents = refl;
        unique = h.unique_versions;
        ready =
            All-map (λ v. is_current db.documents v ≡ true)
              (IsReady db.documents version_id (some current)) db.versions
              (λ w c. IsReady-if (some current) w (λ n. ground arith) c) h.current;
        kept = m;
      },
    )
    | inr apart ↦ elim (Option-cases (P.find_first (λ v. v.id == current) unordered db.versions)) [
      | inl e ↦ inl (not_found, rw (supersede, apart, update_version, load_version, e) refl)
      | inr (row, e) ↦
          let f = set_version_status P PublishStatus.archived in
          let at = λ (v : DocumentVersion). v.id == current in
          let db1 : KnowledgeDb = record db {
            versions = P.update_many at f db.versions;
            chunks =
                P.update_many (λ c. c.document_version_id == current)
                  (λ c. record c { status = ChunkStatus.archived }) db.chunks;
          } in
          inr (
            db1,
            rw (supersede, apart, update_version, load_version, e) refl,
            record {
              same_documents = refl;
              unique = λ i. rw (P.update_many_eq at f db.versions) (
                  unique-change at (λ v. v.id == i) f db.versions (λ v. refl)
                    (h.unique_versions i));
              ready = rw (P.update_many_eq at f db.versions) (
                  All-change (λ v. is_current db.documents v ≡ true)
                    (IsReady db.documents version_id (some current)) at f db.versions db.versions
                    (λ w i c on. inr (inl refl))
                    (λ w i c off. IsReady-if (some current) w (λ n. ground (arith, off)) c)
                    (λ w i. i) h.current);
              kept = rw (P.update_many_eq at f db.versions) (
                  subst
                    (λ b.
                      In (if b then f version else version) (change at f db.versions)
                      → In version (change at f db.versions))
                    (off_current current apart k) (λ i. i) (In-change at f version db.versions m));
            },
          )
    ]
  ]
    where
      off_current :
          (current : ℕ)
          → (current == version_id) ≡ false
          → (version.id == version_id) ≡ true
          → false ≡ (version.id == current)
      off_current current apart k = ground arith

module _ (P : Prisma) where
  pub approve_tx-IsLive :
      (user : AuthUser) (version_id now : ℕ) (db : KnowledgeDb)
      → IsLive db
      → IsLive (run (approve_tx P user version_id now) db).1
  unfolding approve_tx load_version load_document update_version update_document set_chunk_status
      publish_reviewed_version_tx
  approve_tx-IsLive user version_id now db h =
      let f = λ (v : DocumentVersion). record v {
        status = PublishStatus.published;
        approved_by = some user.id;
        approved_at = some now;
      } in
      let g = λ (d : Document). record d {
        published_version_id = some version_id;
        status = PublishStatus.published;
      } in
      let at = λ (v : DocumentVersion). v.id == version_id in
      elim (Option-cases (P.find_first at unordered db.versions)) [
        | inl e ↦ rw (run, approve_tx, load_version, e) h
        | inr (v, e) ↦ elim (Bool-cases (is_expert_review v.status)) [
          | inr k ↦ rw (run, approve_tx, load_version, e, k) h
          | inl k ↦
              elim (Option-cases
                (P.find_first (λ d. d.id == v.document_id) unordered db.documents)) [
                  | inl d ↦ rw (run, approve_tx, load_version, e, k, load_document, d) h
                  | inr (doc, d) ↦
                      let (mv, kv, _) = P.find_first_some at unordered db.versions v e in
                      let (md, kd, _) =
                        P.find_first_some (λ x. x.id == v.document_id) unordered db.documents doc
                          d in
                      elim (supersede-IsSuperseded P db v version_id doc.published_version_id h mv
                        kv) [
                          | inl (err1, s) ↦
                              rw
                                (
                                  run, approve_tx, load_version, e, k, load_document, d,
                                  publish_reviewed_version_tx, s,
                                )
                                h
                          | inr (db1, s, ready) ↦
                              elim (Option-cases (P.find_first at unordered db1.versions)) [
                                | inl u ↦
                                    rw
                                      (
                                        run, approve_tx, load_version, e, k, load_document, d,
                                        publish_reviewed_version_tx, s, update_version,
                                        load_version, u,
                                      )
                                      h
                                | inr (row, u) ↦
                                    let (mr, kr, _) =
                                      P.find_first_some at unordered db1.versions row u in
                                    let same : row ≡ v =
                                      only_one at db1.versions row v (ready.unique version_id) mr kr
                                        ready.kept kv in
                                    rw
                                      (
                                        run, approve_tx, load_version, e, k, load_document, d,
                                        publish_reviewed_version_tx, s, update_version,
                                        load_version, u,
                                      )
                                      (IsLive-tables
                                        (promoted db1 version_id f (λ v. refl) (λ v. refl) g
                                          (λ d. refl) (λ d. refl) row doc)
                                        _ (P.update_many_eq _ _ db1.documents)
                                        (P.update_many_eq _ _ db1.versions)
                                        (promoted-IsLive db1 version_id f (λ v. refl) (λ v. refl) g
                                          (λ d. refl) (λ d. refl) row doc
                                          (λ i. rw (ready.same_documents) (h.unique_documents i))
                                          ready.unique (rw (ready.same_documents) (ready.ready)) mr
                                          kr (rw (ready.same_documents) md)
                                          (subst (λ x. (doc.id == x.document_id) ≡ true) (sym same)
                                            kd)))
                              ]
                        ]
                ]
        ]
      ]
