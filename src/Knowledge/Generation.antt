-- ===== src/Knowledge/Generation.antt =====
-- One generation of a document is live (publish-version.ts and knowledge.service.ts).
use expertos.Common.{
  ℕ, ◌≤◌, ◌≡◌, refl, ◌⊎◌, inl, inr, Bool, true, false, not, ◌&&◌, ◌||◌, Option, none, some, List,
  arith, Bool-cases, ap, sym, In, any, ==_refl, ◌==◌, ==_iff, keep, length, All, All_in, any_of_In,
  subst,
}
use expertos.Orm.{change}
use expertos.Orm.Reads.{In-change_hit}
use expertos.Knowledge.{PublishStatus, Document, DocumentVersion, KnowledgeDb, same_status, is_id}
use expertos.Orm.Tables.{only_one, unique-change, All-change, any-change, any-witness}

-- The document of the version points at it.
abbrev pub points : DocumentVersion → Document → Bool
points v d = d.id == v.document_id && is_id d.published_version_id v.id

-- A version that is published is the one that its document points at.
abbrev pub is_current : List Document → DocumentVersion → Bool
is_current documents v =
    not (same_status v.status PublishStatus.published) || any (points v) documents

pub record IsLive (db : KnowledgeDb) : Type 0 where
  pub unique_documents : (i : ℕ) → length (keep (λ d. d.id == i) db.documents) ≤ 1
  pub unique_versions : (i : ℕ) → length (keep (λ v. v.id == i) db.versions) ≤ 1
  pub current : All (λ v. is_current db.documents v ≡ true) db.versions

is_id-some : (o : Option ℕ) (x : ℕ) → is_id o x ≡ true → o ≡ some x
is_id-some none x h = cc
is_id-some (some y) x h = ap some ((==_iff y x).0 h)

-- Of one document, two published versions are the same one.
pub one_generation :
    (db : KnowledgeDb) (v w : DocumentVersion)
    → IsLive db
    → In v db.versions
    → In w db.versions
    → v.document_id ≡ w.document_id
    → v.status ≡ PublishStatus.published
    → w.status ≡ PublishStatus.published
    → v ≡ w
one_generation db v w h m n same p q =
    let (d, i, a) = any-witness (points v) db.documents (current_of v m p) in
    let (e, j, b) = any-witness (points w) db.documents (current_of w n q) in
    let eq : d ≡ e =
      only_one (λ x. x.id == v.document_id) db.documents d e (h.unique_documents v.document_id) i
        (ground arith) j (ground arith) in
    only_one (λ x. x.id == v.id) db.versions v w (h.unique_versions v.id) m (==_refl v.id) n
      (ids d e a b eq)
  where
    current_of :
        (x : DocumentVersion)
        → In x db.versions
        → x.status ≡ PublishStatus.published
        → any (points x) db.documents ≡ true
    current_of x i k =
        rw k at (All_in (λ y. is_current db.documents y ≡ true) x db.versions i h.current)

    ids : (d e : Document) → points v d ≡ true → points w e ≡ true → d ≡ e → (w.id == v.id) ≡ true
    ids d e a b eq =
        let x = is_id-some d.published_version_id v.id (ground (arith, a)) in
        let y = is_id-some e.published_version_id w.id (ground (arith, b)) in
        (==_iff w.id v.id).1 (cc (x, y, ap (λ (z : Document). z.published_version_id) eq))

module _ (db : KnowledgeDb) (version_id : ℕ) (f : DocumentVersion → DocumentVersion)
    (f_id : (v : DocumentVersion) → (f v).id ≡ v.id)
    (f_retires : (v : DocumentVersion) → same_status (f v).status PublishStatus.published ≡ false)
    (p : Document → Bool) (g : Document → Document) (g_id : (d : Document) → (g d).id ≡ d.id) where
  abbrev pub retired : KnowledgeDb
  retired = record db {
    versions = change (λ v. v.id == version_id) f db.versions;
    documents = change p g db.documents;
  }

  -- Taking a version out of publication keeps the others current, where the change of the documents
  -- moves no pointer to another version.
  pub retired-IsLive :
      ((v : DocumentVersion)
        → In v db.versions
        → (v.id == version_id) ≡ false
        → any (points v) db.documents ≡ true
        → any (points v) (change p g db.documents) ≡ true)
      → IsLive db
      → IsLive retired
  retired-IsLive keeps h = record {
    unique_documents = λ i.
        unique-change p (λ d. d.id == i) g db.documents (λ d. ap (λ x. x == i) (g_id d))
          (h.unique_documents i);
    unique_versions = λ i.
        unique-change (λ v. v.id == version_id) (λ v. v.id == i) f db.versions
          (λ v. ap (λ x. x == i) (f_id v)) (h.unique_versions i);
    current =
        All-change (λ v. is_current db.documents v ≡ true)
          (λ v. is_current (change p g db.documents) v ≡ true) (λ v. v.id == version_id) f
          db.versions db.versions (λ v m c e. rw (f_retires v) refl)
          (λ v m c e. elim (Bool-cases (same_status v.status PublishStatus.published)) [
            | inr k ↦ rw k refl
            | inl k ↦ rw k (keeps v m e (rw k at c))
          ])
          (λ v m. m) h.current;
  }

-- Before the pointer moves: a version is the one that goes live, or not published, or it is current
-- and the document that is about to move does not point at it.
abbrev pub IsReady : List Document → ℕ → Option ℕ → DocumentVersion → Type 0
IsReady documents version_id pointer v =
    ((v.id == version_id) ≡ true)
    ⊎ ((same_status v.status PublishStatus.published ≡ false)
        ⊎ ((any (points v) documents ≡ true) × (is_id pointer v.id ≡ false)))

module _ (db : KnowledgeDb) (version_id : ℕ) (f : DocumentVersion → DocumentVersion)
    (f_id : (v : DocumentVersion) → (f v).id ≡ v.id)
    (f_document : (v : DocumentVersion) → (f v).document_id ≡ v.document_id)
    (g : Document → Document) (g_id : (d : Document) → (g d).id ≡ d.id)
    (g_points : (d : Document) → (g d).published_version_id ≡ some version_id)
    (version : DocumentVersion) (document : Document) where
  abbrev pub promoted : KnowledgeDb
  promoted = record db {
    versions = change (λ v. v.id == version_id) f db.versions;
    documents = change (λ d. d.id == version.document_id) g db.documents;
  }

  -- The version goes live, and its document points at it.
  pub promoted-IsLive :
      ((i : ℕ) → length (keep (λ d. d.id == i) db.documents) ≤ 1)
      → ((i : ℕ) → length (keep (λ v. v.id == i) db.versions) ≤ 1)
      → All (IsReady db.documents version_id document.published_version_id) db.versions
      → In version db.versions
      → (version.id == version_id) ≡ true
      → In document db.documents
      → (document.id == version.document_id) ≡ true
      → IsLive promoted
  promoted-IsLive ud uv ready mv kv md kd = record {
    unique_documents = λ i.
        unique-change (λ d. d.id == version.document_id) (λ d. d.id == i) g db.documents
          (λ d. ap (λ x. x == i) (g_id d)) (ud i);
    unique_versions = λ i.
        unique-change (λ v. v.id == version_id) (λ v. v.id == i) f db.versions
          (λ v. ap (λ x. x == i) (f_id v)) (uv i);
    current =
        All-change (IsReady db.documents version_id document.published_version_id)
          (λ v. is_current (change (λ d. d.id == version.document_id) g db.documents) v ≡ true)
          (λ v. v.id == version_id) f db.versions db.versions live others (λ v m. m) ready;
  }
    where
      live :
          (v : DocumentVersion)
          → In v db.versions
          → IsReady db.documents version_id document.published_version_id v
          → (v.id == version_id) ≡ true
          → is_current (change (λ d. d.id == version.document_id) g db.documents) (f v) ≡ true
      live v m r k =
          let same : v ≡ version =
            only_one (λ x. x.id == version_id) db.versions v version (uv version_id) m k mv kv in
          let hit =
            In-change_hit (λ d. d.id == version.document_id) g document db.documents md kd in
          let here : points (f v) (g document) ≡ true =
            rw (g_id document, f_document v, f_id v, g_points document)
              (rw
                (
                  subst (λ x. (document.id == x.document_id) ≡ true) (sym same) kd,
                  (==_iff version_id v.id).1 (sym ((==_iff v.id version_id).0 k)),
                )
                refl) in
          rw (any_of_In (points (f v)) (g document) _ hit here) (ground arith)

      others :
          (v : DocumentVersion)
          → In v db.versions
          → IsReady db.documents version_id document.published_version_id v
          → (v.id == version_id) ≡ false
          → is_current (change (λ d. d.id == version.document_id) g db.documents) v ≡ true
      others v m (inl a) k = cc (a, k)
      others v m (inr (inl a)) k = rw a refl
      others v m (inr (inr (a, b))) k =
          rw
            (any-change (λ d. d.id == version.document_id) (points v) g db.documents db.documents
              (λ d i e.
                let same : d ≡ document =
                  only_one (λ x. x.id == version.document_id) db.documents d document
                    (ud version.document_id) i e md kd in
                rw same (ground (arith, b)))
              (λ d i. i) a)
            (ground arith)
