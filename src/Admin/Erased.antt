-- ===== src/Admin/Erased.antt =====
-- The deletion of an account takes its data with it (apps/api/src/admin/admin-user.service.ts,
-- executeDeletion, and apps/api/src/uploads/storage-cleanup.ts).
use expertos.Common.{
  ℕ, ◌≡◌, refl, ap, ◌∙◌, sym, ◌⊎◌, inl, inr, Bool, true, false, not, ◌&&◌, Option, none, some, List,
  [], ◌∷◌, In, String, str_eq, any, keep, map, ◌==◌, Bool-cases, Option-cases, arith, eq_iff,
}
use expertos.Orm.{Prisma, unordered}
use expertos.Orm.Tables.{any-witness}
use expertos.Database.{ok, err, run}
use expertos.Database.Rows.{AuthUser}
use expertos.Admin.{UploadedFile, AdminDb, AdminError, bad_request, not_found}
use expertos.Admin.Service.{
  data_deleted, find_account, audited, delete_account, execute_deletion_tx, delete_storage_objects,
  execute_deletion,
}

any-kept : {Row : Type 0} (p : Row → Bool) (t : List Row) → any p (keep (λ r. not (p r)) t) ≡ false
any-kept p [] = refl
any-kept p (r ∷ t) = elim (Bool-cases (p r)) [
  | inl e ↦ rw e (any-kept p t)
  | inr e ↦ rw (e, e) (any-kept p t)
]

any-fewer :
    {Row : Type 0} (p q : Row → Bool) (t : List Row) → any p t ≡ false → any p (keep q t) ≡ false
any-fewer p q [] h = refl
any-fewer p q (r ∷ t) h = elim (Bool-cases (q r)) [
  | inl e ↦ rw e (ground (arith, any-fewer p q t))
  | inr e ↦ rw e (ground (arith, any-fewer p q t))
]

-- `gcs_uri` is the uri.
abbrev pub has_uri : Option String → String → Bool
has_uri none uri = false
has_uri (some v) uri = str_eq v uri

has_uri-eq : (o : Option String) (uri : String) → has_uri o uri ≡ true → o ≡ some uri
has_uri-eq none uri h = cc
has_uri-eq (some v) uri h = ap some ((eq_iff v uri).0 h)

-- The storage has bytes at the uri.
abbrev pub holds : String → List String → Bool
holds uri = any (λ o. str_eq o uri)

module _ (P : Prisma) (accepts : String → Bool) where
  stays_gone :
      (uri : String) (uris : List (Option String)) (objects : List String)
      → holds uri objects ≡ false
      → holds uri (delete_storage_objects P accepts uris objects) ≡ false
  unfolding delete_storage_objects
  stays_gone uri [] objects h = h
  stays_gone uri (none ∷ uris) objects h = stays_gone uri uris objects h
  stays_gone uri (some v ∷ uris) objects h = elim (Bool-cases (not (str_eq v "") && accepts v)) [
    | inr e ↦ rw (delete_storage_objects, e) (stays_gone uri uris objects h)
    | inl e ↦
        rw (delete_storage_objects, e, P.delete_many_eq)
          (stays_gone uri uris (keep (λ o. not (str_eq o v)) objects)
            (any-fewer (λ o. str_eq o uri) (λ o. not (str_eq o v)) objects h))
  ]

  -- An upload's uri that the storage deletes when it is asked to.
  gone :
      (uri : String) (uris : List (Option String)) (objects : List String)
      → In (some uri) uris
      → (not (str_eq uri "") && accepts uri) ≡ true
      → holds uri (delete_storage_objects P accepts uris objects) ≡ false
  unfolding delete_storage_objects
  gone uri [] objects m e = absurd m
  gone uri (v ∷ uris) objects (inl same) e =
      rw (← same, e, P.delete_many_eq)
        (stays_gone uri uris (keep (λ o. not (str_eq o uri)) objects)
          (any-kept (λ o. str_eq o uri) objects))
  gone uri (none ∷ uris) objects (inr m) e = gone uri uris objects m e
  gone uri (some v ∷ uris) objects (inr m) e = gone uri uris _ m e

  -- No row of the account is left.
  pub record IsErased (user_id : ℕ) (after : AdminDb) : Type 0 where
    pub users : any (λ u. u.id == user_id) after.users ≡ false
    pub subscriptions : any (λ s. s.user_id == user_id) after.subscriptions ≡ false
    pub flags : any (λ f. f.user_id == user_id) after.flags ≡ false
    pub deletions : any (λ d. d.user_id == user_id) after.deletions ≡ false
    pub uploads : any (λ u. u.user_id == user_id) after.uploads ≡ false
    pub owned : any (λ r. r.user_id == user_id) after.owned ≡ false

  In-uris :
      (uri : String) (u : UploadedFile) (us : List UploadedFile)
      → In u us
      → u.gcs_uri ≡ some uri
      → In (some uri) (map (λ v. v.gcs_uri) us)
  In-uris uri u [] m e = absurd m
  In-uris uri u (v ∷ us) (inl same) e = inl (sym e ∙ ap (λ w. w.gcs_uri) same)
  In-uris uri u (v ∷ us) (inr m) e = inr (In-uris uri u us m e)

  abbrev pub is_upload : ℕ → String → UploadedFile → Bool
  is_upload user_id uri u = (u.user_id == user_id) && has_uri u.gcs_uri uri

  -- The storage takes the deletion of the uri.
  abbrev pub accepted_uri : String → Bool
  accepted_uri uri = not (str_eq uri "") && accepts uri

  reclaimed :
      (user_id : ℕ) (uri : String) (db : AdminDb)
      → (any (is_upload user_id uri) db.uploads
          && accepted_uri uri
          && holds uri (
              delete_storage_objects P accepts
                (map
                  (λ u. u.gcs_uri)
                  (P.find_many (λ u. u.user_id == user_id) unordered db.uploads))
                db.objects))
        ≡ false
  reclaimed user_id uri db = elim (Bool-cases (any (is_upload user_id uri) db.uploads)) [
    | inr e ↦ rw e refl
    | inl e ↦ elim (Bool-cases (accepted_uri uri)) [
      | inr f ↦ rw (e, f) refl
      | inl f ↦
          let (u, m, k) = any-witness (is_upload user_id uri) db.uploads e in
          let mine : (u.user_id == user_id) ≡ true = ground arith in
          let named : has_uri u.gcs_uri uri ≡ true = ground arith in
          rw
            (
              e,
              f,
              gone uri _ db.objects
                  (In-uris uri u _
                    ((P.find_many_in (λ v. v.user_id == user_id) unordered db.uploads u).1
                      (m, mine))
                    (has_uri-eq u.gcs_uri uri named))
                  f,
            )
            refl
    ]
  ]

  erased : (user_id : ℕ) (db : AdminDb) → IsErased user_id (delete_account P user_id db)
  unfolding delete_account
  erased user_id db = record {
    users = rw P.delete_many_eq (any-kept (λ u. u.id == user_id) db.users);
    subscriptions = rw P.delete_many_eq (any-kept (λ s. s.user_id == user_id) db.subscriptions);
    flags = rw P.delete_many_eq (any-kept (λ f. f.user_id == user_id) db.flags);
    deletions = rw P.delete_many_eq (any-kept (λ d. d.user_id == user_id) db.deletions);
    uploads = rw P.delete_many_eq (any-kept (λ u. u.user_id == user_id) db.uploads);
    owned = rw P.delete_many_eq (any-kept (λ r. r.user_id == user_id) db.owned);
  }

  -- A deletion is refused and changes nothing, or it is answered: then no row of the account is left,
  -- and the storage has no bytes at the uri of an upload of the account whose deletion it takes.
  pub deletion_erases :
      (actor : AuthUser) (user_id : ℕ) (uri : String) (db : AdminDb)
      → ((e : AdminError) × (execute_deletion P accepts actor user_id db ≡ (err e, db)))
        ⊎ (((execute_deletion P accepts actor user_id db).0
              ≡ ok (record { user_id = user_id; deleted = true }))
            × IsErased user_id (execute_deletion P accepts actor user_id db).1
            × ((any (is_upload user_id uri) db.uploads
                  && accepted_uri uri
                  && holds uri (execute_deletion P accepts actor user_id db).1.objects)
                ≡ false))
  unfolding execute_deletion execute_deletion_tx find_account audited delete_account
  deletion_erases actor user_id uri db = elim (Bool-cases (actor.id == user_id)) [
    | inl e ↦ inl (bad_request, rw (execute_deletion, e) refl)
    | inr e ↦ elim (Option-cases (P.find_first (λ u. u.id == user_id) unordered db.users)) [
      | inl f ↦
          inl (not_found, rw (execute_deletion, e, run, execute_deletion_tx, find_account, f) refl)
      | inr (row, f) ↦
          let h = erased user_id (audited P actor (data_deleted user_id row.role) db) in
          rw (execute_deletion, e, run, execute_deletion_tx, find_account, f)
            (inr (
              refl,
              record {
                users = h.users;
                subscriptions = h.subscriptions;
                flags = h.flags;
                deletions = h.deletions;
                uploads = h.uploads;
                owned = h.owned;
              },
              reclaimed user_id uri db,
            ))
    ]
  ]
