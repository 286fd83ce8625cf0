-- ===== src/Cache/Lru/Recent.antt =====
-- What the order of use is for: a key that was just looked up outlives the calls on other keys, as
-- long as they are fewer than the places of the cache.
use expertos.Common.{
  ℕ, zero, suc, ◌+◌, ◌-◌, ◌<◌, ◌≤◌, ◌≡◌, refl, false, some, List, [], ◌∷◌, ◌++◌, String, str_eq,
  eq_iff, if◌then◌else◌, arith, length, length-append, drop, leb, Bool-cases, Option-cases, inl,
  inr, ◌∙◌, sym, ap, ◌≢◌, All,
}
use expertos.Cache.Lru.{LruCache, Entry, map_get, map_delete, get, delete}
use expertos.Cache.Lru.Store.{
  Absent, map_set-Absent, Absent-map_delete, map_get_snoc_self, map_get_snoc_ne,
  map_get-map_delete_ne, length-map_delete-le,
}
use expertos.Cache.Lru.Validity.{IsValid, get-IsValid, set_lem}
use expertos.Cache.Lru.Recency.{get-live, live}
use expertos.Cache.Lru.Run.{
  Call, get_call, set_call, delete_call, delete_prefix_call, perform, perform_all, perform-IsValid,
  perform_max,
}

module _ {V : Type 0} (k : String) where
  -- How many entries were used after the one of the key.
  abbrev newer : List (String × Entry V) → ℕ
  newer [] = 0
  newer ((j, _) ∷ m) = if str_eq j k then length m else newer m

  newer-map_delete :
      (j : String) (m : List (String × Entry V))
      → str_eq j k ≡ false
      → newer (map_delete j m) ≤ newer m
  unfolding map_delete
  newer-map_delete j [] h = omega arith
  newer-map_delete j ((i, w) ∷ m) h =
      ground (arith, newer-map_delete j m h, length-map_delete-le j m, eq_iff i j, eq_iff i k)

  newer-snoc :
      (j : String) (w : Entry V) (m : List (String × Entry V))
      → str_eq j k ≡ false
      → newer (m ++ (j, w) ∷ []) ≤ newer m + 1
  newer-snoc j w [] h = ground (arith, h)
  newer-snoc j w ((i, u) ∷ m) h = ground (arith, newer-snoc j w m h, length-append m ((j, w) ∷ []))

  newer-snoc_self :
      (e : Entry V) (m : List (String × Entry V)) → Absent k m → newer (m ++ (k, e) ∷ []) ≡ 0
  newer-snoc_self e [] h = rw ((eq_iff k k).1 refl) refl
  newer-snoc_self e ((i, u) ∷ m) h = rw (h.0) (newer-snoc_self e m h.1)

  newer-lt : (e : Entry V) (m : List (String × Entry V)) → map_get k m ≡ some e → newer m < length m
  unfolding map_get
  newer-lt e [] h = cc h
  newer-lt e ((i, u) ∷ m) h = elim (Bool-cases (str_eq i k)) [
    | inl t ↦ rw t (omega arith)
    | inr t ↦ let rest = newer-lt e m (rw (map_get, t) at h) in rw t (omega (arith, rest))
  ]

  -- Entries that are older than the key's may be dropped.
  map_get-drop :
      (d : ℕ) (m : List (String × Entry V))
      → d + newer m + 1 ≤ length m
      → (map_get k (drop d m) ≡ map_get k m) × (newer (drop d m) ≤ newer m)
  unfolding map_get
  map_get-drop zero m h = (refl, omega arith)
  map_get-drop (suc d) [] h = absurd (omega arith)
  map_get-drop (suc d) ((i, u) ∷ m) h = elim (Bool-cases (str_eq i k)) [
    | inl t ↦ absurd (omega (arith, rw t at h))
    | inr t ↦
        let short = rw t at h in
        let (same, less) = map_get-drop d m (omega (arith, short)) in rw (map_get, t) (same, less)
  ]

  -- The call is on another key, and no deletion by prefix.
  abbrev pub IsOther : Call V → Type 0
  IsOther (get_call j now) = j ≢ k
  IsOther (set_call j v now) = j ≢ k
  IsOther (delete_call j) = j ≢ k
  IsOther (delete_prefix_call prefix) = ⊥

  -- The entry is there, and at most `n` entries were used after it.
  record IsRecent (e : Entry V) (n : ℕ) (m : List (String × Entry V)) : Type 0 where
    held : map_get k m ≡ some e
    near : newer m ≤ n

  delete-IsRecent :
      (j : String) (e : Entry V) (n : ℕ) (m : List (String × Entry V))
      → str_eq j k ≡ false
      → IsRecent e n m
      → IsRecent e n (map_delete j m)
  delete-IsRecent j e n m ne h = record {
    held = map_get-map_delete_ne j k m ne ∙ h.held;
    near = omega (arith, newer-map_delete j m ne, h.near);
  }

  snoc-IsRecent :
      (j : String) (w e : Entry V) (n : ℕ) (m : List (String × Entry V))
      → str_eq j k ≡ false
      → IsRecent e n m
      → IsRecent e (suc n) (m ++ (j, w) ∷ [])
  snoc-IsRecent j w e n m ne h = record {
    held = map_get_snoc_ne j k w m ne ∙ h.held;
    near = omega (arith, newer-snoc j w m ne, h.near);
  }

  drop-IsRecent :
      (most n : ℕ) (e : Entry V) (m : List (String × Entry V))
      → n < most
      → IsRecent e n m
      → IsRecent e n (drop (length m - most) m)
  drop-IsRecent most n e m room h =
      let (same, less) =
        map_get-drop (length m - most) m (omega (arith, newer-lt e m h.held, h.near)) in
      record { held = same ∙ h.held; near = omega (arith, less, h.near) }

  get-IsRecent :
      (j : String) (now : ℕ) (e : Entry V) (n : ℕ) (c : LruCache V)
      → str_eq j k ≡ false
      → IsRecent e n c.store
      → IsRecent e (suc n) (get j now c).1.store
  unfolding get
  get-IsRecent j now e n c ne h =
      let later : IsRecent e (suc n) c.store = record {
        held = h.held;
        near = omega (arith, h.near);
      } in
      elim (Option-cases (map_get j c.store)) [
        | inl a ↦ rw (get, a) later
        | inr (w, a) ↦ elim (Bool-cases (leb w.expires_at now)) [
          | inl b ↦ rw (get, a, b) (delete-IsRecent j e (suc n) c.store ne later)
          | inr b ↦
              rw
                (get, a, b, map_set-Absent j w (map_delete j c.store) (Absent-map_delete j c.store))
                (snoc-IsRecent j w e n (map_delete j c.store) ne
                  (delete-IsRecent j e n c.store ne h))
        ]
      ]

  perform-IsRecent :
      (x : Call V) (e : Entry V) (n : ℕ) (c : LruCache V)
      → IsValid c
      → IsOther x
      → suc n < c.max_entries
      → IsRecent e n c.store
      → IsRecent e (suc n) (perform x c).store
  unfolding perform delete
  perform-IsRecent (get_call j now) e n c v o room h =
      get-IsRecent j now e n c (ground (arith, eq_iff j k)) h
  perform-IsRecent (set_call j v' now) e n c v o room h =
      let ne : str_eq j k ≡ false = ground (arith, eq_iff j k) in
      let w : Entry V = record { value = v'; expires_at = now + c.ttl_ms } in
      rw (perform, set_lem j v' now c v.distinct)
        (drop-IsRecent c.max_entries (suc n) e (map_delete j c.store ++ (j, w) ∷ []) room
          (snoc-IsRecent j w e n (map_delete j c.store) ne (delete-IsRecent j e n c.store ne h)))
  perform-IsRecent (delete_call j) e n c v o room h =
      delete-IsRecent j e (suc n) c.store (ground (arith, eq_iff j k))
        (record { held = h.held; near = omega (arith, h.near) })
  perform-IsRecent (delete_prefix_call prefix) e n c v o room h = absurd o

  run-IsRecent :
      (xs : List (Call V)) (e : Entry V) (n : ℕ) (c : LruCache V)
      → IsValid c
      → All IsOther xs
      → n + length xs < c.max_entries
      → IsRecent e n c.store
      → map_get k (perform_all xs c).store ≡ some e
  unfolding perform_all
  run-IsRecent [] e n c v o room h = h.held
  run-IsRecent (x ∷ xs) e n c v o room h =
      run-IsRecent xs e (suc n) (perform x c) (perform-IsValid x c v) (o.1)
        (rw (perform_max x c v) (omega (arith, room)))
        (perform-IsRecent x e n c v (o.0) (omega (arith, room)) h)

  used :
      (now : ℕ) (e : Entry V) (v : V) (c : LruCache V)
      → map_get k c.store ≡ some e
      → (get k now c).0 ≡ some v
      → ((get k now c).1.max_entries ≡ c.max_entries) × IsRecent e 0 (get k now c).1.store
  unfolding get
  used now e v c a hit = elim (Bool-cases (leb e.expires_at now)) [
    | inl b ↦ cc (rw (get, a, b) at hit)
    | inr b ↦
        let gone = Absent-map_delete k c.store in
        rw (get, a, b, map_set-Absent k e (map_delete k c.store) gone)
          (
            refl,
            record {
              held = map_get_snoc_self k e (map_delete k c.store) gone;
              near = omega (arith, newer-snoc_self e (map_delete k c.store) gone);
            },
          )
  ]

  -- On a valid cache, after a lookup of a key that finds it: whatever is looked up, set or deleted
  -- under other keys (but no deletion by prefix), in fewer calls than the cache has places, a later
  -- lookup of the key answers as it would have if nothing had been called.
  pub recently_used_stays :
      (now later : ℕ) (v : V) (c : LruCache V) (xs : List (Call V))
      → IsValid c
      → (get k now c).0 ≡ some v
      → All IsOther xs
      → length xs < c.max_entries
      → (get k later (perform_all xs (get k now c).1)).0 ≡ (get k later c).0
  recently_used_stays now later v c xs valid hit other room =
      elim (Option-cases (map_get k c.store)) [
        | inl a ↦ cc (hit, get-live k now c ∙ ap (live now) a)
        | inr (e, a) ↦
            let (same, recent) = used now e v c a hit in
            let stays =
              run-IsRecent xs e 0 (get k now c).1 (get-IsValid k now c valid) other
                (rw same (omega (arith, room))) recent in
            get-live k later (perform_all xs (get k now c).1)
            ∙ ap (live later) (stays ∙ sym a)
            ∙ sym (get-live k later c)
      ]
