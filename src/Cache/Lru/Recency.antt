-- ===== src/Cache/Lru/Recency.antt =====
-- What a `get` returns after a `set`: the stored value until it expires, and every other entry but
-- the first one of the list, where the cache was full.
use expertos.Common.{
  ℕ, ◌+◌, ◌-◌, ◌≤◌, ◌≡◌, refl, Bool, true, false, ◌||◌, Option, none, some, List, [], ◌∷◌, ◌++◌,
  String, str_eq, eq_iff, if◌then◌else◌, arith, length, length-append, drop, ltb, leb, Bool-cases,
  Option-cases, inl, inr, ◌∙◌, is_some, ◌≢◌,
}
use expertos.Cache.Lru.{LruCache, Entry, map_get, map_delete, get, set}
use expertos.Cache.Lru.Store.{
  Absent, Distinct, map_delete-Absent, Absent-map_delete, length-map_delete-le,
  length-map_delete-some, map_get_snoc_self, map_get_snoc_ne, map_get-map_delete_ne,
}
use expertos.Cache.Lru.Validity.{IsValid, set_lem}

-- The key is the one named.
abbrev pub any_key : String → Option String → Bool
any_key j none = false
any_key j (some i) = str_eq i j

module _ {V : Type 0} where
  -- What `get` answers, as a function of the entry that is found.
  abbrev pub live : ℕ → Option (Entry V) → Option V
  live now none = none
  live now (some e) = if leb e.expires_at now then none else some e.value

  pub get-live :
      (k : String) (now : ℕ) (c : LruCache V) → (get k now c).0 ≡ live now (map_get k c.store)
  unfolding get
  get-live k now c = ground arith

  abbrev pub first_key : List (String × Entry V) → Option String
  first_key [] = none
  first_key ((k, _) ∷ _) = some k

  -- The key that `set k` evicts: the oldest, if `k` is new and the cache is full.
  abbrev pub victim : String → LruCache V → Option String
  victim k c =
      if is_some (map_get k c.store) || ltb (length c.store) c.max_entries
      then none
      else first_key c.store

  Absent-of_none : (k : String) (m : List (String × Entry V)) → map_get k m ≡ none → Absent k m
  unfolding map_get
  Absent-of_none k [] h = tt
  Absent-of_none k ((j, v) ∷ m) h = ground (arith, Absent-of_none k m)

  none_of_Absent : (k : String) (m : List (String × Entry V)) → Absent k m → map_get k m ≡ none
  unfolding map_get
  none_of_Absent k [] h = refl
  none_of_Absent k ((j, v) ∷ m) h = ground (arith, none_of_Absent k m h.1)

  -- The entries after `set k`, from those before.
  abbrev pub stored : String → Entry V → LruCache V → List (String × Entry V)
  stored k e c = map_delete k c.store ++ (k, e) ∷ []

  -- With no victim nothing is dropped.
  no_drop :
      (k : String) (e : Entry V) (c : LruCache V)
      → IsValid c
      → (is_some (map_get k c.store) || ltb (length c.store) c.max_entries) ≡ true
      → length (stored k e c) - c.max_entries ≡ 0
  no_drop k e c h w = elim (Option-cases (map_get k c.store)) [
    | inl miss ↦
        let room : length c.store + 1 ≤ c.max_entries = ground arith in
        omega (
          arith,
          length-append (map_delete k c.store) ((k, e) ∷ []),
          length-map_delete-le k c.store,
        )
    | inr (old, hit) ↦ omega (
      arith,
      length-append (map_delete k c.store) ((k, e) ∷ []),
      length-map_delete-some k c.store old h.distinct hit,
      h.bounded,
    )
  ]

  -- A full cache and a new key: the oldest entry is dropped.
  drop_oldest :
      (k i : String) (e w : Entry V) (rest : List (String × Entry V)) (c : LruCache V)
      → IsValid c
      → c.store ≡ (i, w) ∷ rest
      → map_get k c.store ≡ none
      → ltb (length c.store) c.max_entries ≡ false
      → drop (length (stored k e c) - c.max_entries) (stored k e c) ≡ rest ++ (k, e) ∷ []
  drop_oldest k i e w rest c h s miss full =
      let same = map_delete-Absent k c.store (Absent-of_none k c.store miss) in
      let one : length (c.store ++ (k, e) ∷ []) - c.max_entries ≡ 1 =
        ground (arith, length-append c.store ((k, e) ∷ []), h.bounded) in
      rw (same, one, s)

  pub stored_self :
      (k : String) (e : Entry V) (c : LruCache V)
      → IsValid c
      → map_get k (drop (length (stored k e c) - c.max_entries) (stored k e c)) ≡ some e
  stored_self k e c h =
      elim (Bool-cases (is_some (map_get k c.store) || ltb (length c.store) c.max_entries)) [
        | inl w ↦ rw (no_drop k e c h w) (map_get_snoc_self k e _ (Absent-map_delete k c.store))
        | inr w ↦ full c.store refl w
      ]
    where
      full :
          (m : List (String × Entry V))
          → c.store ≡ m
          → (is_some (map_get k c.store) || ltb (length c.store) c.max_entries) ≡ false
          → map_get k (drop (length (stored k e c) - c.max_entries) (stored k e c)) ≡ some e
      full [] s w = absurd (ground (arith, h.positive))
      full ((i, u) ∷ rest) s w =
          let miss : map_get k c.store ≡ none = ground arith in
          let absent = rw s at (Absent-of_none k c.store miss) in
          rw (drop_oldest k i e u rest c h s miss (ground arith))
            (map_get_snoc_self k e rest absent.1)

  pub stored_ne :
      (k j : String) (e : Entry V) (c : LruCache V)
      → IsValid c
      → str_eq k j ≡ false
      → map_get j (drop (length (stored k e c) - c.max_entries) (stored k e c)) ≡ (
          if is_some (map_get k c.store) || ltb (length c.store) c.max_entries
          then map_get j c.store
          else map_get j (drop 1 c.store))
  stored_ne k j e c h ne =
      elim (Bool-cases (is_some (map_get k c.store) || ltb (length c.store) c.max_entries)) [
        | inl w ↦
            rw (w, no_drop k e c h w)
              (map_get_snoc_ne k j e _ ne ∙ map_get-map_delete_ne k j c.store ne)
        | inr w ↦ rw w (full c.store refl w)
      ]
    where
      full :
          (m : List (String × Entry V))
          → c.store ≡ m
          → (is_some (map_get k c.store) || ltb (length c.store) c.max_entries) ≡ false
          → map_get j (drop (length (stored k e c) - c.max_entries) (stored k e c))
            ≡ map_get j (drop 1 c.store)
      full [] s w = absurd (ground (arith, h.positive))
      full ((i, u) ∷ rest) s w =
          let miss : map_get k c.store ≡ none = ground arith in
          rw (drop_oldest k i e u rest c h s miss (ground arith), s) (map_get_snoc_ne k j e rest ne)

  -- The oldest entry is the only one that dropping one entry can hide.
  pub map_get-drop_one :
      (j : String) (m : List (String × Entry V))
      → Distinct m
      → map_get j (drop 1 m) ≡ (if any_key j (first_key m) then none else map_get j m)
  unfolding map_get
  map_get-drop_one j [] d = refl
  map_get-drop_one j ((i, w) ∷ m) d = ground (arith, eq_iff i j, none_of_Absent i m d.0)

  -- On a valid cache a `get` of the key just set returns the value until `ttl_ms` has passed.
  pub get-set_self :
      (k : String) (v : V) (now later : ℕ) (c : LruCache V)
      → IsValid c
      → (get k later (set k v now c)).0 ≡ (if ltb later (now + c.ttl_ms) then some v else none)
  get-set_self k v now later c h =
      get-live k later (set k v now c)
      ∙ rw (set_lem k v now c h.distinct, stored_self k _ c h) (ground arith)

  -- On a valid cache a `set` changes what a `get` of another key answers for one key at most: the
  -- victim, which is the first key in the list of a full cache that did not hold the new key.
  pub get-set_ne :
      (k j : String) (v : V) (now later : ℕ) (c : LruCache V)
      → IsValid c
      → k ≢ j
      → (get j later (set k v now c)).0
        ≡ (if any_key j (victim k c) then none else (get j later c).0)
  get-set_ne k j v now later c h ne =
      let differ : str_eq k j ≡ false = ground (arith, eq_iff k j) in
      rw
        (
          get-live j later (set k v now c),
          get-live j later c,
          set_lem k v now c h.distinct,
          stored_ne k j _ c h differ,
          map_get-drop_one j c.store h.distinct,
        )
        (ground arith)
