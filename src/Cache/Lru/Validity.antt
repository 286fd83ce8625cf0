-- ===== src/Cache/Lru/Validity.antt =====
-- The invariant of the LRU cache: a bounded map with distinct keys.
use expertos.Common.{
  ℕ, zero, suc, ◌+◌, ◌-◌, ◌≤◌, ◌≡◌, refl, some, List, [], ◌∷◌, ◌++◌, String, arith, length,
  length-append, length-drop, drop, ltb, ltb→lt, leb, Bool-cases, Option-cases, inl, inr, ap, ◌∙◌,
}
use expertos.Cache.Lru.{
  LruCache, Entry, map_get, map_delete, map_set, create, get, evict, set, delete,
}
use expertos.Cache.Lru.Store.{
  Distinct, str_eq_refl, map_delete-Absent, map_delete-Distinct, Absent-map_delete, map_set-Absent,
  Distinct-snoc, length-map_delete-le, length-map_delete-some,
}

pub record IsValid {V : Type 0} (c : LruCache V) : Type 0 where
  pub positive : 1 ≤ c.max_entries
  pub bounded : length c.store ≤ c.max_entries
  pub distinct : Distinct c.store

Distinct-drop : {V : Type 0} (n : ℕ) (m : List (String × V)) → Distinct m → Distinct (drop n m)
Distinct-drop zero m d = d
Distinct-drop (suc n) [] d = tt
Distinct-drop (suc n) (x ∷ m) d = Distinct-drop n m d.1

module _ {V : Type 0} where
  -- The state after the loop: the newest `max_entries` entries, and as many evictions as left.
  abbrev pub evicted : LruCache V → LruCache V
  evicted c = record c {
    store = drop (length c.store - c.max_entries) c.store;
    evictions = c.evictions + (length c.store - c.max_entries);
  }

  within :
      (m : List (String × Entry V)) (e : ℕ) (c : LruCache V)
      → length m ≤ c.max_entries
      → record c { store = m; evictions = e } ≡ evicted (record c { store = m; evictions = e })
  within m e c h =
      let none_over : length m - c.max_entries ≡ 0 = omega arith in
      rw none_over (ap (λ (x : ℕ). record c { store = m; evictions = x }) (omega arith))

  evict_from :
      (n : ℕ) (m : List (String × Entry V)) (e : ℕ) (c : LruCache V)
      → length m ≤ n
      → Distinct m
      → evict n (record c { store = m; evictions = e })
        ≡ evicted (record c { store = m; evictions = e })
  unfolding evict map_delete
  evict_from zero [] e c h d = within [] e c (omega arith)
  evict_from zero (x ∷ m) e c h d = absurd (omega arith)
  evict_from (suc n) [] e c h d = elim (Bool-cases (ltb c.max_entries 0)) [
    | inl over ↦ absurd (ground arith)
    | inr fits ↦ rw fits (within [] e c (omega arith))
  ]
  evict_from (suc n) ((k, v) ∷ m) e c h d = elim (Bool-cases (ltb c.max_entries (suc (length m)))) [
    | inl over ↦
        let ih = evict_from n m (e + 1) c (omega arith) d.1 in
        let more = length m - c.max_entries in
        let one_more : suc (length m) - c.max_entries ≡ suc more = omega (arith, ltb→lt _ _ over) in
        rw (over, str_eq_refl k, map_delete-Absent k m d.0, one_more)
          (ih ∙ ap (λ (x : ℕ). record c { store = drop more m; evictions = x }) (omega arith))
    | inr fits ↦ rw fits (within ((k, v) ∷ m) e c (ground arith))
  ]

  -- The loop that `set` runs keeps the newest `max_entries` entries.
  pub evict_lem :
      (fuel : ℕ) (c : LruCache V)
      → length c.store ≤ fuel
      → Distinct c.store
      → evict fuel c ≡ evicted c
  evict_lem fuel c h d = evict_from fuel c.store c.evictions c h d

  pub create-IsValid : (size ttl : ℕ) → IsValid (create {V = V} size ttl)
  unfolding create
  create-IsValid size ttl = record { positive = omega arith; bounded = omega arith; distinct = tt }

  IsValid-evicted : (c : LruCache V) → 1 ≤ c.max_entries → Distinct c.store → IsValid (evicted c)
  IsValid-evicted c h d = record {
    positive = h;
    bounded = omega (arith, length-drop (length c.store - c.max_entries) c.store);
    distinct = Distinct-drop _ c.store d;
  }

  -- Moving a key to the end keeps the keys distinct.
  pub Distinct-touch :
      (k : String) (e : Entry V) (m : List (String × Entry V))
      → Distinct m
      → Distinct (map_set k e (map_delete k m))
  Distinct-touch k e m d =
      let gone = Absent-map_delete k m in
      rw (map_set-Absent k e (map_delete k m) gone)
        (Distinct-snoc k e (map_delete k m) (map_delete-Distinct k m d) gone)

  pub set_lem :
      (k : String) (v : V) (now : ℕ) (c : LruCache V)
      → Distinct c.store
      → set k v now c
        ≡ evicted (record c {
          store =
              map_delete k c.store ++ (k, record { value = v; expires_at = now + c.ttl_ms }) ∷ [];
        })
  unfolding set
  set_lem k v now c d =
      let e : Entry V = record { value = v; expires_at = now + c.ttl_ms } in
      evict_lem _ (record c { store = map_set k e (map_delete k c.store) }) (omega arith)
        (Distinct-touch k e c.store d)
      ∙ ap (λ m. evicted (record c { store = m }))
          (map_set-Absent k e (map_delete k c.store) (Absent-map_delete k c.store))

  pub set-IsValid :
      (k : String) (v : V) (now : ℕ) (c : LruCache V) → IsValid c → IsValid (set k v now c)
  set-IsValid k v now c h = rw (set_lem k v now c h.distinct) (
      IsValid-evicted _ h.positive (
        Distinct-snoc k _ _ (map_delete-Distinct k c.store h.distinct)
          (Absent-map_delete k c.store)))

  pub delete-IsValid : (k : String) (c : LruCache V) → IsValid c → IsValid (delete k c)
  unfolding delete
  delete-IsValid k c h = record {
    positive = h.positive;
    bounded = omega (arith, length-map_delete-le k c.store, h.bounded);
    distinct = map_delete-Distinct k c.store h.distinct;
  }

  length-touch :
      (k : String) (e : Entry V) (m : List (String × Entry V))
      → Distinct m
      → map_get k m ≡ some e
      → length (map_set k e (map_delete k m)) ≡ length m
  length-touch k e m d h = rw (map_set-Absent k e (map_delete k m) (Absent-map_delete k m)) (
      omega (arith, length-append (map_delete k m) ((k, e) ∷ []), length-map_delete-some k m e d h))

  pub get-IsValid : (k : String) (now : ℕ) (c : LruCache V) → IsValid c → IsValid (get k now c).1
  unfolding get
  get-IsValid k now c h = elim (Option-cases (map_get k c.store)) [
    | inl miss ↦
        rw (miss, get)
          (record { positive = h.positive; bounded = h.bounded; distinct = h.distinct })
    | inr (e, hit) ↦
        rw (hit, get)
          (elim (Bool-cases (leb e.expires_at now)) [
            | inl stale ↦ rw stale (record {
              positive = h.positive;
              bounded = omega (arith, length-map_delete-le k c.store, h.bounded);
              distinct = map_delete-Distinct k c.store h.distinct;
            })
            | inr live ↦ rw live (record {
              positive = h.positive;
              bounded = omega (arith, length-touch k e c.store h.distinct hit, h.bounded);
              distinct = Distinct-touch k e c.store h.distinct;
            })
          ])
  ]

pub create-ttl : (V : Type 0) (size ttl : ℕ) → (create {V = V} size ttl).ttl_ms ≡ ttl
unfolding create
create-ttl V size ttl = refl
