-- ===== src/Cache/Lru/Store.antt =====
-- Laws of the insertion-ordered map under the cache.
use expertos.Common.{
  suc, ◌≤◌, ◌≡◌, refl, true, false, some, List, [], ◌∷◌, ◌++◌, String, str_eq, eq_iff, arith,
  length, All, ap, Bool-cases, inl, inr,
}
use expertos.Cache.Lru.{map_get, map_delete, map_set}

pub str_eq_refl : (k : String) → str_eq k k ≡ true
str_eq_refl k = (eq_iff k k).1 refl

module _ {V : Type 0} where
  -- No key occurs in the list.
  abbrev pub Absent : String → List (String × V) → Type 0
  Absent k m = All (λ e. str_eq e.0 k ≡ false) m

  abbrev pub Distinct : List (String × V) → Type 0
  Distinct [] = Unit
  Distinct ((k, _) ∷ m) = Absent k m × Distinct m

  pub Absent-map_delete : (k : String) (m : List (String × V)) → Absent k (map_delete k m)
  unfolding map_delete
  Absent-map_delete k [] = tt
  Absent-map_delete k ((j, v) ∷ m) = ground (arith, Absent-map_delete k m)

  pub Absent-map_delete_other :
      (k j : String) (m : List (String × V)) → Absent k m → Absent k (map_delete j m)
  unfolding map_delete
  Absent-map_delete_other k j [] h = tt
  Absent-map_delete_other k j ((i, v) ∷ m) h = ground (arith, Absent-map_delete_other k j m h.1)

  pub map_delete-Distinct :
      (k : String) (m : List (String × V)) → Distinct m → Distinct (map_delete k m)
  unfolding map_delete
  map_delete-Distinct k [] h = tt
  map_delete-Distinct k ((j, v) ∷ m) h =
      ground (arith, map_delete-Distinct k m h.1, Absent-map_delete_other j k m h.0)

  -- Setting an absent key appends.
  pub map_set-Absent :
      (k : String) (v : V) (m : List (String × V)) → Absent k m → map_set k v m ≡ m ++ (k, v) ∷ []
  unfolding map_set
  map_set-Absent k v [] h = refl
  map_set-Absent k v ((j, w) ∷ m) h = rw (h.0) (ap (◌∷◌ (j, w)) (map_set-Absent k v m h.1))

  pub map_delete-Absent : (k : String) (m : List (String × V)) → Absent k m → map_delete k m ≡ m
  unfolding map_delete
  map_delete-Absent k [] h = refl
  map_delete-Absent k ((j, v) ∷ m) h = rw (h.0) (ap (◌∷◌ (j, v)) (map_delete-Absent k m h.1))

  pub Absent-snoc :
      (j k : String) (v : V) (m : List (String × V))
      → Absent j m
      → str_eq k j ≡ false
      → Absent j (m ++ (k, v) ∷ [])
  Absent-snoc j k v [] h e = (e, tt)
  Absent-snoc j k v (x ∷ m) h e = (h.0, Absent-snoc j k v m h.1 e)

  pub Distinct-snoc :
      (k : String) (v : V) (m : List (String × V))
      → Distinct m
      → Absent k m
      → Distinct (m ++ (k, v) ∷ [])
  Distinct-snoc k v [] d h = (tt, tt)
  Distinct-snoc k v ((j, w) ∷ m) d h = (
    Absent-snoc j k v m d.0 (ground (arith, eq_iff j k, eq_iff k j, h.0)),
    Distinct-snoc k v m d.1 h.1,
  )

  pub map_get_snoc_self :
      (k : String) (v : V) (m : List (String × V))
      → Absent k m
      → map_get k (m ++ (k, v) ∷ []) ≡ some v
  unfolding map_get
  map_get_snoc_self k v [] h = rw (str_eq_refl k)
  map_get_snoc_self k v ((j, w) ∷ m) h = rw (h.0) (map_get_snoc_self k v m h.1)

  pub map_get_snoc_ne :
      (k j : String) (v : V) (m : List (String × V))
      → str_eq k j ≡ false
      → map_get j (m ++ (k, v) ∷ []) ≡ map_get j m
  unfolding map_get
  map_get_snoc_ne k j v [] h = rw h
  map_get_snoc_ne k j v ((i, w) ∷ m) h = ground (arith, map_get_snoc_ne k j v m h)

  pub map_get-map_delete_ne :
      (k j : String) (m : List (String × V))
      → str_eq k j ≡ false
      → map_get j (map_delete k m) ≡ map_get j m
  unfolding map_get map_delete
  map_get-map_delete_ne k j [] h = refl
  map_get-map_delete_ne k j ((i, w) ∷ m) h =
      ground (arith, map_get-map_delete_ne k j m h, eq_iff i k, eq_iff i j, eq_iff k j)

  pub length-map_delete-le :
      (k : String) (m : List (String × V)) → length (map_delete k m) ≤ length m
  unfolding map_delete
  length-map_delete-le k [] = omega arith
  length-map_delete-le k ((j, v) ∷ m) = ground (arith, length-map_delete-le k m)

  -- A present, distinct key: deleting it shortens the map by one.
  pub length-map_delete-some :
      (k : String) (m : List (String × V)) (v : V)
      → Distinct m
      → map_get k m ≡ some v
      → suc (length (map_delete k m)) ≡ length m
  unfolding map_get map_delete
  length-map_delete-some k [] v d h = cc
  length-map_delete-some k ((j, w) ∷ m) v d h = elim (Bool-cases (str_eq j k)) [
    | inl e ↦
        let same : j ≡ k = (eq_iff j k).0 e in
        rw e (ap (λ l. suc (length l)) (map_delete-Absent k m (rw same at d.0)))
    | inr e ↦ rw e (ap suc (length-map_delete-some k m v d.1 (rw e at h)))
  ]

  Absent-split :
      (k j : String) (v : V) (done todo : List (String × V))
      → Absent k (done ++ (j, v) ∷ todo)
      → (str_eq j k ≡ false) × Absent k (done ++ todo)
  Absent-split k j v [] todo h = h
  Absent-split k j v (x ∷ done) todo h =
      let (differ, rest) = Absent-split k j v done todo h.1 in (differ, (h.0, rest))

  -- Deleting a key from the middle of a map with distinct keys.
  pub map_delete_middle :
      (k : String) (v : V) (done todo : List (String × V))
      → Distinct (done ++ (k, v) ∷ todo)
      → (map_delete k (done ++ (k, v) ∷ todo) ≡ done ++ todo) × Distinct (done ++ todo)
  unfolding map_delete
  map_delete_middle k v [] todo d = (rw (str_eq_refl k) (map_delete-Absent k todo d.0), d.1)
  map_delete_middle k v ((j, w) ∷ done) todo d =
      let (differ, rest) = Absent-split j k v done todo d.0 in
      let other : str_eq j k ≡ false = ground (arith, eq_iff j k, eq_iff k j) in
      let (same, d') = map_delete_middle k v done todo d.1 in
      (rw other (ap (◌∷◌ (j, w)) same), (rest, d'))
