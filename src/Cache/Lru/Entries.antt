-- ===== src/Cache/Lru/Entries.antt =====
-- The entry under a key after a `get` and after a `set` of the same or another key.
use expertos.Common.{
  ℕ, ◌+◌, ◌≡◌, refl, false, some, String, str_eq, leb, arith, Bool-cases, Option-cases, inl, inr,
  ◌∙◌,
}
use expertos.Cache.Lru.{LruCache, map_get, get, set}
use expertos.Cache.Lru.Store.{
  Absent-map_delete, map_get-map_delete_ne, map_set-Absent, map_get_snoc_ne,
}
use expertos.Cache.Lru.Validity.{IsValid, set_lem}
use expertos.Cache.Lru.Recency.{any_key, victim, stored_self, stored_ne, map_get-drop_one}

-- A `get` moves or drops its own key only.
pub map_get-get_ne :
    {V : Type 0} (k j : String) (now : ℕ) (c : LruCache V)
    → str_eq k j ≡ false
    → map_get j (get k now c).1.store ≡ map_get j c.store
unfolding get
map_get-get_ne k j now c ne = elim (Option-cases (map_get k c.store)) [
  | inl miss ↦ rw (miss, get)
  | inr (e, found) ↦
      rw (found, get)
        (elim (Bool-cases (leb e.expires_at now)) [
          | inl stale ↦ rw stale (map_get-map_delete_ne k j c.store ne)
          | inr fresh ↦
              rw (fresh, map_set-Absent k e _ (Absent-map_delete k c.store))
                (map_get_snoc_ne k j e _ ne ∙ map_get-map_delete_ne k j c.store ne)
        ])
]

pub get-settings :
    {V : Type 0} (k : String) (now : ℕ) (c : LruCache V)
    → ((get k now c).1.max_entries ≡ c.max_entries) × ((get k now c).1.ttl_ms ≡ c.ttl_ms)
unfolding get
get-settings k now c = ground arith

pub set-settings :
    {V : Type 0} (k : String) (v : V) (now : ℕ) (c : LruCache V)
    → IsValid c
    → ((set k v now c).max_entries ≡ c.max_entries) × ((set k v now c).ttl_ms ≡ c.ttl_ms)
set-settings k v now c h = rw (set_lem k v now c h.distinct) (refl, refl)

-- The entry under a key after it is set, and after another key is set that does not evict it.
pub map_get-set_self :
    {V : Type 0} (k : String) (v : V) (now : ℕ) (c : LruCache V)
    → IsValid c
    → map_get k (set k v now c).store ≡ some (record { value = v; expires_at = now + c.ttl_ms })
map_get-set_self k v now c h = rw (set_lem k v now c h.distinct) (stored_self k _ c h)

pub map_get-set_ne :
    {V : Type 0} (k j : String) (v : V) (now : ℕ) (c : LruCache V)
    → IsValid c
    → str_eq k j ≡ false
    → any_key j (victim k c) ≡ false
    → map_get j (set k v now c).store ≡ map_get j c.store
map_get-set_ne k j v now c h ne kept =
    rw (set_lem k v now c h.distinct, stored_ne k j _ c h ne, map_get-drop_one j c.store h.distinct)
      (ground arith)
