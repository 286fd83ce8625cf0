-- ===== src/Cache/Lru.antt =====
-- apps/api/src/cache/lru-cache.ts: the LRU cache with a time-to-live. The `Map` is the list of its
-- pairs in insertion order, the oldest first; the clock's readings are arguments.
pub mod Store
pub mod Validity
pub mod Recency
pub mod Entries
pub mod Prefix
pub mod Run
pub mod Recent
mod Tests
use text.Mathlib.Text.{starts_with}
use Prim.Native.Nat.{max}
use expertos.Common.{
  ℕ, zero, suc, ◌+◌, Bool, true, false, Option, none, some, List, [], ◌∷◌, ◌++◌, map, String,
  str_eq, if◌then◌else◌, ltb, leb, length, ◌==◌,
}

pub record Entry (V : Type 0) : Type 0 where
  pub value : V
  pub expires_at : ℕ

pub record LruCache (V : Type 0) : Type 0 where
  pub store : List (String × Entry V)
  pub max_entries : ℕ
  pub ttl_ms : ℕ
  pub hits : ℕ
  pub misses : ℕ
  pub evictions : ℕ
  pub expirations : ℕ

-- A quotient of two counts; the source's floating division is exact only in its arguments.
pub record Ratio : Type 0 where
  pub num : ℕ
  pub den : ℕ

pub record LruCacheStats : Type 0 where
  pub size : ℕ
  pub max_entries : ℕ
  pub hits : ℕ
  pub misses : ℕ
  pub evictions : ℕ
  pub expirations : ℕ
  pub hit_rate : Ratio

module _ {V : Type 0} where
  -- `Map.get`, `Map.delete`, `Map.set` and `Map.keys`.
  unfoldable pub map_get : String → List (String × V) → Option V
  map_get k [] = none
  map_get k ((j, v) ∷ m) = if str_eq j k then some v else map_get k m

  unfoldable pub map_delete : String → List (String × V) → List (String × V)
  map_delete k [] = []
  map_delete k ((j, v) ∷ m) = if str_eq j k then map_delete k m else (j, v) ∷ map_delete k m

  unfoldable pub map_set : String → V → List (String × V) → List (String × V)
  map_set k v [] = (k, v) ∷ []
  map_set k v ((j, w) ∷ m) = if str_eq j k then (j, v) ∷ m else (j, w) ∷ map_set k v m

  abbrev pub keys : List (String × V) → List String
  keys m = map (λ e. e.0) m

module _ {V : Type 0} where
  unfoldable pub create : ℕ → ℕ → LruCache V
  create max_entries ttl_ms = record {
    store = [];
    max_entries = max 1 max_entries;
    ttl_ms = ttl_ms;
    hits = 0;
    misses = 0;
    evictions = 0;
    expirations = 0;
  }

  -- `get` at the clock's reading `now`.
  unfoldable pub get : String → ℕ → LruCache V → Option V × LruCache V
  get key now c = elim (map_get key c.store) [
    | none ↦ (none, record c { misses = c.misses + 1 })
    | some entry ↦
        if leb entry.expires_at now
        then (
          none,
          record c {
            store = map_delete key c.store;
            misses = c.misses + 1;
            expirations = c.expirations + 1;
          },
        )
        else (
          some entry.value,
          record c { store = map_set key entry (map_delete key c.store); hits = c.hits + 1 },
        )
  ]

  -- The `while` loop of `set`: at most one round for each entry.
  unfoldable pub evict : ℕ → LruCache V → LruCache V
  evict zero c = c
  evict (suc fuel) c =
      let oldest : LruCache V = elim c.store [
        | [] ↦ c
        | (k, _) ∷ _ ↦
            evict fuel (record c { store = map_delete k c.store; evictions = c.evictions + 1 })
      ] in
      if ltb c.max_entries (length c.store) then oldest else c

  unfoldable pub set : String → V → ℕ → LruCache V → LruCache V
  set key value now c =
      let stored =
        map_set key (record { value = value; expires_at = now + c.ttl_ms })
          (map_delete key c.store) in
      evict (length stored) (record c { store = stored })

  pub delete : String → LruCache V → LruCache V
  delete key c = record c { store = map_delete key c.store }

  -- The loop of `deletePrefix` over the keys not visited yet.
  pub delete_prefix_from : String → List String → ℕ → LruCache V → ℕ × LruCache V
  delete_prefix_from prefix [] removed c = (removed, c)
  delete_prefix_from prefix (k ∷ ks) removed c =
      delete_prefix_from prefix ks (if starts_with k prefix then removed + 1 else removed)
        (if starts_with k prefix then delete k c else c)

  pub delete_prefix : String → LruCache V → ℕ × LruCache V
  delete_prefix prefix c = delete_prefix_from prefix (keys c.store) 0 c

  pub stats : LruCache V → LruCacheStats
  stats c =
      let lookups = c.hits + c.misses in
      record {
        size = length c.store;
        max_entries = c.max_entries;
        hits = c.hits;
        misses = c.misses;
        evictions = c.evictions;
        expirations = c.expirations;
        hit_rate =
            if lookups == 0
            then record { num = 0; den = 1 }
            else record { num = c.hits; den = lookups };
      }
