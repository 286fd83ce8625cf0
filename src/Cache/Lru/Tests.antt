-- ===== src/Cache/Lru/Tests.antt =====
-- A cache of two entries: each property at a concrete run.
use expertos.Common.{
  ℕ, length, ◌≤◌, ◌+◌, ◌<◌, ◌≡◌, ◌≢◌, refl, none, some, List, [], ◌∷◌, String, arith, if◌then◌else◌,
  ltb, eq_iff,
}
use expertos.Cache.Lru.{LruCache, create, get, set, evict, map_set, map_delete, map_get}
use expertos.Cache.Lru.Store.{Distinct}
use expertos.Cache.Lru.Validity.{IsValid, create-IsValid, set-IsValid}
use expertos.Cache.Lru.Recency.{get-set_self}
use expertos.Cache.Lru.Recent.{recently_used_stays}
use expertos.Cache.Lru.Run.{
  Call, get_call, set_call, delete_call, delete_prefix_call, perform_all, run-IsValid,
}

abbrev calls : List (Call ℕ)
calls =
    set_call "a" 1 10
    ∷ set_call "b" 2 11
    ∷ get_call "a" 12
    ∷ set_call "c" 3 13
    ∷ get_call "b" 14
    ∷ delete_prefix_call "a"
    ∷ delete_call "c"
    ∷ []

run-IsValid_example :
    (length (perform_all calls (create 2 100)).store ≤ 2)
    × Distinct (perform_all calls (create 2 100)).store
    × ((perform_all calls (create 2 100)).hits + (perform_all calls (create 2 100)).misses ≡ 2)
run-IsValid_example = run-IsValid 2 100 calls

-- The cache holds `a` and then `b`, and is full.
abbrev full : LruCache ℕ
full = set "b" 2 11 (set "a" 1 10 (create 2 100))

full-IsValid : IsValid full
full-IsValid = set-IsValid "b" 2 11 _ (set-IsValid "a" 1 10 _ (create-IsValid 2 100))

get-set_self_example :
    (get "c" 50 (set "c" 3 13 full)).0 ≡ (if ltb 50 (13 + full.ttl_ms) then some 3 else none)
get-set_self_example = get-set_self "c" 3 13 50 full full-IsValid

abbrev key_a : String
key_a = "a"

abbrev key_c : String
key_c = "c"

apart : key_c ≢ key_a
apart e = ground (arith, eq_iff key_c key_a)

a_found : (get "a" 12 full).0 ≡ some 1
unfolding get set evict create map_set map_delete map_get
a_found = refl

room_left : 1 < full.max_entries
unfolding set evict create map_set map_delete
room_left = omega arith

recently_used_stays_example :
    (get "a" 50 (perform_all (set_call "c" 3 13 ∷ []) (get "a" 12 full).1)).0 ≡ (get "a" 50 full).0
recently_used_stays_example =
    recently_used_stays "a" 12 50 1 full (set_call "c" 3 13 ∷ []) full-IsValid a_found (apart, tt)
      room_left

least_recent_evicted : (get "a" 50 (set "c" 3 13 full)).0 ≡ none
unfolding get set evict create map_set map_delete map_get
least_recent_evicted = refl
