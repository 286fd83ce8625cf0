-- ===== src/Cache/Lru/Run.antt =====
-- The invariant and the counters of the cache over a whole run.
use Prim.Native.Nat.{max}
use expertos.Common.{
  ℕ, suc, ◌+◌, ◌≤◌, ◌≡◌, Bool, not, List, [], ◌∷◌, String, arith, length, keep, Bool-cases, inl,
  inr, refl, ◌∙◌,
}
use expertos.Cache.Lru.{LruCache, Entry, create, get, set, delete, delete_prefix}
use expertos.Cache.Lru.Store.{Absent, Distinct}
use expertos.Cache.Lru.Validity.{
  IsValid, create-IsValid, get-IsValid, set-IsValid, delete-IsValid, set_lem,
}
use expertos.Cache.Lru.Prefix.{starts, delete_prefix_lem}

-- The calls that a client makes, each with the clock's reading.
pub data Call (V : Type 0) : Type 0 where
  get_call : String → ℕ → Call V
  set_call : String → V → ℕ → Call V
  delete_call : String → Call V
  delete_prefix_call : String → Call V

module _ {V : Type 0} where
  unfoldable pub perform : Call V → LruCache V → LruCache V
  perform (get_call k now) c = (get k now c).1
  perform (set_call k v now) c = set k v now c
  perform (delete_call k) c = delete k c
  perform (delete_prefix_call prefix) c = (delete_prefix prefix c).1

  unfoldable pub perform_all : List (Call V) → LruCache V → LruCache V
  perform_all [] c = c
  perform_all (x ∷ xs) c = perform_all xs (perform x c)

  abbrev pub gets : List (Call V) → ℕ
  gets [] = 0
  gets (get_call _ _ ∷ xs) = suc (gets xs)
  gets (_ ∷ xs) = gets xs

  Distinct-keep :
      (p : String × Entry V → Bool) (m : List (String × Entry V)) → Distinct m → Distinct (keep p m)
  Distinct-keep p [] d = tt
  Distinct-keep p (e ∷ m) d = elim (Bool-cases (p e)) [
    | inl kept ↦ rw kept (Absent-keep e.0 m d.0, Distinct-keep p m d.1)
    | inr dropped ↦ rw dropped (Distinct-keep p m d.1)
  ]
    where
      Absent-keep : (k : String) (l : List (String × Entry V)) → Absent k l → Absent k (keep p l)
      Absent-keep k [] h = tt
      Absent-keep k (x ∷ l) h = ground (arith, Absent-keep k l h.1)

  length-keep-le :
      (p : String × Entry V → Bool) (m : List (String × Entry V)) → length (keep p m) ≤ length m
  length-keep-le p [] = omega arith
  length-keep-le p (e ∷ m) = ground (arith, length-keep-le p m)

  pub perform-IsValid : (x : Call V) (c : LruCache V) → IsValid c → IsValid (perform x c)
  unfolding perform
  perform-IsValid (get_call k now) c h = get-IsValid k now c h
  perform-IsValid (set_call k v now) c h = set-IsValid k v now c h
  perform-IsValid (delete_call k) c h = delete-IsValid k c h
  perform-IsValid (delete_prefix_call prefix) c h =
      rw (perform, delete_prefix_lem prefix c h.distinct)
        (record {
          positive = h.positive;
          bounded = omega (arith, length-keep-le (λ e. not (starts prefix e)) c.store, h.bounded);
          distinct = Distinct-keep (λ e. not (starts prefix e)) c.store h.distinct;
        })

  get_counts :
      (k : String) (now : ℕ) (c : LruCache V)
      → (get k now c).1.hits + (get k now c).1.misses ≡ suc (c.hits + c.misses)
  unfolding get
  get_counts k now c = ground arith

  perform_counts :
      (x : Call V) (c : LruCache V)
      → IsValid c
      → (perform x c).hits + (perform x c).misses ≡ c.hits + c.misses + gets (x ∷ [])
  unfolding perform delete
  perform_counts (get_call k now) c h = omega (arith, get_counts k now c)
  perform_counts (set_call k v now) c h = rw (perform, set_lem k v now c h.distinct) (omega arith)
  perform_counts (delete_call k) c h = omega arith
  perform_counts (delete_prefix_call prefix) c h =
      rw (perform, delete_prefix_lem prefix c h.distinct) (omega arith)

  gets_cons : (x : Call V) (xs : List (Call V)) → gets (x ∷ xs) ≡ gets (x ∷ []) + gets xs
  gets_cons (get_call k now) xs = omega arith
  gets_cons (set_call k v now) xs = omega arith
  gets_cons (delete_call k) xs = omega arith
  gets_cons (delete_prefix_call prefix) xs = omega arith

  perform_all_counts :
      (xs : List (Call V)) (c : LruCache V)
      → IsValid c
      → IsValid (perform_all xs c)
        × ((perform_all xs c).hits + (perform_all xs c).misses ≡ c.hits + c.misses + gets xs)
  unfolding perform_all
  perform_all_counts [] c h = (h, omega arith)
  perform_all_counts (x ∷ xs) c h =
      let (valid, total) = perform_all_counts xs (perform x c) (perform-IsValid x c h) in
      (valid, omega (arith, total, perform_counts x c h, gets_cons x xs))

  get_max : (k : String) (now : ℕ) (c : LruCache V) → (get k now c).1.max_entries ≡ c.max_entries
  unfolding get
  get_max k now c = ground arith

  pub perform_max :
      (x : Call V) (c : LruCache V) → IsValid c → (perform x c).max_entries ≡ c.max_entries
  unfolding perform delete
  perform_max (get_call k now) c h = get_max k now c
  perform_max (set_call k v now) c h = rw (perform, set_lem k v now c h.distinct) refl
  perform_max (delete_call k) c h = refl
  perform_max (delete_prefix_call prefix) c h =
      rw (perform, delete_prefix_lem prefix c h.distinct) refl

  perform_all_max :
      (xs : List (Call V)) (c : LruCache V)
      → IsValid c
      → (perform_all xs c).max_entries ≡ c.max_entries
  unfolding perform_all
  perform_all_max [] c h = refl
  perform_all_max (x ∷ xs) c h =
      perform_all_max xs (perform x c) (perform-IsValid x c h) ∙ perform_max x c h

  -- Whatever is called on a fresh cache, whatever size it was given: it never holds more than
  -- `max(1, size)` entries, its keys stay distinct, and every `get` is counted once, as a hit or as
  -- a miss.
  pub run-IsValid :
      (size ttl : ℕ) (xs : List (Call V))
      → (length (perform_all xs (create size ttl)).store ≤ max 1 size)
        × Distinct (perform_all xs (create size ttl)).store
        × ((perform_all xs (create size ttl)).hits + (perform_all xs (create size ttl)).misses
            ≡ gets xs)
  unfolding create
  run-IsValid size ttl xs =
      let (valid, total) = perform_all_counts xs (create size ttl) (create-IsValid size ttl) in
      let kept = perform_all_max xs (create size ttl) (create-IsValid size ttl) in
      (omega (arith, valid.bounded, kept), valid.distinct, omega (arith, total))
