-- ===== src/RateLimit/Schedule.antt =====
-- The limiter over a schedule of requests of many clients, seen from one of them.
use Prim.Native.Nat.{min}
use expertos.Common.{
  ℕ, ◌+◌, ◌-◌, ◌≤◌, ◌≡◌, ◌⊎◌, refl, false, ◌&&◌, Option, none, some, List, [], ◌∷◌, String, str_eq,
  eq_iff, if◌then◌else◌, leb, arith, inl, inr,
}
use expertos.Cache.Lru
use expertos.Cache.Lru.Validity.{get-IsValid, create-IsValid, create-ttl}
use expertos.Cache.Lru.Recency.{any_key, victim}
use expertos.Cache.Lru.Entries.{get-settings, map_get-set_self}
use expertos.RateLimit.{
  RateLimitService, RateLimitOptions, Request, Bucket, hit, next_bucket, verdict, create,
}
use expertos.RateLimit.Window.{IsReady, Counted, Within, hit-IsReady, hit-Counted, hit-Counted_ne}

-- A new service is ready, whatever its options are.
pub create-IsReady : (options : RateLimitOptions) → IsReady (create options)
unfolding create
create-IsReady options = record { valid = create-IsValid _ _; outlives = create-ttl Bucket _ _ }

-- No window is open for what the cache returned: there is no bucket, or its window has elapsed.
abbrev pub IsClosed : ℕ → ℕ → Option Bucket → Type 0
IsClosed window now none = Unit
IsClosed window now (some b) = window ≤ now - b.window_start

module _ (k : String) where
  -- How many requests of the client pass, and how many it makes.
  pub passes : List Request → RateLimitService → ℕ
  passes [] s = 0
  passes (r ∷ rs) s =
      (if str_eq r.key k && (hit r s).0.allowed then 1 else 0) + passes rs (hit r s).1

  abbrev pub asks : List Request → ℕ
  asks [] = 0
  asks (r ∷ rs) = (if str_eq r.key k then 1 else 0) + asks rs

  module _ (start : ℕ) where
    -- The client's requests fall in its window, and no other request evicts its bucket.
    abbrev pub Undisturbed : List Request → RateLimitService → Type 0
    Undisturbed [] s = Unit
    Undisturbed (r ∷ rs) s =
        ((r.key ≡ k) × Within start s.window_ms r
          ⊎ (str_eq r.key k ≡ false)
            × (any_key k (victim r.key (Lru.get r.key r.now_get s.buckets).1) ≡ false))
        × Undisturbed rs (hit r s).1

    hit-settings : (r : Request) (s : RateLimitService) → (hit r s).1.max ≡ s.max
    unfolding hit
    hit-settings r s = refl

    passes_from :
        (n : ℕ) (rs : List Request) (s : RateLimitService)
        → IsReady s
        → Counted k start n s
        → Undisturbed rs s
        → passes rs s + min n s.max ≡ min (n + asks rs) s.max
    unfolding passes
    passes_from n [] s h c u = omega arith
    passes_from n (r ∷ rs) s h c (inl (same, within), u) =
        let (c', passed) = hit-Counted k start n r s h same within c in
        let mine = (eq_iff r.key k).1 same in
        let ih = passes_from (n + 1) rs (hit r s).1 (hit-IsReady r s h) c' u in
        rw (mine, passed) (ground (arith, ih, hit-settings r s))
    passes_from n (r ∷ rs) s h c (inr (other, kept), u) =
        let c' = hit-Counted_ne k start n r s h other kept c in
        let ih = passes_from n rs (hit r s).1 (hit-IsReady r s h) c' u in
        rw other (omega (arith, ih, hit-settings r s))

  next_fresh :
      (window now : ℕ) (o : Option Bucket)
      → IsClosed window now o
      → next_bucket window now o ≡ record { count = 1; window_start = now }
  unfolding next_bucket
  next_fresh window now none c = refl
  next_fresh window now (some b) c = ground arith

  -- The request that opens the window.
  opening :
      (r : Request) (s : RateLimitService)
      → IsReady s
      → r.key ≡ k
      → r.now ≤ r.now_set
      → IsClosed s.window_ms r.now (Lru.get r.key r.now_get s.buckets).0
      → Counted k r.now 1 (hit r s).1 × ((hit r s).0.allowed ≡ leb 1 s.max)
  unfolding hit verdict
  opening r s h same order closed =
      let read = (Lru.get r.key r.now_get s.buckets).1 in
      let fresh : Bucket = record { count = 1; window_start = r.now } in
      rw (hit, next_fresh s.window_ms r.now (Lru.get r.key r.now_get s.buckets).0 closed)
        (
          record {
            entry = record { value = fresh; expires_at = r.now_set + read.ttl_ms };
            found = rw same (
                map_get-set_self k fresh r.now_set (Lru.get k r.now_get s.buckets).1
                  (get-IsValid k r.now_get s.buckets h.valid));
            count = refl;
            opened = refl;
            lasts = omega (arith, (get-settings r.key r.now_get s.buckets).1, h.outlives, order);
          },
          refl,
        )

  -- On a ready service, from a client's request that opens a window on: as long as the client's
  -- further requests fall in that window and no other client's request evicts its bucket, exactly
  -- the first `max` of the client's requests pass, however the other clients' requests come between.
  pub passes_exact :
      (r : Request) (rs : List Request) (s : RateLimitService)
      → IsReady s
      → r.key ≡ k
      → r.now ≤ r.now_set
      → IsClosed s.window_ms r.now (Lru.get r.key r.now_get s.buckets).0
      → Undisturbed r.now rs (hit r s).1
      → passes (r ∷ rs) s ≡ min (asks (r ∷ rs)) s.max
  unfolding passes
  passes_exact r rs s h same order closed u =
      let (c, passed) = opening r s h same order closed in
      let mine = (eq_iff r.key k).1 same in
      let ih = passes_from r.now 1 rs (hit r s).1 (hit-IsReady r s h) c u in
      rw (mine, passed) (ground (arith, ih, hit-settings r.now r s))
