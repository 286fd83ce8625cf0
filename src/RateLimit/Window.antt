-- ===== src/RateLimit/Window.antt =====
-- How many requests of one client pass in one window.
use expertos.Common.{ℕ, ◌+◌, ◌*◌, ◌≤◌, ◌<◌, ◌≡◌, refl, false, some, String, str_eq, leb, arith, ◌∙◌}
use expertos.Cache.Lru
use expertos.Cache.Lru.{LruCache, Entry, map_get}
use expertos.Cache.Lru.Validity.{IsValid, get-IsValid, set-IsValid}
use expertos.Cache.Lru.Recency.{get-live, any_key, victim}
use expertos.Cache.Lru.Entries.{
  map_get-get_ne, get-settings, set-settings, map_get-set_self, map_get-set_ne,
}
use expertos.RateLimit.{RateLimitService, Request, Bucket, hit, next_bucket, verdict}

-- A service as its constructor makes it: a valid cache whose entries outlive a window.
pub record IsReady (s : RateLimitService) : Type 0 where
  pub valid : IsValid s.buckets
  pub outlives : s.buckets.ttl_ms ≡ s.window_ms * 2

pub hit-IsReady : (r : Request) (s : RateLimitService) → IsReady s → IsReady (hit r s).1
unfolding hit
hit-IsReady r s h =
    let read = (Lru.get r.key r.now_get s.buckets).1 in
    let valid = get-IsValid r.key r.now_get s.buckets h.valid in
    record {
      valid = set-IsValid r.key _ r.now_set read valid;
      outlives =
          (set-settings r.key _ r.now_set read valid).1
          ∙ (get-settings r.key r.now_get s.buckets).1
          ∙ h.outlives;
    }

-- The client's bucket stands in the cache with `n` requests counted since `start`, and lives for
-- the rest of the window.
pub record Counted (k : String) (start n : ℕ) (s : RateLimitService) : Type 0 where
  pub entry : Entry Bucket
  pub found : map_get k s.buckets.store ≡ some entry
  pub count : entry.value.count ≡ n
  pub opened : entry.value.window_start ≡ start
  pub lasts : start + s.window_ms ≤ entry.expires_at

-- The clock reads within the window that opened at `start`, three times in a row.
pub record Within (start window : ℕ) (r : Request) : Type 0 where
  pub from : start ≤ r.now
  pub now_until : r.now < start + window
  pub get_until : r.now_get < start + window
  pub set_from : start ≤ r.now_set

module _ (k : String) (start n : ℕ) where
  -- The bucket that the request writes.
  counted_bucket : Bucket
  counted_bucket = record { count = n + 1; window_start = start }

  next-Counted :
      (r : Request) (s : RateLimitService)
      → r.key ≡ k
      → Within start s.window_ms r
      → Counted k start n s
      → next_bucket s.window_ms r.now (Lru.get r.key r.now_get s.buckets).0 ≡ counted_bucket
  unfolding next_bucket counted_bucket
  next-Counted r s same w c =
      rw (get-live r.key r.now_get s.buckets, same, c.found)
        (ground (arith, w.from, w.now_until, w.get_until, c.lasts, c.count, c.opened))

  -- One more request of the client in its window: it counts one more, and passes up to `max`.
  pub hit-Counted :
      (r : Request) (s : RateLimitService)
      → IsReady s
      → r.key ≡ k
      → Within start s.window_ms r
      → Counted k start n s
      → Counted k start (n + 1) (hit r s).1 × ((hit r s).0.allowed ≡ leb (n + 1) s.max)
  unfolding hit verdict counted_bucket
  hit-Counted r s h same w c =
      let read = (Lru.get r.key r.now_get s.buckets).1 in
      rw (hit, next-Counted r s same w c)
        (
          record {
            entry = record { value = counted_bucket; expires_at = r.now_set + read.ttl_ms };
            found = rw same (
                map_get-set_self k counted_bucket r.now_set (Lru.get k r.now_get s.buckets).1
                  (get-IsValid k r.now_get s.buckets h.valid));
            count = refl;
            opened = refl;
            lasts =
                omega (arith, (get-settings r.key r.now_get s.buckets).1, h.outlives, w.set_from);
          },
          refl,
        )

  -- A request of another client whose bucket does not push the first one out changes nothing.
  pub hit-Counted_ne :
      (r : Request) (s : RateLimitService)
      → IsReady s
      → str_eq r.key k ≡ false
      → any_key k (victim r.key (Lru.get r.key r.now_get s.buckets).1) ≡ false
      → Counted k start n s
      → Counted k start n (hit r s).1
  unfolding hit
  hit-Counted_ne r s h ne kept c = record {
    entry = c.entry;
    found =
        map_get-set_ne r.key k _ r.now_set _ (get-IsValid r.key r.now_get s.buckets h.valid) ne kept
        ∙ map_get-get_ne r.key k r.now_get s.buckets ne
        ∙ c.found;
    count = c.count;
    opened = c.opened;
    lasts = c.lasts;
  }
