-- ===== src/RateLimit.antt =====
-- apps/api/src/rate-limit: the per-client fixed-window request limiter, over the LRU cache.
pub mod Window
pub mod Schedule
pub mod Client
mod Settings
mod Tests
use expertos.Common.{
  ℕ, suc, ◌+◌, ◌-◌, ◌*◌, ◌/◌, Bool, true, false, not, Option, none, some, List, [], ◌∷◌, String,
  if◌then◌else◌, leb,
}
use expertos.Cache.Lru
use expertos.Cache.Lru.{LruCache}

pub record RateLimitOptions : Type 0 where
  pub window_ms : ℕ
  pub max : ℕ
  pub max_tracked_keys : ℕ

pub record RateLimitResult : Type 0 where
  pub allowed : Bool
  pub limit : ℕ
  pub remaining : ℕ
  pub reset_at : ℕ
  pub retry_after_ms : ℕ

pub record Bucket : Type 0 where
  pub count : ℕ
  pub window_start : ℕ

pub record RateLimitService : Type 0 where
  pub window_ms : ℕ
  pub max : ℕ
  pub buckets : LruCache Bucket

-- One request: its key, and what the clock reads in `hit`, in the cache's `get` and in its `set`.
pub record Request : Type 0 where
  pub key : String
  pub now : ℕ
  pub now_get : ℕ
  pub now_set : ℕ

pub create : RateLimitOptions → RateLimitService
create options = record {
  window_ms = options.window_ms;
  max = options.max;
  buckets = Lru.create options.max_tracked_keys (options.window_ms * 2);
}

-- The bucket that a request writes, from the one that is found.
pub next_bucket : ℕ → ℕ → Option Bucket → Bucket
next_bucket window now none = record { count = 1; window_start = now }
next_bucket window now (some existing) =
    if leb window (now - existing.window_start)
    then record { count = 1; window_start = now }
    else record { count = existing.count + 1; window_start = existing.window_start }

pub verdict : RateLimitService → ℕ → Bucket → RateLimitResult
verdict s now bucket =
    let reset_at = bucket.window_start + s.window_ms in
    let allowed = leb bucket.count s.max in
    record {
      allowed = allowed;
      limit = s.max;
      remaining = s.max - bucket.count;
      reset_at = reset_at;
      retry_after_ms = if allowed then 0 else reset_at - now;
    }

pub hit : Request → RateLimitService → RateLimitResult × RateLimitService
hit r s =
    let (existing, read) = Lru.get r.key r.now_get s.buckets in
    let bucket = next_bucket s.window_ms r.now existing in
    (verdict s r.now bucket, record s { buckets = Lru.set r.key bucket r.now_set read })

-- `Math.ceil(ms / 1000)`.
abbrev pub ceil_seconds : ℕ → ℕ
ceil_seconds ms = (ms + 999) / 1000

-- The answer of the guard: the `X-RateLimit-*` headers, and `Retry-After` with the error 429.
pub record Headers : Type 0 where
  pub rate_limit_limit : ℕ
  pub rate_limit_remaining : ℕ
  pub rate_limit_reset : ℕ
  pub retry_after : Option ℕ

pub headers : RateLimitResult → Option ℕ → Headers
headers result retry_after = record {
  rate_limit_limit = result.limit;
  rate_limit_remaining = result.remaining;
  rate_limit_reset = ceil_seconds result.reset_at;
  retry_after = retry_after;
}

pub data GuardOutcome : Type 0 where
  skipped : GuardOutcome
  passed : Headers → GuardOutcome
  too_many_requests : Headers → ℕ → GuardOutcome

-- `canActivate`, from the route's `@SkipRateLimit` mark and the request of the client's address.
pub can_activate : Bool → Request → RateLimitService → GuardOutcome × RateLimitService
can_activate true r s = (skipped, s)
can_activate false r s =
    let (result, s') = hit r s in
    let retry_after_seconds = ceil_seconds result.retry_after_ms in
    if not result.allowed
    then (too_many_requests (headers result (some retry_after_seconds)) retry_after_seconds, s')
    else (passed (headers result none), s')
