-- ===== src/RateLimit/Tests.antt =====
-- Two clients and a ceiling of two requests a second.
use Prim.Native.Nat.{min}
use expertos.Common.{ℕ, ◌≡◌, refl, inl, inr, List, [], ◌∷◌, String, arith}
use expertos.Cache.Lru
use expertos.RateLimit.{RateLimitService, Request, create, hit}
use expertos.Cache.Lru.Recency.{victim}
use expertos.RateLimit.Schedule.{create-IsReady, passes, asks, Undisturbed, IsClosed, passes_exact}

abbrev service : RateLimitService
service = create (record { window_ms = 1000; max = 2; max_tracked_keys = 10 })

abbrev at : String → ℕ → Request
at key now = record { key = key; now = now; now_get = now; now_set = now }

abbrev later : List Request
later = at "a" 5100 ∷ at "b" 5200 ∷ at "a" 5300 ∷ []

undisturbed : Undisturbed "a" 5000 later (hit (at "a" 5000) service).1
unfolding hit create Lru.get Lru.set Lru.evict Lru.create Lru.map_get Lru.map_delete Lru.map_set
    victim
undisturbed = (
  inl (
    refl,
    record {
      from = omega arith;
      now_until = omega arith;
      get_until = omega arith;
      set_from = omega arith;
    },
  ),
  (
    inr (refl, refl),
    (
      inl (
        refl,
        record {
          from = omega arith;
          now_until = omega arith;
          get_until = omega arith;
          set_from = omega arith;
        },
      ),
      tt,
    ),
  ),
)

closed : IsClosed service.window_ms 5000 (Lru.get "a" 5000 service.buckets).0
unfolding create Lru.get Lru.create Lru.map_get
closed = tt

passes_exact_example :
    passes "a" (at "a" 5000 ∷ later) service ≡ min (asks "a" (at "a" 5000 ∷ later)) service.max
passes_exact_example =
    passes_exact "a" (at "a" 5000) later service (create-IsReady _) refl (omega arith) closed
      undisturbed
