-- ===== src/RateLimit/Client.antt =====
-- The key of a client (rate-limit.guard.ts, clientIp) and the options from the environment
-- (rate-limit.config.ts).
use expertos.Common.{
  ℕ, Bool, ◌&&◌, Option, none, some, List, [], ◌∷◌, String, str_eq, if◌then◌else◌, or_else,
  or_option,
}
use expertos.RateLimit.{RateLimitOptions}

pub data Header : Type 0 where
  absent : Header
  one : String → Header
  many : List String → Header

pub record RateLimitedRequest : Type 0 where
  pub forwarded_for : Header
  pub ip : Option String
  pub remote_address : Option String

-- The first value of a header that may come more than once.
unfoldable pub header_value : Header → Option String
header_value absent = none
header_value (one s) = some s
header_value (many []) = none
header_value (many (s ∷ ss)) = some s

unfoldable pub truthy_text : Option String → Option String
truthy_text none = none
truthy_text (some s) = if str_eq s "" then none else some s

-- `first_hop` is what stands before the first comma, trimmed.
unfoldable pub client_ip : (String → String) → RateLimitedRequest → String
client_ip first_hop req =
    let peer = or_else (or_option req.ip req.remote_address) "unknown" in
    elim (truthy_text (header_value req.forwarded_for)) [
      | none ↦ peer
      | some raw ↦ or_else (truthy_text (some (first_hop raw))) peer
    ]

-- The platform's numbers: `Number`, `Number.isFinite`, the comparison with 0 and `Math.floor`.
pub record Numbers (N : Type 0) : Type 0 where
  pub read : String → N
  pub is_finite : N → Bool
  pub is_positive : N → Bool
  pub floor : N → ℕ

pub record RateLimitEnv : Type 0 where
  pub rate_limit_window_ms : Option String
  pub rate_limit_max : Option String
  pub rate_limit_max_keys : Option String

-- `DEFAULTS`.
abbrev defaults : RateLimitOptions
defaults = record { window_ms = 60000; max = 300; max_tracked_keys = 50000 }

module _ {N : Type 0} (J : Numbers N) where
  unfoldable pub positive_int : Option String → ℕ → ℕ
  positive_int none fallback = fallback
  positive_int (some raw) fallback =
      let parsed = J.read raw in
      if J.is_finite parsed && J.is_positive parsed then J.floor parsed else fallback

  unfoldable pub resolve_rate_limit_options : RateLimitEnv → RateLimitOptions
  resolve_rate_limit_options env = record {
    window_ms = positive_int env.rate_limit_window_ms defaults.window_ms;
    max = positive_int env.rate_limit_max defaults.max;
    max_tracked_keys = positive_int env.rate_limit_max_keys defaults.max_tracked_keys;
  }
