-- ===== src/Booking/Targets.antt =====
-- Whom a run polls, and with which credentials (booking.service.ts, resolveTargets, and
-- tidycal-provider.factory.ts).
pub mod Own
use expertos.Common.{
  ℕ, suc, ◌-◌, Bool, true, false, not, ◌&&◌, Option, none, some, List, [], ◌∷◌, String, str_eq,
  if◌then◌else◌, is_some, or_else, or_option, map_option,
}
use expertos.Orm.{Prisma, unordered}
use expertos.Booking.Model.{BookingDb, Expert, ProviderEnv, TidyCalProvider, truthy}

pub record PollTarget : Type 0 where
  pub expert_id : Option String
  pub provider : TidyCalProvider
  pub since : ℕ
  pub polled_at : Option ℕ

pub record ReconcileInput : Type 0 where
  pub expert_id : Option String
  pub since : Option ℕ

-- `TidyCalProviderFactory.default`.
unfoldable pub default_provider : ProviderEnv → TidyCalProvider
default_provider env = elim (truthy env.tidycal_api_token) [
  | some token ↦ env.http_provider token
  | none ↦ env.offline_provider
]

-- `TidyCalProviderFactory.forExpert`: `none` skips the expert.
unfoldable pub for_expert : ProviderEnv → Expert → Option TidyCalProvider
for_expert env expert = elim (truthy expert.tidycal_api_token_enc) [
  | some sealed ↦ map_option env.http_provider (env.decrypt_secret sealed)
  | none ↦ some (default_provider env)
]

abbrev pub default_reconcile_lookback_ms : ℕ
default_reconcile_lookback_ms = 86400000

-- The loop of `resolveTargets`.
unfoldable pub poll_targets : ProviderEnv → Option ℕ → ℕ → ℕ → List Expert → List PollTarget × ℕ
poll_targets env since fallback_since now [] = ([], 0)
poll_targets env since fallback_since now (expert ∷ experts) =
    let (targets, failed) = poll_targets env since fallback_since now experts in
    elim (for_expert env expert) [
      | none ↦ (targets, suc failed)
      | some provider ↦ (
        record {
          expert_id = some expert.id;
          provider = provider;
          since = or_else (or_option since expert.tidycal_polled_at) fallback_since;
          polled_at = some now;
        }
            ∷ targets,
        failed,
      )
    ]

-- Which experts a run asks for.
unfoldable pub is_polled : ReconcileInput → Expert → Bool
is_polled input e = elim input.expert_id [
  | some id ↦ str_eq e.id id
  | none ↦ is_some e.tidycal_api_token_enc
]

-- `resolveTargets` after its query.
unfoldable pub targets_for : ProviderEnv → ReconcileInput → ℕ → List Expert → List PollTarget × ℕ
targets_for env input now [] =
    if not (is_some input.expert_id) && is_some (truthy env.tidycal_api_token)
    then (
      record {
        expert_id = none;
        provider = default_provider env;
        since = or_else input.since (now - default_reconcile_lookback_ms);
        polled_at = none;
      }
          ∷ [],
      0,
    )
    else ([], 0)
targets_for env input now (expert ∷ experts) =
    poll_targets env input.since (or_else input.since (now - default_reconcile_lookback_ms)) now
      (expert ∷ experts)

unfoldable pub resolve_targets :
    Prisma → ProviderEnv → ReconcileInput → ℕ → BookingDb → List PollTarget × ℕ
resolve_targets P env input now db =
    targets_for env input now (P.find_many (is_polled input) unordered db.experts)
