-- ===== src/Entitlement.antt =====
-- apps/api/src/entitlements/entitlement.service.ts: what a plan grants, the metered quota, and the
-- gate that reserves a unit before the work. The database client is the parameter `P`.
mod Model
pub use Model.*
pub mod Window
pub mod Standing
pub mod Gate
pub mod Wall
pub mod Reserve
pub mod Quota
pub mod Schedule
pub mod Offers
pub mod Resolution
mod Tests
use Prim.Native.Nat.{max}
use expertos.Common.{
  ℕ, ◌+◌, ◌-◌, Bool, true, false, not, ◌&&◌, ◌||◌, Option, none, some, List, [], ◌∷◌, map, String,
  str_eq, if◌then◌else◌, ltb, leb, ◌==◌, is_some, or_else, map_option, keep,
}
use expertos.Orm.{Prisma, unordered, asc, desc}
use expertos.Database.{Result, ok, err, ◌>>=◌, run}
use expertos.Database.Rows.{
  Plan, PlanPrice, Feature, FeatureType, PlanEntitlement, Subscription, UsageCounter, UsageWindow,
  BillingInterval, AuthUser, is_live, same_window,
}
use expertos.Entitlement.Window.{current_window_start}

abbrev pub free_plan_key : String
free_plan_key = "free"

-- The row of the unique key `(userId, featureKey, window, windowStart)`.
abbrev pub is_counter : ℕ → String → UsageWindow → ℕ → UsageCounter → Bool
is_counter user feature window start c =
    c.user_id == user
    && str_eq c.feature_key feature
    && same_window c.window window
    && c.window_start == start

-- Past the fair-use threshold the answer degrades.
pub soften : Option ℕ → ℕ → String → Decision
soften none count feature = allow
soften (some soft_limit) count feature = if ltb soft_limit count then degraded feature else allow

-- `p.prices.length > 0`.
abbrev has_price : List PlanPrice → Bool
has_price [] = false
has_price (_ ∷ _) = true

module _ (P : Prisma) where
  pub resolve_plan : Db → AuthUser → Result Error Plan
  resolve_plan db user =
      elim (P.find_first (λ s. s.user_id == user.id && is_live s.status) (desc (λ s. s.created_at))
        db.subscriptions) [
          | some subscription ↦
              elim (P.find_first (λ p. p.id == subscription.plan_id) unordered db.plans) [
                | some plan ↦ ok plan
                | none ↦ err dangling_key
              ]
          | none ↦ elim (P.find_first (λ p. str_eq p.key free_plan_key) unordered db.plans) [
            | some free ↦ ok free
            | none ↦ err free_plan_missing
          ]
        ]

  -- The relation filter `feature: { key }`.
  pub has_feature_key : Db → PlanEntitlement → String → Bool
  has_feature_key db row key =
      is_some (P.find_first (λ f. f.id == row.feature_id && str_eq f.key key) unordered db.features)

  pub current_usage : Db → AuthUser → String → UsageWindow → ℕ → ℕ
  current_usage db user feature window now =
      or_else
        (map_option (λ c. c.count)
          (P.find_first (is_counter user.id feature window (current_window_start window now))
            unordered db.counters))
        0

  -- The filter of `deny`: what a plan must grant to be offered.
  pub raises_cap : Reason → Option ℕ → PlanEntitlement → Bool
  raises_cap feature_disabled current_limit row = true
  raises_cap quota_exceeded current_limit row = elim row.limit [
    | none ↦ true
    | some limit ↦ ltb (or_else current_limit 0) limit
  ]

  pub grants : Db → String → Reason → Option ℕ → Plan → PlanEntitlement → Bool
  grants db feature reason current_limit plan row =
      row.plan_id == plan.id
      && has_feature_key db row feature
      && row.enabled
      && raises_cap reason current_limit row

  pub is_upgrade : Db → Plan → String → Reason → Option ℕ → Plan → Bool
  is_upgrade db plan feature reason current_limit p =
      p.active
      && ltb plan.sort_order p.sort_order
      && is_some (P.find_first (grants db feature reason current_limit p) unordered db.entitlements)

  pub upgrade_plans : Db → Plan → String → Reason → Option ℕ → List Plan
  upgrade_plans db plan feature reason current_limit =
      P.find_many (is_upgrade db plan feature reason current_limit) (asc (λ p. p.sort_order))
        db.plans

  pub deny : Db → Plan → String → Reason → Option ℕ → Option ℕ → Error
  deny db plan feature reason current_limit remaining_quota = payment_required (record {
    reason = reason;
    feature = feature;
    current_plan = plan.key;
    upgrade_options =
        map (λ p. record { key = p.key; name = p.name })
          (upgrade_plans db plan feature reason current_limit);
    remaining_quota = remaining_quota;
  })

  -- The tail of `enforce`: the hard cap first, then the fair-use threshold.
  pub judge : Db → Plan → String → PlanEntitlement → ℕ → Result Error Decision
  judge db plan feature row count = elim row.limit [
    | some limit ↦
        if ltb limit count
        then err (deny db plan feature quota_exceeded (some limit) (some 0))
        else ok (soften row.soft_limit count feature)
    | none ↦ ok (soften row.soft_limit count feature)
  ]

  pub find_entitlement : Db → Plan → String → Option PlanEntitlement
  find_entitlement db plan feature =
      P.find_first (λ e. e.plan_id == plan.id && has_feature_key db e feature) unordered
        db.entitlements

  -- `row.feature.type`.
  pub feature_type : Db → PlanEntitlement → Result Error Feature
  feature_type db row = elim (P.find_first (λ f. f.id == row.feature_id) unordered db.features) [
    | some f ↦ ok f
    | none ↦ err dangling_key
  ]

  -- Reserve one unit of the window's counter, then evaluate.
  pub reserve :
      Db
      → AuthUser
      → Plan
      → String
      → PlanEntitlement
      → UsageWindow
      → ℕ
      → Result Error (Decision × Db)
  reserve db user plan feature row window now =
      let start = current_window_start window now in
      let (counter, counters) =
        P.upsert (is_counter user.id feature window start)
          (record {
            tenant_id = user.tenant_id;
            user_id = user.id;
            feature_key = feature;
            window = window;
            window_start = start;
            count = 1;
          })
          (λ c. record c { count = c.count + 1 }) db.counters in
      do
        decision ← judge db plan feature row counter.count
        ok (decision, record db { counters = counters })

  -- A gate with nothing to meter against.
  abbrev pub unmetered : FeatureType → PlanEntitlement → Bool
  unmetered FeatureType.boolean row = true
  unmetered FeatureType.metered row =
      not (is_some row.window) || (not (is_some row.limit) && not (is_some row.soft_limit))

  pub enforce_tx : AuthUser → String → ℕ → Db → Result Error (Decision × Db)
  enforce_tx user feature now db = do
    plan ← resolve_plan db user
    elim (find_entitlement db plan feature) [
      | none ↦ err (deny db plan feature feature_disabled none none)
      | some row ↦
          if not row.enabled then err (deny db plan feature feature_disabled none none) else do
            f ← feature_type db row
            if unmetered f.type row then ok (allow, db) else elim row.window [
              | none ↦ ok (allow, db)
              | some window ↦ reserve db user plan feature row window now
            ]
    ]

  pub enforce : AuthUser → String → ℕ → Db → Result Error Decision × Db
  enforce user feature now db = run (enforce_tx user feature now) db

  pub view : Db → AuthUser → ℕ → PlanEntitlement → Feature → EntitlementView
  view db user now row f = elim f.type [
    | FeatureType.metered ↦
        let used : ℕ = elim row.window [
          | none ↦ 0
          | some window ↦ current_usage db user f.key window now
        ] in
        record {
          key = f.key;
          name = f.name;
          type = FeatureType.metered;
          enabled = row.enabled;
          limit = row.limit;
          soft_limit = row.soft_limit;
          window = row.window;
          used = some used;
          remaining = map_option (λ limit. max 0 (limit - used)) row.limit;
        }
    | FeatureType.boolean ↦ record {
      key = f.key;
      name = f.name;
      type = FeatureType.boolean;
      enabled = row.enabled;
      limit = none;
      soft_limit = none;
      window = none;
      used = none;
      remaining = none;
    }
  ]

  -- The loop of `getEntitlements`.
  pub views : Db → AuthUser → ℕ → List PlanEntitlement → Result Error (List EntitlementView)
  views db user now [] = ok []
  views db user now (row ∷ rows) = do
    f ← feature_type db row
    rest ← views db user now rows
    ok (view db user now row f ∷ rest)

  -- `by_key` is the rank of a row's feature key, by which the rows are ordered.
  pub get_entitlements : (PlanEntitlement → ℕ) → AuthUser → ℕ → Db → Result Error EntitlementsDto
  get_entitlements by_key user now db = do
    plan ← resolve_plan db user
    features ←
        views db user now (P.find_many (λ e. e.plan_id == plan.id) (asc by_key) db.entitlements)
    ok (record { plan_key = plan.key; plan_name = plan.name; features = features })

  pub list_upgrade_plans : AuthUser → Db → Result Error AvailablePlansDto
  list_upgrade_plans user db = do
    plan ← resolve_plan db user
    let rows =
        P.find_many (λ p. p.active && ltb plan.sort_order p.sort_order) (asc (λ p. p.sort_order))
          db.plans
    let prices_of = λ (p : Plan).
        P.find_many (λ price. price.plan_id == p.id) (asc (λ price. price.amount_cents)) db.prices
    ok (record {
      current_plan_key = plan.key;
      has_active_subscription = not (str_eq plan.key free_plan_key);
      upgrades =
          map (λ p. record { key = p.key; name = p.name; prices = prices_of p })
            (keep (λ p. has_price (prices_of p)) rows);
    })
