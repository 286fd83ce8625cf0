-- ===== src/Entitlement/Wall.antt =====
-- The payload of a refused reservation (entitlement.service.ts, deny).
use expertos.Common.{
  ℕ, ◌≤◌, ◌<◌, ◌≡◌, ◌↔◌, refl, inl, inr, true, false, Option, some, none, List, [], ◌∷◌, String,
  map, arith, Option-cases, All_in, In, ==_iff, is_some, ap,
}
use expertos.Orm.{Prisma, unordered}
use expertos.Database.{err}
use expertos.Database.Rows.{Plan, PlanEntitlement, UsageWindow, AuthUser}
use expertos.Entitlement.Window.{current_window_start}
use expertos.Entitlement.Standing.{IsFor, has_feature_key-IsFor, IsFor-has_feature_key}
use expertos.Entitlement.Reserve.{Holds, IsCapped, counter_key}
use expertos.Entitlement.Quota.{enforce_block}
use expertos.Entitlement.{
  Db, UpgradeOption, DeniedPayload, payment_required, quota_exceeded, upgrade_plans, is_upgrade,
  grants, raises_cap, deny, enforce,
}

-- There is no cap, or a higher one.
abbrev pub IsRaised : ℕ → Option ℕ → Type 0
IsRaised limit none = Unit
IsRaised limit (some l) = limit < l

-- An active plan of a higher tier whose enabled entitlement for the feature raises the cap.
pub record IsWayOut (db : Db) (plan : Plan) (feature : String) (limit : ℕ) (p : Plan) : Type 0 where
  pub listed : In p db.plans
  pub active : p.active ≡ true
  pub higher : plan.sort_order < p.sort_order
  pub row : PlanEntitlement
  pub row_listed : In row db.entitlements
  pub of_plan : row.plan_id ≡ p.id
  pub about : IsFor db feature row
  pub enabled : row.enabled ≡ true
  pub raised : IsRaised limit row.limit

In-map :
    {A B : Type 0} (f : A → B) (y : B) (xs : List A)
    → In y (map f xs) ↔ ((x : A) × In x xs × (y ≡ f x))
In-map f y [] = (λ m. absurd m, λ h. absurd h.1)
In-map f y (x ∷ xs) = (
  λ m. elim m [
    | inl e ↦ (x, inl refl, e)
    | inr k ↦ let (z, j, e) = (In-map f y xs).0 k in (z, inr j, e)
  ],
  λ h. elim h.1 [ inl e ↦ inl (rw (← e) (h.2)) | inr k ↦ inr ((In-map f y xs).1 (h.0, k, h.2)) ],
)

module _ (P : Prisma) (db : Db) (plan : Plan) (feature : String) (limit : ℕ) where
  raises_cap-IsRaised :
      (row : PlanEntitlement) (cap : Option ℕ)
      → row.limit ≡ cap
      → raises_cap P quota_exceeded (some limit) row ≡ true
      → IsRaised limit cap
  unfolding raises_cap
  raises_cap-IsRaised row none e h = tt
  raises_cap-IsRaised row (some l) e h = ground (arith, rw (raises_cap, e) at h)

  IsRaised-raises_cap :
      (row : PlanEntitlement) (cap : Option ℕ)
      → row.limit ≡ cap
      → IsRaised limit cap
      → raises_cap P quota_exceeded (some limit) row ≡ true
  unfolding raises_cap
  IsRaised-raises_cap row none e h = rw (raises_cap, e) refl
  IsRaised-raises_cap row (some l) e h = rw (raises_cap, e) (ground (arith, h))

  offered-IsWayOut :
      (p : Plan)
      → In p (upgrade_plans P db plan feature quota_exceeded (some limit))
      → IsWayOut db plan feature limit p
  unfolding upgrade_plans is_upgrade grants
  offered-IsWayOut p m =
      let (listed, passes) = (P.find_many_in _ _ db.plans p).0 m in
      let key = grants P db feature quota_exceeded (some limit) p in
      elim (Option-cases (P.find_first key unordered db.entitlements)) [
        | inl e ↦ absurd (ground arith)
        | inr (row, e) ↦
            let (row_listed, granted, _) = P.find_first_some key unordered db.entitlements row e in
            record {
              listed = listed;
              active = ground arith;
              higher = ground arith;
              row = row;
              row_listed = row_listed;
              of_plan = ground (arith, granted, ==_iff row.plan_id p.id);
              about = has_feature_key-IsFor P db row feature (ground (arith, granted));
              enabled = ground (arith, granted);
              raised = raises_cap-IsRaised row row.limit refl (ground (arith, granted));
            }
      ]

  IsWayOut-offered :
      (p : Plan)
      → IsWayOut db plan feature limit p
      → In p (upgrade_plans P db plan feature quota_exceeded (some limit))
  unfolding upgrade_plans is_upgrade grants
  IsWayOut-offered p w =
      let key = grants P db feature quota_exceeded (some limit) p in
      let keyed = IsFor-has_feature_key P db w.row feature w.about in
      let raised = IsRaised-raises_cap w.row w.row.limit refl w.raised in
      let granted : key w.row ≡ true =
        ground (arith, w.of_plan, ==_iff w.row.plan_id p.id, w.enabled, keyed, raised) in
      elim (Option-cases (P.find_first key unordered db.entitlements)) [
        | inl e ↦ cc (
          granted,
          All_in (λ r. key r ≡ false) w.row db.entitlements w.row_listed
              (P.find_first_none key unordered db.entitlements e),
        )
        | inr (r, e) ↦
            (P.find_many_in _ _ db.plans p).1
              (w.listed, ground (arith, w.active, w.higher, ap is_some e))
      ]

module _ (P : Prisma) (user : AuthUser) (feature : String) (plan : Plan) (row : PlanEntitlement)
    (window : UsageWindow) (limit start : ℕ) where
  -- A reservation past the cap is rolled back and refused with a payload that names the reason, the
  -- feature and the plan and leaves nothing over; and its upgrade options are the active plans of a
  -- higher tier whose enabled entitlement for the feature has a higher cap or none, and no others.
  pub enforce_wall :
      (n now : ℕ) (db : Db) (option : UpgradeOption)
      → IsCapped P user feature plan row window limit db
      → current_window_start window now ≡ start
      → Holds (counter_key P user feature window start) n db.counters
      → limit ≤ n
      → (payload : DeniedPayload) × (enforce P user feature now db
          ≡ (err (payment_required payload), db))
        × (payload.reason ≡ quota_exceeded)
        × (payload.feature ≡ feature)
        × (payload.current_plan ≡ plan.key)
        × (payload.remaining_quota ≡ some 0)
        × (In option payload.upgrade_options ↔ (
            (p : Plan) × IsWayOut db plan feature limit p
            × (option ≡ record { key = p.key; name = p.name })))
  unfolding deny
  enforce_wall n now db option h at_start holds full =
      let option_of : Plan → UpgradeOption = λ p. record { key = p.key; name = p.name } in
      let offers = upgrade_plans P db plan feature quota_exceeded (some limit) in
      let listing = In-map option_of option offers in
      (
        record {
          reason = quota_exceeded;
          feature = feature;
          current_plan = plan.key;
          upgrade_options = map option_of offers;
          remaining_quota = some 0;
        },
        enforce_block P user feature plan row window limit start n now db h at_start holds full,
        refl,
        refl,
        refl,
        refl,
        (
          λ m. let (p, o, e) = listing.0 m in (p, offered-IsWayOut P db plan feature limit p o, e),
          λ w. listing.1 (w.0, IsWayOut-offered P db plan feature limit w.0 w.1, w.2),
        ),
      )
