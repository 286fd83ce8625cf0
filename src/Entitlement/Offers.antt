-- ===== src/Entitlement/Offers.antt =====
-- What a refusal offers, and what the usage indicator shows, against the gate itself.
use expertos.Common.{
  ℕ, ◌+◌, ◌≤◌, ◌<◌, ◌≡◌, inl, inr, true, false, some, String, ltb, ==_iff, arith, Option-cases, In,
}
use expertos.Orm.{Prisma, unordered}
use expertos.Database.{ok}
use expertos.Database.Rows.{Plan, PlanEntitlement}
use expertos.Entitlement.{
  Db, Decision, quota_exceeded, upgrade_plans, is_upgrade, grants, raises_cap, judge, soften,
  has_feature_key,
}

module _ (P : Prisma) (db : Db) (plan : Plan) (feature : String) where
  -- What the filter of the wall accepts.
  granting :
      (limit count : ℕ) (p : Plan) (row : PlanEntitlement)
      → count ≤ limit + 1
      → grants P db feature quota_exceeded (some limit) p row ≡ true
      → (row.plan_id ≡ p.id)
        × (row.enabled ≡ true)
        × (has_feature_key P db row feature ≡ true)
        × (judge P db p feature row count ≡ ok (soften row.soft_limit count feature))
  unfolding grants judge raises_cap
  granting limit count p row up h = elim (Option-cases row.limit) [
    | inl e ↦ rw e (ground (arith, h, ==_iff row.plan_id p.id))
    | inr (l, e) ↦
        let k : ltb l count ≡ false = ground (arith, h, e, up) in
        rw (e, k) (ground (arith, h, ==_iff row.plan_id p.id))
  ]

  -- A plan that the quota wall offers under a cap is active and of a higher tier, and it has an enabled
  -- entitlement for the feature that admits every reservation up to the first one past that cap.
  pub upgrade_unblocks :
      (limit count : ℕ) (p : Plan)
      → count ≤ limit + 1
      → In p (upgrade_plans P db plan feature quota_exceeded (some limit))
      → (p.active ≡ true)
        × (plan.sort_order < p.sort_order)
        × ((row : PlanEntitlement) × In row db.entitlements
            × (row.plan_id ≡ p.id)
            × (row.enabled ≡ true)
            × (has_feature_key P db row feature ≡ true)
            × ((d : Decision) × (judge P db p feature row count ≡ ok d)))
  unfolding upgrade_plans is_upgrade
  upgrade_unblocks limit count p up m =
      let (_, passes) = (P.find_many_in _ _ db.plans p).0 m in
      let filter = grants P db feature quota_exceeded (some limit) p in
      elim (Option-cases (P.find_first filter unordered db.entitlements)) [
        | inl e ↦ absurd (ground arith)
        | inr (row, e) ↦
            let (listed, granted, _) = P.find_first_some filter unordered db.entitlements row e in
            let facts = granting limit count p row up granted in
            (
              ground arith,
              ground arith,
              (
                row,
                listed,
                facts.0,
                facts.1,
                facts.2,
                (soften row.soft_limit count feature, facts.3),
              ),
            )
      ]
