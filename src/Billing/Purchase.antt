-- ===== src/Billing/Purchase.antt =====
-- From a paid checkout to the features it unlocks: the webhook (billing.service.ts) writes the row
-- that the entitlement gate (entitlements/entitlement.service.ts, resolvePlan) reads.
use expertos.Common.{
  ℕ, ◌<◌, ◌≡◌, refl, ◌⊎◌, inl, inr, true, false, none, some, List, [], ◌∷◌, arith, keep, any, All,
  ◌==◌, sym, subst,
}
use expertos.Orm.{Prisma, unordered}
use expertos.Database.{ok, run_ok}
use expertos.Database.Rows.{Subscription, PlanPrice, Plan, AuthUser, is_live}
use expertos.Entitlement.{resolve_plan}
use expertos.Entitlement.Resolution.{resolve_plan-latest, All-IsNoRival}
use expertos.Billing.{
  PaymentProvider, SubscriptionChange, BillingDb, subscription, apply_event,
  apply_subscription_change, new_subscription, resolve_plan_price, resolve_tenant_id,
  with_subscriptions,
}
use expertos.Billing.Mirror.{is_mirror, apply-create}
use expertos.Billing.Redelivery.{new_is_free}

older_or :
    (now : ℕ) (s : Subscription) (l : List Subscription)
    → s.created_at ≡ now
    → All (λ r. r.created_at < now) l
    → All (λ r. (r ≡ s) ⊎ (r.created_at < s.created_at)) l
older_or now s [] e h = tt
older_or now s (r ∷ l) e h = (inr (omega arith), older_or now s l e h.1)

module _ (P : Prisma) (provider : PaymentProvider) where
  new_fields :
      (event : SubscriptionChange) (price : PlanPrice) (tenant_id user_id id now : ℕ)
      → let new = new_subscription P provider event price tenant_id user_id id now in
        (new.user_id ≡ user_id)
        × (new.status ≡ event.status)
        × (new.created_at ≡ now)
        × (new.plan_id ≡ price.plan_id)
  unfolding new_subscription
  new_fields event price tenant_id user_id id now = (refl, refl, refl, refl)

  -- A first event for a paid subscription of a known user at a mapped price: the plan behind the
  -- price is the one that the user's next request is measured against.
  pub purchase_unlocks :
      (event : SubscriptionChange) (id now : ℕ) (db : BillingDb) (user : AuthUser)
      (price : PlanPrice) (plan : Plan) (tenant_id : ℕ)
      → P.find_first (is_mirror event) unordered db.plans.subscriptions ≡ none
      → event.client_reference_id ≡ some user.id
      → is_live event.status ≡ true
      → resolve_plan_price P provider db event.provider_price_id ≡ some price
      → resolve_tenant_id P provider db user.id ≡ some tenant_id
      → any (λ s. s.id == id) db.plans.subscriptions ≡ false
      → All (λ s. s.created_at < now) db.plans.subscriptions
      → keep (λ p. p.id == price.plan_id) db.plans.plans ≡ plan ∷ []
      → let (result, db') = apply_event P provider (subscription event) id now [] db in
        (result ≡ ok tt) × (resolve_plan P db'.plans user ≡ ok plan)
  unfolding apply_event
  purchase_unlocks event id now db user price plan tenant_id first c live r t fresh older one =
      let new = new_subscription P provider event price tenant_id user.id id now in
      let db' = with_subscriptions P provider db (new ∷ db.plans.subscriptions) in
      let free = new_is_free P provider event price tenant_id user.id id now db first fresh in
      let (own, status, created, planned) = new_fields event price tenant_id user.id id now in
      rw
        (run_ok (apply_subscription_change P provider event id now) db
          (apply-create P provider event id now db price user.id tenant_id first c r t free))
        (
          refl,
          resolve_plan-latest P db'.plans user new plan (inl refl) own (rw status live)
              (
                inl refl,
                All-IsNoRival user new db.plans.subscriptions
                    (older_or now new db.plans.subscriptions created older),
              )
              (subst (λ i. keep (λ p. p.id == i) db.plans.plans ≡ plan ∷ []) (sym planned) one),
        )
