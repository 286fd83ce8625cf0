-- ===== src/Billing/Redelivery.antt =====
-- A redelivered subscription event (billing.service.ts, applySubscriptionChange).
use expertos.Common.{
  ℕ, ◌≤◌, ◌≡◌, refl, inl, inr, false, Option, none, some, List, [], ◌∷◌, String, eq_iff, arith, any,
  length, ◌∙◌, ap, sym, ◌||◌, is_some, ◌==◌, ==_refl,
}
use expertos.Orm.{Prisma, unordered, change}
use expertos.Orm.Reads.{
  In-keep, keep-nil, keep-change_stable, change_twice, change_none, find_first_only, find_first-any,
}
use expertos.Database.{ok, run_ok}
use expertos.Database.Rows.{Subscription, PlanPrice}
use expertos.Billing.{
  PaymentProvider, SubscriptionChange, BillingDb, subscription, apply_event,
  apply_subscription_change, mirror, new_subscription, same_subscription, resolve_plan_price,
  with_subscriptions,
}
use expertos.Billing.Mirror.{
  is_mirror, mirrored, apply-cases, mirror_key, mirror_id, mirror_twice, mirror_new, settled_mirror,
  cong2_cons, single-In, any_or,
}

module _ (P : Prisma) (provider : PaymentProvider) where
  pub only_mirrored :
      (event : SubscriptionChange) (db : BillingDb) (s : Subscription)
      → length (mirrored P provider event db) ≤ 1
      → P.find_first (is_mirror event) unordered db.plans.subscriptions ≡ some s
      → mirrored P provider event db ≡ s ∷ []
  only_mirrored event db s unique e =
      let (m, k, _) = P.find_first_some (is_mirror event) unordered db.plans.subscriptions s e in
      single-In (mirrored P provider event db) s unique
        (In-keep (is_mirror event) s db.plans.subscriptions m k)

  -- The row that an update changed is the one that the next event finds.
  pub found_again :
      (event : SubscriptionChange) (resolved : Option PlanPrice) (db : BillingDb) (s : Subscription)
      → length (mirrored P provider event db) ≤ 1
      → P.find_first (is_mirror event) unordered db.plans.subscriptions ≡ some s
      → let f = mirror P provider event resolved in
        P.find_first
          (is_mirror event)
          unordered
          (change (λ r. r.id == s.id) f db.plans.subscriptions)
        ≡ some (f s)
  found_again event resolved db s unique e =
      let f = mirror P provider event resolved in
      let p = λ (r : Subscription). r.id == s.id in
      find_first_only P (is_mirror event) unordered (change p f db.plans.subscriptions) (f s) (
        keep-change_stable p (is_mirror event) f db.plans.subscriptions
          (mirror_key P provider event resolved)
        ∙ ap (change p f) (only_mirrored event db s unique e)
        ∙ rw (==_refl s.id) refl)

  pub new_is_free :
      (event : SubscriptionChange) (price : PlanPrice) (tenant_id user_id id now : ℕ)
      (db : BillingDb)
      → P.find_first (is_mirror event) unordered db.plans.subscriptions ≡ none
      → any (λ s. s.id == id) db.plans.subscriptions ≡ false
      → any
          (same_subscription P provider
            (new_subscription P provider event price tenant_id user_id id now))
          db.plans.subscriptions
        ≡ false
  unfolding same_subscription new_subscription
  new_is_free event price tenant_id user_id id now db e fresh =
      any_or (λ s. s.id == id) (is_mirror event) (λ s. id == s.id || is_mirror event s)
        db.plans.subscriptions (λ s. ground arith) fresh
        (sym (find_first-any P (is_mirror event) unordered db.plans.subscriptions) ∙ ap is_some e)

  prices_stay :
      (db : BillingDb) (subscriptions : List Subscription) (price_id : Option String)
      → resolve_plan_price P provider (with_subscriptions P provider db subscriptions) price_id
        ≡ resolve_plan_price P provider db price_id
  unfolding resolve_plan_price
  prices_stay db subscriptions price_id = refl

  updated_is_settled :
      (event : SubscriptionChange) (resolved : Option PlanPrice) (s : Subscription)
      (t : List Subscription)
      → let f = mirror P provider event resolved in
        change (λ r. r.id == (f s).id) f (change (λ r. r.id == s.id) f t)
        ≡ change (λ r. r.id == s.id) f t
  updated_is_settled event resolved s t = rw (mirror_id P provider event resolved s) (
      change_twice (λ r. r.id == s.id) (mirror P provider event resolved) t
        (λ r. ap (λ i. i == s.id) (mirror_id P provider event resolved r))
        (mirror_twice P provider event resolved))

  new_is_settled :
      (event : SubscriptionChange) (price : PlanPrice) (tenant_id user_id id now : ℕ)
      (resolved : Option PlanPrice) (t : List Subscription)
      → resolved ≡ some price
      → any (λ s. s.id == id) t ≡ false
      → let new = new_subscription P provider event price tenant_id user_id id now in
        change (λ r. r.id == new.id) (mirror P provider event resolved) (new ∷ t) ≡ new ∷ t
  unfolding new_subscription
  new_is_settled event price tenant_id user_id id now resolved t r fresh =
      rw (r, ==_refl id)
        (cong2_cons (mirror_new P provider event price tenant_id user_id id now)
          (change_none (λ r. r.id == id) (mirror P provider event resolved) t fresh))

  pub new_is_found :
      (event : SubscriptionChange) (price : PlanPrice) (tenant_id user_id id now : ℕ)
      (t : List Subscription)
      → P.find_first (is_mirror event) unordered t ≡ none
      → let new = new_subscription P provider event price tenant_id user_id id now in
        P.find_first (is_mirror event) unordered (new ∷ t) ≡ some new
  unfolding new_subscription
  new_is_found event price tenant_id user_id id now t e =
      let key = event.provider_subscription_id in
      let new = new_subscription P provider event price tenant_id user_id id now in
      find_first_only P (is_mirror event) unordered (new ∷ t) new (
        rw ((eq_iff key key).1 refl) (
          ap (◌∷◌ new)
            (keep-nil (is_mirror event) t (P.find_first_none (is_mirror event) unordered t e))))

  -- The rows of one provider subscription are at most one (the column is unique), and the id that
  -- the database would fill in is new: then a redelivered event, with whatever id and time the
  -- database would fill in by then, changes nothing and raises nothing.
  pub subscription_redelivery :
      (event : SubscriptionChange) (id now id' now' : ℕ) (db : BillingDb)
      → length (mirrored P provider event db) ≤ 1
      → any (λ s. s.id == id) db.plans.subscriptions ≡ false
      → let (result, db') = apply_event P provider (subscription event) id now [] db in
        (result ≡ ok tt)
        × (apply_event P provider (subscription event) id' now' [] db' ≡ (ok tt, db'))
  unfolding apply_event
  subscription_redelivery event id now id' now' db unique fresh =
      elim (apply-cases P provider event db) [
        | inl skip ↦
            rw (run_ok (apply_subscription_change P provider event id now) db (skip id now)) (
              refl,
              run_ok (apply_subscription_change P provider event id' now') db (skip id' now'),
            )
        | inr (inl (s, e, update)) ↦
            let resolved = resolve_plan_price P provider db event.provider_price_id in
            let f = mirror P provider event resolved in
            let p = λ (r : Subscription). r.id == s.id in
            let db' = with_subscriptions P provider db (change p f db.plans.subscriptions) in
            rw (run_ok (apply_subscription_change P provider event id now) db (update id now)) (
              refl,
              run_ok (apply_subscription_change P provider event id' now') db' (
                  settled_mirror P provider event id' now' db' (f s)
                    (found_again event resolved db s unique e)
                    (rw (prices_stay db (change p f db.plans.subscriptions) event.provider_price_id)
                      (updated_is_settled event resolved s db.plans.subscriptions))),
            )
        | inr (inr (e, (price, user_id, tenant_id, r, c, t, create))) ↦
            let new = new_subscription P provider event price tenant_id user_id id now in
            let db' = with_subscriptions P provider db (new ∷ db.plans.subscriptions) in
            rw
              (run_ok (apply_subscription_change P provider event id now) db
                (create id now (new_is_free event price tenant_id user_id id now db e fresh)))
              (
                refl,
                run_ok (apply_subscription_change P provider event id' now') db' (
                    settled_mirror P provider event id' now' db' new
                      (new_is_found event price tenant_id user_id id now db.plans.subscriptions e)
                      (new_is_settled event price tenant_id user_id id now
                        (resolve_plan_price P provider db' event.provider_price_id)
                        db.plans.subscriptions
                        (prices_stay db (new ∷ db.plans.subscriptions) event.provider_price_id ∙ r)
                        fresh)),
              )
      ]
