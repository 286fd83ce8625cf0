-- ===== src/Billing/Mirror.antt =====
-- The mirrored subscription under redelivery (billing.service.ts, applySubscriptionChange).
use expertos.Common.{
  ℕ, ◌≤◌, ◌≡◌, refl, ◌⊎◌, inl, inr, Bool, false, Option, none, some, List, [], ◌∷◌, arith,
  Option-cases, keep, any, In, length, ◌∙◌, ◌==◌,
}
use expertos.Orm.{Prisma, unordered, change}
use expertos.Database.{ok}
use expertos.Database.Rows.{Subscription, PlanPrice}
use expertos.Billing.{
  PaymentProvider, SubscriptionChange, BillingDb, apply_subscription_change, mirror,
  new_subscription, same_subscription, resolve_plan_price, resolve_tenant_id, has_value,
  with_subscriptions,
}

-- The row that mirrors the event's subscription.
abbrev pub is_mirror : SubscriptionChange → Subscription → Bool
is_mirror event s = has_value s.provider_sub_id event.provider_subscription_id

pub single-In : {A : Type 0} (l : List A) (x : A) → length l ≤ 1 → In x l → l ≡ x ∷ []
single-In [] x h m = absurd m
single-In (y ∷ []) x h (inl e) = rw e refl
single-In (y ∷ []) x h (inr m) = absurd m
single-In (y ∷ z ∷ l) x h m = absurd (omega arith)

pub any_or :
    {A : Type 0} (p q r : A → Bool) (l : List A)
    → ((x : A) → p x ≡ false → q x ≡ false → r x ≡ false)
    → any p l ≡ false
    → any q l ≡ false
    → any r l ≡ false
any_or p q r [] f h k = refl
any_or p q r (x ∷ l) f h k = ground (arith, f x, any_or p q r l f)

pub cong2_cons : {A : Type 0} {x y : A} {l k : List A} → x ≡ y → l ≡ k → x ∷ l ≡ y ∷ k
cong2_cons e h = rw (e, h) refl

module _ (P : Prisma) (provider : PaymentProvider) where
  abbrev pub mirrored : SubscriptionChange → BillingDb → List Subscription
  mirrored event db = keep (is_mirror event) db.plans.subscriptions

  -- The three ways one event is applied.
  pub apply-cases :
      (event : SubscriptionChange) (db : BillingDb)
      → let found_in = P.find_first (is_mirror event) unordered db.plans.subscriptions in
        let resolved = resolve_plan_price P provider db event.provider_price_id in
        let run_with = λ (id now : ℕ). apply_subscription_change P provider event id now db in
        ((id now : ℕ) → run_with id now ≡ ok (tt, db))
        ⊎ (((s : Subscription) × (found_in ≡ some s)
              × ((id now : ℕ)
                  → run_with id now
                    ≡ ok (
                      tt,
                      with_subscriptions P provider db (
                          change
                            (λ r. r.id == s.id)
                            (mirror P provider event resolved)
                            db.plans.subscriptions),
                    )))
            ⊎ ((found_in ≡ none)
                × ((price : PlanPrice) × (user_id : ℕ) × (tenant_id : ℕ) × (resolved ≡ some price)
                    × (event.client_reference_id ≡ some user_id)
                    × (resolve_tenant_id P provider db user_id ≡ some tenant_id)
                    × ((id now : ℕ)
                        → let new =
                            new_subscription P provider event price tenant_id user_id id now in
                          any (same_subscription P provider new) db.plans.subscriptions ≡ false
                          → run_with id now
                            ≡ ok (
                              tt,
                              with_subscriptions P provider db (new ∷ db.plans.subscriptions),
                            )))))
  unfolding apply_subscription_change
  apply-cases event db =
      let found_in = P.find_first (is_mirror event) unordered db.plans.subscriptions in
      let resolved = resolve_plan_price P provider db event.provider_price_id in
      elim (Option-cases found_in) [
        | inr (s, e) ↦ elim (Option-cases event.client_reference_id) [
          | inl c ↦
              inr (inl (s, e, λ id now. simp (e, apply_subscription_change, c, P.update_many_eq)))
          | inr (u, c) ↦
              inr (inl (s, e, λ id now. simp (e, apply_subscription_change, c, P.update_many_eq)))
        ]
        | inl e ↦ elim (Option-cases event.client_reference_id) [
          | inl c ↦ inl (λ id now. simp (e, apply_subscription_change, c))
          | inr (u, c) ↦ elim (Option-cases resolved) [
            | inl r ↦ inl (λ id now. simp (e, apply_subscription_change, c, r))
            | inr (price, r) ↦ elim (Option-cases (resolve_tenant_id P provider db u)) [
              | inl t ↦ inl (λ id now. simp (e, apply_subscription_change, c, r, t))
              | inr (tenant, t) ↦ inr (
                  inr (
                    e,
                    (
                      price,
                      u,
                      tenant,
                      r,
                      c,
                      t,
                      λ id now free.
                          simp (e, apply_subscription_change, c, r, t, P.create_eq, free),
                    ),
                  ))
            ]
          ]
        ]
      ]

  -- The first event of a known user's subscription at a mapped price creates its row.
  pub apply-create :
      (event : SubscriptionChange) (id now : ℕ) (db : BillingDb) (price : PlanPrice)
      (user_id tenant_id : ℕ)
      → P.find_first (is_mirror event) unordered db.plans.subscriptions ≡ none
      → event.client_reference_id ≡ some user_id
      → resolve_plan_price P provider db event.provider_price_id ≡ some price
      → resolve_tenant_id P provider db user_id ≡ some tenant_id
      → let new = new_subscription P provider event price tenant_id user_id id now in
        any (same_subscription P provider new) db.plans.subscriptions ≡ false
        → apply_subscription_change P provider event id now db
          ≡ ok (tt, with_subscriptions P provider db (new ∷ db.plans.subscriptions))
  unfolding apply_subscription_change
  apply-create event id now db price user_id tenant_id e c r t free =
      simp (e, apply_subscription_change, c, r, t, P.create_eq, free)

  pub mirror_key :
      (event : SubscriptionChange) (resolved : Option PlanPrice) (s : Subscription)
      → is_mirror event (mirror P provider event resolved s) ≡ is_mirror event s
  unfolding mirror
  mirror_key event resolved s = refl

  pub mirror_id :
      (event : SubscriptionChange) (resolved : Option PlanPrice) (s : Subscription)
      → (mirror P provider event resolved s).id ≡ s.id
  unfolding mirror
  mirror_id event resolved s = refl

  pub mirror_twice :
      (event : SubscriptionChange) (resolved : Option PlanPrice) (s : Subscription)
      → mirror P provider event resolved (mirror P provider event resolved s)
        ≡ mirror P provider event resolved s
  unfolding mirror
  mirror_twice event none s = elim (Option-cases event.interval) [
    | inl e ↦ simp e
    | inr (i, e) ↦ simp e
  ]
  mirror_twice event (some price) s = elim (Option-cases event.interval) [
    | inl e ↦ simp e
    | inr (i, e) ↦ simp e
  ]

  pub mirror_new :
      (event : SubscriptionChange) (price : PlanPrice) (tenant_id user_id id now : ℕ)
      → let new = new_subscription P provider event price tenant_id user_id id now in
        mirror P provider event (some price) new ≡ new
  unfolding mirror new_subscription
  mirror_new event price tenant_id user_id id now = elim (Option-cases event.interval) [
    | inl e ↦ simp e
    | inr (i, e) ↦ simp e
  ]

  -- An event whose subscription is mirrored already, and up to date, changes nothing.
  pub settled_mirror :
      (event : SubscriptionChange) (id now : ℕ) (db : BillingDb) (s : Subscription)
      → P.find_first (is_mirror event) unordered db.plans.subscriptions ≡ some s
      → change
          (λ r. r.id == s.id)
          (mirror P provider event (resolve_plan_price P provider db event.provider_price_id))
          db.plans.subscriptions
        ≡ db.plans.subscriptions
      → apply_subscription_change P provider event id now db ≡ ok (tt, db)
  settled_mirror event id now db s e same = elim (apply-cases event db) [
    | inl skip ↦ skip id now
    | inr (inl (r, k, update)) ↦ let eq : r ≡ s = cc (e, k) in update id now ∙ rw eq (rw same refl)
    | inr (inr (k, _)) ↦ cc (e, k)
  ]
