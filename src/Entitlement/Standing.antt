-- ===== src/Entitlement/Standing.antt =====
-- What the queries of the gate find, said of the tables themselves (entitlement.service.ts).
use expertos.Common.{
  ℕ, ◌≤◌, ◌≡◌, ◌⊎◌, inl, inr, true, false, ◌&&◌, some, List, [], ◌∷◌, String, str_eq, eq_iff, arith,
  Bool-cases, Option-cases, All, All_in, In, ◌==◌, ==_iff, is_some, ap,
}
use expertos.Orm.{Prisma, unordered, desc}
use expertos.Database.{ok}
use expertos.Database.Rows.{Plan, Feature, PlanEntitlement, Subscription, AuthUser, is_live}
use expertos.Entitlement.{Db, resolve_plan, find_entitlement, has_feature_key, free_plan_key}

-- The row is an entitlement for the feature with this key.
pub record IsFor (db : Db) (feature : String) (row : PlanEntitlement) : Type 0 where
  pub described : Feature
  pub listed : In described db.features
  pub same : described.id ≡ row.feature_id
  pub named : described.key ≡ feature

-- The subscription is another user's, or not live.
abbrev pub IsForeign : AuthUser → Subscription → Type 0
IsForeign user r = ((r.user_id == user.id) ≡ false) ⊎ (is_live r.status ≡ false)

-- A live subscription of the user, none of whose live subscriptions is newer.
pub record IsNewest (db : Db) (user : AuthUser) (s : Subscription) : Type 0 where
  pub listed : In s db.subscriptions
  pub own : s.user_id ≡ user.id
  pub live : is_live s.status ≡ true
  pub newest : All (λ r. IsForeign user r ⊎ (r.created_at ≤ s.created_at)) db.subscriptions

-- The plan of the newest live subscription, or the Free plan for a user without one.
abbrev pub IsPlanOf : Db → AuthUser → Plan → Type 0
IsPlanOf db user plan =
    In plan db.plans
    × (((s : Subscription) × IsNewest db user s × (plan.id ≡ s.plan_id))
        ⊎ (All (IsForeign user) db.subscriptions × (plan.key ≡ "free")))

module _ (user : AuthUser) where
  foreign :
      (r : Subscription) → (r.user_id == user.id && is_live r.status) ≡ false → IsForeign user r
  foreign r h = elim (Bool-cases (r.user_id == user.id)) [
    | inl e ↦ inr (ground (arith, h, e))
    | inr e ↦ inl e
  ]

  all-IsForeign :
      (t : List Subscription)
      → All (λ r. (r.user_id == user.id && is_live r.status) ≡ false) t
      → All (IsForeign user) t
  all-IsForeign [] h = tt
  all-IsForeign (r ∷ t) h = (foreign r h.0, all-IsForeign t h.1)

  all_older :
      (at : ℕ) (t : List Subscription)
      → All (λ r. (r.user_id == user.id && is_live r.status) ≡ true → r.created_at ≤ at) t
      → All (λ r. IsForeign user r ⊎ (r.created_at ≤ at)) t
  all_older at [] h = tt
  all_older at (r ∷ t) h = (
    elim (Bool-cases (r.user_id == user.id && is_live r.status)) [
      | inl e ↦ inr (h.0 e)
      | inr e ↦ inl (foreign r e)
    ],
    all_older at t h.1,
  )

module _ (P : Prisma) (db : Db) where
  pub has_feature_key-IsFor :
      (row : PlanEntitlement) (feature : String)
      → has_feature_key P db row feature ≡ true
      → IsFor db feature row
  unfolding has_feature_key
  has_feature_key-IsFor row feature h =
      let key = λ (f : Feature). f.id == row.feature_id && str_eq f.key feature in
      elim (Option-cases (P.find_first key unordered db.features)) [
        | inl e ↦ cc (h, ap is_some e)
        | inr (f, e) ↦
            let (m, k, _) = P.find_first_some key unordered db.features f e in
            record {
              described = f;
              listed = m;
              same = ground (arith, k, ==_iff f.id row.feature_id);
              named = ground (arith, k, eq_iff f.key feature);
            }
      ]

  pub IsFor-has_feature_key :
      (row : PlanEntitlement) (feature : String)
      → IsFor db feature row
      → has_feature_key P db row feature ≡ true
  unfolding has_feature_key
  IsFor-has_feature_key row feature h =
      let key = λ (f : Feature). f.id == row.feature_id && str_eq f.key feature in
      elim (Option-cases (P.find_first key unordered db.features)) [
        | inr (f, e) ↦ ap is_some e
        | inl e ↦
            let never =
              All_in (λ f. key f ≡ false) h.described db.features h.listed
                (P.find_first_none key unordered db.features e) in
            absurd (
              ground (
                arith,
                never,
                h.same,
                h.named,
                ==_iff h.described.id row.feature_id,
                eq_iff h.described.key feature,
              ))
      ]

  pub found-row :
      (plan : Plan) (feature : String) (row : PlanEntitlement)
      → find_entitlement P db plan feature ≡ some row
      → In row db.entitlements × (row.plan_id ≡ plan.id) × IsFor db feature row
  unfolding find_entitlement
  found-row plan feature row h =
      let key = λ (e : PlanEntitlement). e.plan_id == plan.id && has_feature_key P db e feature in
      let (m, k, _) = P.find_first_some key unordered db.entitlements row h in
      (
        m,
        ground (arith, k, ==_iff row.plan_id plan.id),
        has_feature_key-IsFor row feature (ground (arith, k)),
      )

  pub resolved-IsPlanOf :
      (user : AuthUser) (plan : Plan) → resolve_plan P db user ≡ ok plan → IsPlanOf db user plan
  unfolding resolve_plan
  resolved-IsPlanOf user plan h =
      let key = λ (s : Subscription). s.user_id == user.id && is_live s.status in
      let order = desc (λ (s : Subscription). s.created_at) in
      elim (Option-cases (P.find_first key order db.subscriptions)) [
        | inl e ↦
            let free = λ (p : Plan). str_eq p.key free_plan_key in
            elim (Option-cases (P.find_first free unordered db.plans)) [
              | inl k ↦ cc (rw (e, resolve_plan, k) at h)
              | inr (p, k) ↦
                  let same : p ≡ plan = ground (arith, rw (e, resolve_plan, k) at h) in
                  let (m, t, _) = P.find_first_some free unordered db.plans p k in
                  rw (← same) (
                    m,
                    inr (
                      all-IsForeign user db.subscriptions
                          (P.find_first_none key order db.subscriptions e),
                      (eq_iff p.key free_plan_key).0 t,
                    ),
                  )
            ]
        | inr (s, e) ↦
            let (listed, mine, latest) = P.find_first_some key order db.subscriptions s e in
            let named = λ (p : Plan). p.id == s.plan_id in
            elim (Option-cases (P.find_first named unordered db.plans)) [
              | inl k ↦ cc (rw (e, resolve_plan, k) at h)
              | inr (p, k) ↦
                  let same : p ≡ plan = ground (arith, rw (e, resolve_plan, k) at h) in
                  let (m, t, _) = P.find_first_some named unordered db.plans p k in
                  rw (← same) (
                    m,
                    inl (
                      s,
                      record {
                        listed = listed;
                        own = ground (arith, mine, ==_iff s.user_id user.id);
                        live = ground (arith, mine);
                        newest = all_older user s.created_at db.subscriptions latest;
                      },
                      (==_iff p.id s.plan_id).0 t,
                    ),
                  )
            ]
      ]
