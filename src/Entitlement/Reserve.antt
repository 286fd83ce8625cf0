-- ===== src/Entitlement/Reserve.antt =====
-- What one pass through the gate does to the usage counters.
use expertos.Common.{
  ℕ, ◌+◌, ◌≤◌, ◌≡◌, refl, ◌⊎◌, inl, inr, Bool, true, false, some, List, [], ◌∷◌, map, String, keep,
  arith, Option-cases, or_else, map_option, ap, ◌∙◌, length,
}
use expertos.Orm.{Prisma, unordered}
use expertos.Orm.Reads.{find_first_only, find_first_empty, keep-change, keep-change_other}
use expertos.Database.{ok}
use expertos.Database.Rows.{
  Plan, Feature, FeatureType, PlanEntitlement, UsageCounter, UsageWindow, AuthUser, same_window,
}
use expertos.Entitlement.{
  Db, is_counter, resolve_plan, find_entitlement, feature_type, reserve, enforce_tx,
}

-- The rows under one unique key hold the count `n`: there is none and `n` is 0, or there is one.
abbrev pub Holds : (UsageCounter → Bool) → ℕ → List UsageCounter → Type 0
Holds p n t =
    ((keep p t ≡ []) × (n ≡ 0)) ⊎ ((c : UsageCounter) × (keep p t ≡ c ∷ []) × (c.count ≡ n))

-- The unique key holds: at most one row has it.
pub Holds-of_unique :
    (P : Prisma) (p : UsageCounter → Bool) (t : List UsageCounter)
    → length (keep p t) ≤ 1
    → Holds p (or_else (map_option (λ c. c.count) (P.find_first p unordered t)) 0) t
Holds-of_unique P p t h = go (keep p t) refl
  where
    go :
        (l : List UsageCounter)
        → keep p t ≡ l
        → Holds p (or_else (map_option (λ c. c.count) (P.find_first p unordered t)) 0) t
    go [] e = inl (e, rw (find_first_empty P p unordered t e))
    go (c ∷ []) e = inr (c, e, rw (find_first_only P p unordered t c e))
    go (c ∷ d ∷ l) e = absurd (omega (arith, rw e at h))

abbrev pub bump : UsageCounter → UsageCounter
bump c = record c { count = c.count + 1 }

pub same_window_refl : (w : UsageWindow) → same_window w w ≡ true
same_window_refl UsageWindow.day = refl
same_window_refl UsageWindow.week = refl
same_window_refl UsageWindow.month = refl

module _ (P : Prisma) (p : UsageCounter → Bool) (new : UsageCounter) where
  -- The atomic upsert counts one more.
  pub upsert-Holds :
      (n : ℕ) (t : List UsageCounter)
      → p new ≡ true
      → new.count ≡ 1
      → ((c : UsageCounter) → p c ≡ true → p (bump c) ≡ true)
      → Holds p n t
      → ((P.upsert p new bump t).0.count ≡ n + 1) × Holds p (n + 1) (P.upsert p new bump t).1
  upsert-Holds n t fits one stays (inl (empty, none_used)) =
      rw (P.upsert_eq p new bump t, find_first_empty P p unordered t empty)
        (omega arith, inr (new, rw (fits, empty), omega arith))
  upsert-Holds n t fits one stays (inr (c, only, used)) =
      rw (P.upsert_eq p new bump t, find_first_only P p unordered t c only)
        (omega arith, inr (bump c, keep-change p bump t stays ∙ ap (map bump) only, omega arith))

  -- The rows of another key stay as they are.
  pub keep-upsert_other :
      (q : UsageCounter → Bool) (t : List UsageCounter)
      → q new ≡ false
      → ((c : UsageCounter) → p c ≡ true → q c ≡ false)
      → ((c : UsageCounter) → p c ≡ true → q (bump c) ≡ false)
      → keep q (P.upsert p new bump t).1 ≡ keep q t
  keep-upsert_other q t other apart apart' = elim (Option-cases (P.find_first p unordered t)) [
    | inl e ↦ rw (P.upsert_eq p new bump t, e) (rw other)
    | inr (c, e) ↦ rw (P.upsert_eq p new bump t, e) (keep-change_other p q bump t apart apart')
  ]

-- What the gate of one user and one feature reads is a metered entitlement with a hard cap.
pub record IsCapped (P : Prisma) (user : AuthUser) (feature : String) (plan : Plan)
    (row : PlanEntitlement) (window : UsageWindow) (limit : ℕ) (db : Db) : Type 0 where
  pub resolved : resolve_plan P db user ≡ ok plan
  pub found : find_entitlement P db plan feature ≡ some row
  pub enabled : row.enabled ≡ true
  pub described : Feature
  pub typed : feature_type P db row ≡ ok described
  pub metered : described.type ≡ FeatureType.metered
  pub windowed : row.window ≡ some window
  pub capped : row.limit ≡ some limit

-- The same database with other usage counters.
abbrev pub with_counters : Db → List UsageCounter → Db
with_counters db counters = record db { counters = counters }

module _ (P : Prisma) (user : AuthUser) (feature : String) where
  abbrev pub counter_key : UsageWindow → ℕ → UsageCounter → Bool
  counter_key window start = is_counter user.id feature window start

  -- The gate on a capped entitlement is one reservation.
  pub enforce_tx-reserve :
      (plan : Plan) (row : PlanEntitlement) (window : UsageWindow) (limit now : ℕ) (db : Db)
      → IsCapped P user feature plan row window limit db
      → enforce_tx P user feature now db ≡ reserve P db user plan feature row window now
  unfolding enforce_tx
  enforce_tx-reserve plan row window limit now db h =
      ground (arith, h.resolved, h.found, h.enabled, h.typed, h.metered, h.windowed, h.capped)
