-- ===== src/Entitlement/Gate.antt =====
-- The three ways through the gate: refused, open with nothing to meter, or a reservation.
use expertos.Common.{
  ℕ, ◌≡◌, ◌⊎◌, inl, inr, true, none, some, String, arith, Bool-cases, Option-cases, ap, In,
}
use expertos.Orm.{Prisma}
use expertos.Database.{ok, err, Result-cases, run_err}
use expertos.Database.Rows.{Plan, PlanEntitlement, UsageWindow, AuthUser}
use expertos.Entitlement.Standing.{IsPlanOf, IsFor, found-row, resolved-IsPlanOf}
use expertos.Entitlement.{
  Db, Error, Decision, allow, feature_disabled, resolve_plan, find_entitlement, feature_type, deny,
  reserve, unmetered, enforce_tx, enforce,
}

-- What the gate's queries have found where it lets a request pass.
pub record IsOpen (P : Prisma) (db : Db) (user : AuthUser) (feature : String) : Type 0 where
  pub plan : Plan
  pub row : PlanEntitlement
  pub resolved : resolve_plan P db user ≡ ok plan
  pub found : find_entitlement P db plan feature ≡ some row
  pub enabled : row.enabled ≡ true

-- The user's plan has an enabled entitlement for the feature, as the tables stand.
pub record IsGranted (db : Db) (user : AuthUser) (feature : String) : Type 0 where
  pub plan : Plan
  pub row : PlanEntitlement
  pub held : IsPlanOf db user plan
  pub listed : In row db.entitlements
  pub of_plan : row.plan_id ≡ plan.id
  pub about : IsFor db feature row
  pub enabled : row.enabled ≡ true

abbrev pub Passage : Prisma → AuthUser → String → ℕ → Db → Type 0
Passage P user feature now db =
    ((e : Error) × (enforce_tx P user feature now db ≡ err e))
    ⊎ (IsOpen P db user feature
        × ((enforce_tx P user feature now db ≡ ok (allow, db))
            ⊎ ((plan : Plan) × (row : PlanEntitlement) × (window : UsageWindow) × (enforce_tx P user
                    feature now db
                  ≡ reserve P db user plan feature row window now))))

module _ (P : Prisma) (user : AuthUser) (feature : String) (now : ℕ) (db : Db) where
  Passage-enabled :
      (plan : Plan) (row : PlanEntitlement)
      → resolve_plan P db user ≡ ok plan
      → find_entitlement P db plan feature ≡ some row
      → row.enabled ≡ true
      → Passage P user feature now db
  unfolding enforce_tx
  Passage-enabled plan row r q on =
      let granted : IsOpen P db user feature = record {
        plan = plan;
        row = row;
        resolved = r;
        found = q;
        enabled = on;
      } in
      elim (Result-cases (feature_type P db row)) [
        | inr (e, t) ↦ inl (e, ground arith)
        | inl (f, t) ↦ elim (Bool-cases (unmetered P f.type row)) [
          | inl u ↦ inr (granted, inl (ground arith))
          | inr u ↦ elim (Option-cases row.window) [
            | inl w ↦ inr (granted, inl (ground arith))
            | inr (window, w) ↦ inr (granted, inr (plan, row, window, ground arith))
          ]
        ]
      ]

  pub passage : Passage P user feature now db
  unfolding enforce_tx
  passage = elim (Result-cases (resolve_plan P db user)) [
    | inr (e, r) ↦ inl (e, ground arith)
    | inl (plan, r) ↦ elim (Option-cases (find_entitlement P db plan feature)) [
      | inl q ↦ inl (deny P db plan feature feature_disabled none none, ground arith)
      | inr (row, q) ↦ elim (Bool-cases row.enabled) [
        | inl on ↦ Passage-enabled plan row r q on
        | inr off ↦ inl (deny P db plan feature feature_disabled none none, ground arith)
      ]
    ]
  ]

  -- The gate fails closed: it lets a request pass only if the plan of the user's newest live
  -- subscription, or the Free plan where the user has no live subscription, has an enabled entitlement
  -- for the feature with the key that was asked for.
  pub enforce-IsGranted :
      (d : Decision) → (enforce P user feature now db).0 ≡ ok d → IsGranted db user feature
  unfolding enforce
  enforce-IsGranted d h = elim passage [
    | inl (e, refused) ↦
        absurd (cc (h, ap (λ x. x.0) (run_err (enforce_tx P user feature now) db refused)))
    | inr (o, _) ↦
        let (listed, of_plan, about) = found-row P db o.plan feature o.row o.found in
        record {
          plan = o.plan;
          row = o.row;
          held = resolved-IsPlanOf P db user o.plan o.resolved;
          listed = listed;
          of_plan = of_plan;
          about = about;
          enabled = o.enabled;
        }
  ]
