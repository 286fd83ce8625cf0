-- ===== src/Entitlement/Quota.antt =====
-- The hard cap of a metered feature over a schedule of gates of many users and features.
use expertos.Common.{
  ℕ, ◌+◌, ◌≤◌, ◌<◌, ◌≡◌, refl, inl, inr, false, ◌&&◌, some, List, String, str_eq, eq_iff, ◌==◌,
  keep, arith, ◌∙◌,
}
use expertos.Orm.{Prisma}
use expertos.Database.{ok, err, ◌>>=◌, Result-cases, run_ok, run_err}
use expertos.Entitlement.Gate.{passage}
use expertos.Database.Rows.{Plan, PlanEntitlement, UsageCounter, UsageWindow, AuthUser}
use expertos.Entitlement.Window.{current_window_start}
use expertos.Entitlement.{
  Db, Decision, quota_exceeded, resolve_plan, find_entitlement, feature_type, has_feature_key, deny,
  judge, soften, reserve, enforce_tx, enforce,
}
use expertos.Entitlement.Reserve.{
  Holds, IsCapped, with_counters, counter_key, bump, upsert-Holds, keep-upsert_other,
  enforce_tx-reserve, same_window_refl,
}

module _ (P : Prisma) where
  -- The gate changes no table but the counters.
  pub enforce-frame :
      (user : AuthUser) (feature : String) (now : ℕ) (db : Db)
      → (enforce P user feature now db).1
        ≡ with_counters db (enforce P user feature now db).1.counters
  unfolding enforce enforce_tx reserve
  enforce-frame user feature now db = ground arith

  reserve_other :
      (other user : AuthUser) (feature' feature : String) (window : UsageWindow) (start now : ℕ)
      (db : Db) (plan : Plan) (row : PlanEntitlement) (window' : UsageWindow) (d : Decision)
      (db' : Db)
      → (other.id == user.id && str_eq feature' feature) ≡ false
      → reserve P db other plan feature' row window' now ≡ ok (d, db')
      → keep (counter_key P user feature window start) db'.counters
        ≡ keep (counter_key P user feature window start) db.counters
  unfolding reserve
  reserve_other other user feature' feature window start now db plan row window' d db' apart e =
      let start' = current_window_start window' now in
      let new : UsageCounter = record {
        tenant_id = other.tenant_id;
        user_id = other.id;
        feature_key = feature';
        window = window';
        window_start = start';
        count = 1;
      } in
      let written = P.upsert (counter_key P other feature' window' start') new bump db.counters in
      let same : db'.counters ≡ written.1 = ground arith in
      rw same (
        keep-upsert_other P (counter_key P other feature' window' start') new
          (counter_key P user feature window start) db.counters (ground arith)
          (λ c h. ground (
            arith,
            eq_iff c.feature_key feature',
            eq_iff c.feature_key feature,
            eq_iff feature' feature,
          ))
          (λ c h. ground (
            arith,
            eq_iff c.feature_key feature',
            eq_iff c.feature_key feature,
            eq_iff feature' feature,
          )))

  -- The gate of another user or another feature leaves the counters of this one alone.
  pub enforce_other :
      (other user : AuthUser) (feature' feature : String) (window : UsageWindow) (start now : ℕ)
      (db : Db)
      → (other.id == user.id && str_eq feature' feature) ≡ false
      → keep (counter_key P user feature window start) (enforce P other feature' now db).1.counters
        ≡ keep (counter_key P user feature window start) db.counters
  unfolding enforce
  enforce_other other user feature' feature window start now db apart =
      elim (passage P other feature' now db) [
        | inl (e, refused) ↦ rw (run_err (enforce_tx P other feature' now) db refused)
        | inr (_, inl opened) ↦ rw (run_ok (enforce_tx P other feature' now) db opened)
        | inr (_, inr (plan, row, window', e)) ↦
            elim (Result-cases (reserve P db other plan feature' row window' now)) [
              | inr (f, refused) ↦ rw (run_err (enforce_tx P other feature' now) db (e ∙ refused))
              | inl ((d, db'), done) ↦ rw (run_ok (enforce_tx P other feature' now) db (e ∙ done)) (
                  reserve_other other user feature' feature window start now db plan row window' d
                    db' apart done)
            ]
      ]

module _ (P : Prisma) (user : AuthUser) (feature : String) (plan : Plan) (row : PlanEntitlement)
    (window : UsageWindow) (limit start : ℕ) where
  pub IsCapped-counters :
      (db : Db) (counters : List UsageCounter)
      → IsCapped P user feature plan row window limit db
      → IsCapped P user feature plan row window limit (with_counters db counters)
  unfolding resolve_plan find_entitlement feature_type has_feature_key
  IsCapped-counters db counters h = record {
    resolved = h.resolved;
    found = h.found;
    enabled = h.enabled;
    described = h.described;
    typed = h.typed;
    metered = h.metered;
    windowed = h.windowed;
    capped = h.capped;
  }

  -- What the upsert of the window's counter returns and leaves.
  reserved :
      (n now : ℕ) (db : Db)
      → current_window_start window now ≡ start
      → Holds (counter_key P user feature window start) n db.counters
      → (counter : UsageCounter) × (counters : List UsageCounter) × (counter.count ≡ n + 1)
        × Holds (counter_key P user feature window start) (n + 1) counters
        × (reserve P db user plan feature row window now ≡ (
            judge P db plan feature row counter.count >>= λ d. ok (d, with_counters db counters)))
  unfolding reserve
  reserved n now db at_start holds =
      let key = counter_key P user feature window start in
      let new : UsageCounter = record {
        tenant_id = user.tenant_id;
        user_id = user.id;
        feature_key = feature;
        window = window;
        window_start = start;
        count = 1;
      } in
      let written = P.upsert key new bump db.counters in
      let (counted, holds') =
        upsert-Holds P key new n db.counters
          (ground (arith, eq_iff feature feature, same_window_refl window)) refl (λ c h. h) holds in
      (written.0, written.1, counted, holds', rw at_start)

  -- A reservation within the cap passes, and counts one more.
  pub enforce_pass :
      (n now : ℕ) (db : Db)
      → IsCapped P user feature plan row window limit db
      → current_window_start window now ≡ start
      → Holds (counter_key P user feature window start) n db.counters
      → n < limit
      → ((enforce P user feature now db).0 ≡ ok (soften row.soft_limit (n + 1) feature))
        × Holds
            (counter_key P user feature window start)
            (n + 1)
            (enforce P user feature now db).1.counters
  unfolding enforce judge
  enforce_pass n now db h at_start holds room =
      let (counter, counters, counted, holds', e) = reserved n now db at_start holds in
      let judged : judge P db plan feature row counter.count
          ≡ ok (soften row.soft_limit (n + 1) feature) =
        ground (arith, h.capped) in
      let passed =
        run_ok (enforce_tx P user feature now) db {db' = with_counters db counters}
          (enforce_tx-reserve P user feature plan row window limit now db h ∙ e ∙ rw judged) in
      rw passed (refl, holds')

  -- A reservation past the cap is refused with the plans that would raise it, and rolled back.
  pub enforce_block :
      (n now : ℕ) (db : Db)
      → IsCapped P user feature plan row window limit db
      → current_window_start window now ≡ start
      → Holds (counter_key P user feature window start) n db.counters
      → limit ≤ n
      → enforce P user feature now db
        ≡ (err (deny P db plan feature quota_exceeded (some limit) (some 0)), db)
  unfolding enforce judge
  enforce_block n now db h at_start holds full =
      let (counter, counters, counted, holds', e) = reserved n now db at_start holds in
      let judged : judge P db plan feature row counter.count
          ≡ err (deny P db plan feature quota_exceeded (some limit) (some 0)) =
        ground (arith, h.capped) in
      run_err (enforce_tx P user feature now) db
        (enforce_tx-reserve P user feature plan row window limit now db h ∙ e ∙ rw judged)
