-- ===== src/Entitlement/Schedule.antt =====
-- The hard cap of a metered feature over a schedule of gates of many users and features.
use Prim.Native.Nat.{min}
use native.Mathlib.Decide.{dec_lt}
use expertos.Common.{
  ℕ, suc, ◌+◌, ◌-◌, ◌≤◌, ◌≡◌, false, ◌&&◌, List, [], ◌∷◌, String, str_eq, ◌==◌, keep, arith, length,
}
use expertos.Orm.{Prisma}
use expertos.Database.{Result, ok, err}
use expertos.Database.Rows.{Plan, PlanEntitlement, UsageWindow, AuthUser}
use expertos.Entitlement.Window.{current_window_start}
use expertos.Entitlement.{Db, Error, Decision, enforce, current_usage}
use expertos.Entitlement.Reserve.{Holds, Holds-of_unique, IsCapped, counter_key}
use expertos.Entitlement.Quota.{
  enforce-frame, enforce_other, IsCapped-counters, enforce_pass, enforce_block,
}

-- One request at the gate: the user's own for the feature, or another.
pub data Turn : Type 0 where
  own : ℕ → Turn
  foreign : AuthUser → String → ℕ → Turn

module _ (P : Prisma) (user : AuthUser) (feature : String) (plan : Plan) (row : PlanEntitlement)
    (window : UsageWindow) (limit start : ℕ) where
  -- The user's own requests fall in the window; the others are of another user or feature.
  abbrev pub InWindow : List Turn → Type 0
  InWindow [] = Unit
  InWindow (own now ∷ turns) = (current_window_start window now ≡ start) × InWindow turns
  InWindow (foreign other wanted now ∷ turns) =
      ((other.id == user.id && str_eq wanted feature) ≡ false) × InWindow turns

  abbrev pub owned : List Turn → ℕ
  owned [] = 0
  owned (own now ∷ turns) = suc (owned turns)
  owned (foreign other wanted now ∷ turns) = owned turns

  abbrev passed : Result Error Decision → ℕ
  passed (ok d) = 1
  passed (err e) = 0

  -- How many of the user's own requests pass, when the turns run one after another.
  pub admitted : List Turn → Db → ℕ
  admitted [] db = 0
  admitted (own now ∷ turns) db =
      passed (enforce P user feature now db).0 + admitted turns (enforce P user feature now db).1
  admitted (foreign other wanted now ∷ turns) db = admitted turns (enforce P other wanted now db).1

  IsCapped-after :
      (other : AuthUser) (wanted : String) (now : ℕ) (db : Db)
      → IsCapped P user feature plan row window limit db
      → IsCapped P user feature plan row window limit (enforce P other wanted now db).1
  IsCapped-after other wanted now db h =
      rw (enforce-frame P other wanted now db)
        (IsCapped-counters P user feature plan row window limit start db _ h)

  admitted_from :
      (n : ℕ) (turns : List Turn) (db : Db)
      → IsCapped P user feature plan row window limit db
      → Holds (counter_key P user feature window start) n db.counters
      → InWindow turns
      → admitted turns db + min n limit ≡ min (n + owned turns) limit
  unfolding admitted
  admitted_from n [] db h holds w = omega arith
  admitted_from n (own now ∷ turns) db h holds (at_start, w) = elim (dec_lt n limit) [
    | yes room ↦
        let (passes, holds') =
          enforce_pass P user feature plan row window limit start n now db h at_start holds room in
        let ih = admitted_from (n + 1) turns _ (IsCapped-after user feature now db h) holds' w in
        rw passes (omega (arith, ih))
    | no full ↦
        let blocked =
          enforce_block P user feature plan row window limit start n now db h at_start holds
            (omega arith) in
        let ih = admitted_from n turns db h holds w in rw blocked (omega (arith, ih))
  ]
  admitted_from n (foreign other wanted now ∷ turns) db h holds (apart, w) =
      let same = enforce_other P other user wanted feature window start now db apart in
      admitted_from n turns _ (IsCapped-after other wanted now db h) (rw same holds) w

  -- Where the counters obey their unique key, and the user's plan caps the feature: over any schedule
  -- in which the user's own requests fall in one window, whatever other users and features do in
  -- between, exactly as many of the user's requests pass as the cap leaves over the usage so far.
  pub admitted_exact :
      (first : ℕ) (turns : List Turn) (db : Db)
      → IsCapped P user feature plan row window limit db
      → current_window_start window first ≡ start
      → length (keep (counter_key P user feature window start) db.counters) ≤ 1
      → InWindow turns
      → admitted turns db ≡ min (owned turns) (limit - current_usage P db user feature window first)
  unfolding current_usage
  admitted_exact first turns db h at_start unique w =
      let holds = Holds-of_unique P (counter_key P user feature window start) db.counters unique in
      rw at_start (omega (arith, admitted_from _ turns db h holds w))
