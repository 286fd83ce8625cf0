-- ===== src/Entitlement/Resolution.antt =====
-- Which plan a user is measured against (entitlement.service.ts, resolvePlan).
use expertos.Common.{
  ◌≤◌, ◌<◌, ◌≡◌, refl, ◌⊎◌, inl, inr, true, false, ◌&&◌, List, [], ◌∷◌, arith, Option-cases, keep,
  All, All_in, In, ◌==◌, ==_refl,
}
use expertos.Orm.{Prisma, unordered, desc}
use expertos.Orm.Reads.{find_first_only}
use expertos.Database.{ok}
use expertos.Database.Rows.{Subscription, Plan, AuthUser, is_live}
use expertos.Entitlement.{Db, resolve_plan}

-- The subscription is the one named, another user's, not live, or older.
abbrev pub IsNoRival : AuthUser → Subscription → Subscription → Type 0
IsNoRival user s r =
    (r ≡ s)
    ⊎ ((r.user_id == user.id) ≡ false)
    ⊎ (is_live r.status ≡ false)
    ⊎ (r.created_at < s.created_at)

pub All-IsNoRival :
    (user : AuthUser) (s : Subscription) (t : List Subscription)
    → All (λ r. (r ≡ s) ⊎ (r.created_at < s.created_at)) t
    → All (IsNoRival user s) t
All-IsNoRival user s [] h = tt
All-IsNoRival user s (r ∷ t) h =
    (elim (h.0) [ inl e ↦ inl e | inr l ↦ inr (inr (inr l)) ], All-IsNoRival user s t h.1)

-- The live subscription of a user that is newer than every other live one of that user decides the
-- plan, whatever subscriptions other users have and whichever of the user's are no longer live.
pub resolve_plan-latest :
    (P : Prisma) (db : Db) (user : AuthUser) (s : Subscription) (plan : Plan)
    → In s db.subscriptions
    → s.user_id ≡ user.id
    → is_live s.status ≡ true
    → All (IsNoRival user s) db.subscriptions
    → keep (λ p. p.id == s.plan_id) db.plans ≡ plan ∷ []
    → resolve_plan P db user ≡ ok plan
unfolding resolve_plan
resolve_plan-latest P db user s plan m own live newest one =
    let key = λ (r : Subscription). r.user_id == user.id && is_live r.status in
    let order = desc (λ (r : Subscription). r.created_at) in
    let mine : key s ≡ true = rw (own, ==_refl user.id, live) refl in
    elim (Option-cases (P.find_first key order db.subscriptions)) [
      | inl e ↦
          let none_mine =
            All_in (λ r. key r ≡ false) s db.subscriptions m
              (P.find_first_none key order db.subscriptions e) in
          cc (mine, none_mine)
      | inr (r, e) ↦
          let (listed, mine_r, latest) = P.find_first_some key order db.subscriptions r e in
          let after =
            All_in (λ x. key x ≡ true → x.created_at ≤ r.created_at) s db.subscriptions m latest
              mine in
          let same : r ≡ s = elim (All_in (IsNoRival user s) r db.subscriptions listed newest) [
            | inl h ↦ h
            | inr (inl h) ↦ absurd (ground (arith, h, mine_r))
            | inr (inr (inl h)) ↦ absurd (ground (arith, h, mine_r))
            | inr (inr (inr h)) ↦ absurd (omega arith)
          ] in
          let found = find_first_only P (λ p. p.id == s.plan_id) unordered db.plans plan one in
          rw (e, resolve_plan, same, found) refl
    ]
