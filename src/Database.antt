-- ===== src/Database.antt =====
-- The database as the services see it: results and transactions here, the rows that the
-- entitlement and billing services share in `Rows` (packages/db/prisma/schema.prisma). A table
-- holds the rows that the acting transaction can see under the row-level policies.
pub mod Rows
pub mod Audit
use expertos.Common.{◌≡◌, refl, ◌⊎◌, inl, inr}

pub data Result (E A : Type 0) : Type 0 where
  ok : A → Result E A
  err : E → Result E A

infixl 5 ◌>>=◌
abbrev pub ◌>>=◌ : {E A B : Type 0} → Result E A → (A → Result E B) → Result E B
ok a >>= f = f a
err e >>= f = err e

-- `RlsService.run` (apps/api/src/auth/rls.service.ts) and `runAsSystem`: one transaction. A thrown
-- error rolls it back, so that the state is the one before.
abbrev pub run : {E A D : Type 0} → (D → Result E (A × D)) → D → Result E A × D
run work db = elim (work db) [ ok (a, db') ↦ (ok a, db') | err e ↦ (err e, db) ]

module _ {E A : Type 0} where
  pub Result-cases : (r : Result E A) → ((a : A) × (r ≡ ok a)) ⊎ ((e : E) × (r ≡ err e))
  Result-cases (ok a) = inl (a, refl)
  Result-cases (err e) = inr (e, refl)

  pub run_ok :
      {D : Type 0} (work : D → Result E (A × D)) (db : D) {a : A} {db' : D}
      → work db ≡ ok (a, db')
      → run work db ≡ (ok a, db')
  run_ok work db e = rw (e, run)

  pub run_err :
      {D : Type 0} (work : D → Result E (A × D)) (db : D) {e : E}
      → work db ≡ err e
      → run work db ≡ (err e, db)
  run_err work db e = rw (e, run)
