-- ===== src/Orm.antt =====
-- The database client (Prisma over Postgres) as the services under apps/api/src use it. It is a
-- third-party package: its queries are a parameter, with the documented behaviour as laws. A table
-- is the list of its rows; no definition of this library reads a table but through a query.
pub mod Reads
pub mod Listed
pub mod Tables
use expertos.Common.{
  ℕ, ◌≤◌, ◌≡◌, ◌↔◌, Bool, true, false, not, Option, none, some, List, [], ◌∷◌, map, All, In, any,
  keep, length, if◌then◌else◌,
}

-- `orderBy`: no order, or a number (a timestamp, a rank) that rises or falls.
pub data Order (Row : Type 0) : Type 0 where
  unordered : Order Row
  asc : (Row → ℕ) → Order Row
  desc : (Row → ℕ) → Order Row

-- `r` may stand before `s` in a result that has the order.
abbrev pub Precedes : {Row : Type 0} → Order Row → Row → Row → Type 0
Precedes unordered r s = Unit
Precedes (asc key) r s = key r ≤ key s
Precedes (desc key) r s = key s ≤ key r

abbrev pub IsOrdered : {Row : Type 0} → Order Row → List Row → Type 0
IsOrdered o [] = Unit
IsOrdered o (r ∷ rs) = All (Precedes o r) rs × IsOrdered o rs

-- Every row that passes the test, changed.
abbrev pub change : {Row : Type 0} → (Row → Bool) → (Row → Row) → List Row → List Row
change p f t = map (λ r. if p r then f r else r) t

-- The result of `upsert`, from the row that is found.
abbrev pub upserted :
    {Row : Type 0} → (Row → Bool) → Row → (Row → Row) → List Row → Option Row → Row × List Row
upserted p new f t none = (new, new ∷ t)
upserted p new f t (some r) = (f r, change p f t)

pub record Prisma : Type 1 where
  -- `findFirst`, and `findUnique` where the test pins a unique key.
  pub find_first : {Row : Type 0} → (Row → Bool) → Order Row → List Row → Option Row
  pub find_many : {Row : Type 0} → (Row → Bool) → Order Row → List Row → List Row
  pub count : {Row : Type 0} → (Row → Bool) → List Row → ℕ
  -- `create`: `none` is the error P2002, a row that agrees on a unique key is there already.
  pub create : {Row : Type 0} → (Row → Row → Bool) → Row → List Row → Option (List Row)
  -- `update` where the test pins a unique key, and `updateMany`.
  pub update_many : {Row : Type 0} → (Row → Bool) → (Row → Row) → List Row → List Row
  -- `upsert`, where the test pins a unique key: the row that results, and the table.
  pub upsert : {Row : Type 0} → (Row → Bool) → Row → (Row → Row) → List Row → Row × List Row
  pub delete_many : {Row : Type 0} → (Row → Bool) → List Row → List Row
  pub find_first_some :
      {Row : Type 0} (p : Row → Bool) (o : Order Row) (t : List Row) (r : Row)
      → find_first p o t ≡ some r
      → In r t × (p r ≡ true) × All (λ s. p s ≡ true → Precedes o r s) t
  pub find_first_none :
      {Row : Type 0} (p : Row → Bool) (o : Order Row) (t : List Row)
      → find_first p o t ≡ none
      → All (λ s. p s ≡ false) t
  pub find_many_in :
      {Row : Type 0} (p : Row → Bool) (o : Order Row) (t : List Row) (r : Row)
      → In r (find_many p o t) ↔ (In r t × (p r ≡ true))
  pub find_many_order :
      {Row : Type 0} (p : Row → Bool) (o : Order Row) (t : List Row) → IsOrdered o (find_many p o t)
  pub count_eq : {Row : Type 0} (p : Row → Bool) (t : List Row) → count p t ≡ length (keep p t)
  pub create_eq :
      {Row : Type 0} (same : Row → Row → Bool) (r : Row) (t : List Row)
      → create same r t ≡ (if any (same r) t then none else some (r ∷ t))
  pub update_many_eq :
      {Row : Type 0} (p : Row → Bool) (f : Row → Row) (t : List Row)
      → update_many p f t ≡ change p f t
  pub upsert_eq :
      {Row : Type 0} (p : Row → Bool) (new : Row) (f : Row → Row) (t : List Row)
      → upsert p new f t ≡ upserted p new f t (find_first p unordered t)
  pub delete_many_eq :
      {Row : Type 0} (p : Row → Bool) (t : List Row) → delete_many p t ≡ keep (λ r. not (p r)) t
