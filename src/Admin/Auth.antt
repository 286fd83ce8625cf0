-- ===== src/Admin/Auth.antt =====
-- apps/api/src/auth: the sign-in (auth.service.ts, beta-gate.service.ts) and the guard of a route
-- (roles.guard.ts, packages/shared/src/roles.ts). The token has been verified by a third party.
use expertos.Common.{
  ℕ, ◌+◌, Bool, true, false, not, ◌&&◌, Option, none, some, String, str_eq, if◌then◌else◌, leb, ltb,
  ◌==◌, is_some, or_else,
}
use expertos.Orm.{Prisma, unordered}
use expertos.Database.{Result, ok, err, ◌>>=◌, run}
use expertos.Database.Rows.{AuthUser, Role}
use expertos.Admin.{
  Account, AdminDb, AdminError, unique_violation, unauthorized, forbidden, beta_access_denied,
}

pub record DecodedIdToken : Type 0 where
  pub uid : String
  pub email : Option String
  pub name : Option String

-- What `BetaGateService` keeps: the flag and the time until which it is served.
pub record GateSnapshot : Type 0 where
  pub value : Bool
  pub expires_at : ℕ

abbrev pub cache_ttl_ms : ℕ
cache_ttl_ms = 30000

abbrev pub global_tenant_id : ℕ
global_tenant_id = 0

abbrev pub rank : Role → ℕ
rank Role.user = 0
rank Role.expert = 1
rank Role.admin = 2

abbrev pub satisfies_role : Role → Role → Bool
satisfies_role actual required = leb (rank required) (rank actual)

abbrev pub is_consumer : Role → Bool
is_consumer Role.user = true
is_consumer _ = false

-- The row of the settings is read on a miss alone; without one the gate is on.
unfoldable pub read_gate : ℕ → Option Bool → Bool × Option GateSnapshot
read_gate now settings =
    let value = or_else settings true in
    (value, some (record { value = value; expires_at = now + cache_ttl_ms }))

unfoldable pub is_enabled : ℕ → Option Bool → Option GateSnapshot → Bool × Option GateSnapshot
is_enabled now settings none = read_gate now settings
is_enabled now settings (some snapshot) =
    if ltb now snapshot.expires_at then (snapshot.value, some snapshot) else read_gate now settings

abbrev pub bust : Option GateSnapshot → Option GateSnapshot
bust cached = none

-- `RolesGuard.canActivate`: a route without a requirement is open to every user that is signed in.
unfoldable pub can_activate : Option Role → Option AuthUser → Result AdminError Bool
can_activate none principal = ok true
can_activate (some required) none = err unauthorized
can_activate (some required) (some principal) =
    if satisfies_role principal.role required then ok true else err forbidden

abbrev pub new_account : DecodedIdToken → ℕ → ℕ → Account
new_account token fresh now = record {
  id = fresh;
  tenant_id = global_tenant_id;
  firebase_uid = token.uid;
  email = or_else token.email "";
  display_name = token.name;
  role = Role.user;
  locale = "en";
  created_at = now;
  updated_at = now;
}

abbrev pub to_auth_user : Account → AuthUser
to_auth_user row = record {
  id = row.id;
  tenant_id = row.tenant_id;
  email = row.email;
  role = row.role;
}

module _ (P : Prisma) (normalized : String → String) where
  unfoldable pub find_or_create :
      DecodedIdToken → ℕ → ℕ → AdminDb → Result AdminError (Account × AdminDb)
  find_or_create token fresh now db =
      elim (P.find_first (λ u. str_eq u.firebase_uid token.uid) unordered db.users) [
        | some existing ↦ ok (existing, db)
        | none ↦
            elim (P.create (λ a b. str_eq a.firebase_uid b.firebase_uid)
              (new_account token fresh now) db.users) [
                | none ↦ err unique_violation
                | some users ↦ ok (new_account token fresh now, record db { users = users })
              ]
      ]

  unfoldable pub is_allowed : Account → AdminDb → Bool
  is_allowed row db = is_some (
      P.find_first (λ e. e.tenant_id == global_tenant_id && str_eq e.email (normalized row.email))
        unordered db.allowed_emails)

  unfoldable pub admit : Bool → Account × AdminDb → Result AdminError (AuthUser × AdminDb)
  admit gate_enabled (row, db) =
      if is_consumer row.role && gate_enabled && not (is_allowed row db)
      then err beta_access_denied
      else ok (to_auth_user row, db)

  unfoldable pub resolve_user_tx :
      DecodedIdToken → Bool → ℕ → ℕ → AdminDb → Result AdminError (AuthUser × AdminDb)
  resolve_user_tx token gate_enabled fresh now db =
      find_or_create token fresh now db >>= admit gate_enabled

  unfoldable pub resolve_user :
      DecodedIdToken → Bool → ℕ → ℕ → AdminDb → Result AdminError AuthUser × AdminDb
  resolve_user token gate_enabled fresh now db =
      run (resolve_user_tx token gate_enabled fresh now) db
