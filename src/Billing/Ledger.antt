-- ===== src/Billing/Ledger.antt =====
-- The revenue ledger under redelivery and under a race (billing.service.ts, appendLedgerEntry).
use expertos.Common.{
  ℕ, ◌≤◌, ◌≡◌, refl, ◌⊎◌, inl, inr, Bool, true, false, List, [], ◌∷◌, ◌++◌, String, eq_iff, arith,
  Bool-cases, Option-cases, keep, any, In, length, length-append, ap,
}
use expertos.Orm.{Prisma, unordered}
use expertos.Orm.Reads.{In-keep}
use expertos.Database.{ok, run, run_ok}
use expertos.Database.Rows.{Transaction}
use expertos.Billing.{
  PaymentProvider, LedgerEntry, BillingDb, transaction, apply_event, append_ledger_entry, is_entry,
  same_transaction, ledger_row,
}

length-keep_pos :
    {A : Type 0} (p : A → Bool) (x : A) (l : List A) → In x l → p x ≡ true → 1 ≤ length (keep p l)
length-keep_pos p x l m h =
    elim (keep p l) as (λ k. In x k → 1 ≤ length k) [
      | [] ↦ λ i. absurd i
      | y ∷ ys ↦ λ i. omega arith
    ]
      (In-keep p x l m h)

any-false-keep : {A : Type 0} (p : A → Bool) (l : List A) → any p l ≡ false → keep p l ≡ []
any-false-keep p [] h = refl
any-false-keep p (x ∷ l) h = ground (arith, any-false-keep p l)

any-true-keep : {A : Type 0} (p : A → Bool) (l : List A) → any p l ≡ true → 1 ≤ length (keep p l)
any-true-keep p [] h = cc
any-true-keep p (x ∷ l) h = ground (arith, any-true-keep p l)

keep-append :
    {A : Type 0} (p : A → Bool) (xs ys : List A) → keep p (xs ++ ys) ≡ keep p xs ++ keep p ys
keep-append p [] ys = refl
keep-append p (x ∷ xs) ys = elim (Bool-cases (p x)) [
  | inl e ↦ rw (e, keep-append p xs ys) refl
  | inr e ↦ rw (e, keep-append p xs ys) refl
]

any_ext : {A : Type 0} (p q : A → Bool) (l : List A) → ((x : A) → p x ≡ q x) → any p l ≡ any q l
any_ext p q [] h = refl
any_ext p q (x ∷ l) h = rw (h x, any_ext p q l h) refl

module _ (P : Prisma) (provider : PaymentProvider) where
  abbrev pub rows_for : String → List Transaction → ℕ
  rows_for ref l = length (keep (is_entry P provider ref) l)

  ledger_row-is_entry :
      (event : LedgerEntry) (db : BillingDb)
      → is_entry P provider event.provider_ref (ledger_row P provider event db) ≡ true
  unfolding ledger_row is_entry
  ledger_row-is_entry event db =
      rw
        (
          (eq_iff provider.name provider.name).1 refl,
          (eq_iff event.provider_ref event.provider_ref).1 refl,
        )
        refl

  same_transaction_eq :
      (event : LedgerEntry) (db : BillingDb) (l : List Transaction)
      → any (same_transaction P provider (ledger_row P provider event db)) l
        ≡ any (is_entry P provider event.provider_ref) l
  unfolding same_transaction is_entry ledger_row
  same_transaction_eq event db l = refl

  -- The effect of one delivery, whatever ran beside it: the concurrent rows, and the row of this
  -- event in front of them unless one is there already.
  pub append-cases :
      (event : LedgerEntry) (meanwhile : List Transaction) (db : BillingDb)
      → let all = meanwhile ++ db.transactions in
        ((1 ≤ rows_for event.provider_ref all)
          × (append_ledger_entry P provider event meanwhile db
              ≡ ok (tt, record db { transactions = all })))
        ⊎ ((rows_for event.provider_ref all ≡ 0)
            × (append_ledger_entry P provider event meanwhile db
                ≡ ok (tt, record db { transactions = ledger_row P provider event db ∷ all })))
  unfolding append_ledger_entry
  append-cases event meanwhile db =
      let key = is_entry P provider event.provider_ref in
      let all = meanwhile ++ db.transactions in
      elim (Option-cases (P.find_first key unordered db.transactions)) [
        | inr (dup, e) ↦
            let (m, h, _) = P.find_first_some key unordered db.transactions dup e in
            inl (
              rw (keep-append key meanwhile db.transactions) (
                  omega (
                    arith,
                    length-append (keep key meanwhile) (keep key db.transactions),
                    length-keep_pos key dup db.transactions m h,
                  )),
              rw (e, append_ledger_entry) refl,
            )
        | inl e ↦ elim (Bool-cases (any key all)) [
          | inl a ↦ inl (
            any-true-keep key all a,
            rw (e, append_ledger_entry, P.create_eq, same_transaction_eq event db all, a) refl,
          )
          | inr a ↦ inr (
            ap length (any-false-keep key all a),
            rw (e, append_ledger_entry, P.create_eq, same_transaction_eq event db all, a) refl,
          )
        ]
      ]

  -- Delivered while other transactions commit, an event that the ledger's unique key allows leaves
  -- exactly one row under its reference: also where a concurrent delivery of it wins the race.
  pub ledger_exactly_once :
      (event : LedgerEntry) (id now : ℕ) (meanwhile : List Transaction) (db : BillingDb)
      → rows_for event.provider_ref (meanwhile ++ db.transactions) ≤ 1
      → let (result, db') = apply_event P provider (transaction event) id now meanwhile db in
        (result ≡ ok tt) × (rows_for event.provider_ref db'.transactions ≡ 1)
  unfolding apply_event
  ledger_exactly_once event id now meanwhile db h = elim (append-cases event meanwhile db) [
    | inl (p, e) ↦ rw (e, run) (refl, omega arith)
    | inr (p, e) ↦ rw (e, run) (refl, rw (ledger_row-is_entry event db) (omega (arith, p)))
  ]

  -- Where a row of the event is there, a delivery changes nothing.
  settled_append :
      (event : LedgerEntry) (db : BillingDb)
      → 1 ≤ rows_for event.provider_ref db.transactions
      → run (append_ledger_entry P provider event []) db ≡ (ok tt, db)
  settled_append event db h = elim (append-cases event [] db) [
    | inl (p, e) ↦ rw (e, run) refl
    | inr (p, e) ↦ absurd (omega arith)
  ]

  -- A redelivered event, after any first delivery, changes nothing.
  pub ledger_redelivery :
      (event : LedgerEntry) (id now id' now' : ℕ) (meanwhile : List Transaction) (db : BillingDb)
      → let db' = (apply_event P provider (transaction event) id now meanwhile db).1 in
        apply_event P provider (transaction event) id' now' [] db' ≡ (ok tt, db')
  unfolding apply_event
  ledger_redelivery event id now id' now' meanwhile db = elim (append-cases event meanwhile db) [
    | inl (p, e) ↦
        rw (run_ok (append_ledger_entry P provider event meanwhile) db e)
          (settled_append event (record db { transactions = meanwhile ++ db.transactions }) p)
    | inr (p, e) ↦
        let row = ledger_row P provider event db in
        rw (run_ok (append_ledger_entry P provider event meanwhile) db e) (
          settled_append event (record db { transactions = row ∷ (meanwhile ++ db.transactions) })
            (rw (ledger_row-is_entry event db) (omega arith)))
  ]
