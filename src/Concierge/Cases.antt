-- ===== src/Concierge/Cases.antt =====
-- The case of a request, read off the tables of requests and responses.
use expertos.Common.{
  ℕ, ◌≡◌, refl, sym, ap, ◌∙◌, inl, inr, Bool, true, false, Option, none, some, List, [], ◌∷◌, In,
  any, keep, length, if◌then◌else◌, ◌==◌, ==_refl, ==_iff, Bool-cases, arith,
}
use expertos.Orm.{change}
use expertos.Orm.Reads.{keep-change_stable}
use expertos.Orm.Tables.{length-change}
use expertos.Concierge.{ReviewRequestStatus, HumanReviewRequest, ReviewResponse, ConciergeDb}
use expertos.Concierge.Effects.{mark_delivered}
use expertos.Concierge.Diagram.{Case}

-- The uuids differ.
abbrev pub Distinct : List HumanReviewRequest → Type 0
Distinct [] = Unit
Distinct (r ∷ rs) = (any (λ s. r.id == s.id) rs ≡ false) × Distinct rs

abbrev pub status_of : ℕ → List HumanReviewRequest → Option ReviewRequestStatus
status_of i [] = none
status_of i (r ∷ rs) = if r.id == i then some r.status else status_of i rs

abbrev pub verdicts_of : ℕ → List ReviewResponse → ℕ
verdicts_of i rs = length (keep (λ r. r.review_request_id == i) rs)

abbrev pub case_of : ℕ → ConciergeDb → Case
case_of i db = (status_of i db.requests, verdicts_of i db.responses)

any-listed :
    (i : ℕ) (row : HumanReviewRequest) (rs : List HumanReviewRequest)
    → In row rs
    → row.id ≡ i
    → any (λ s. i == s.id) rs ≡ true
any-listed i row [] m e = absurd m
any-listed i row (r ∷ rs) (inl same) e = rw (← same) (rw e (rw (==_refl i) refl))
any-listed i row (r ∷ rs) (inr m) e = ground (arith, any-listed i row rs m e)

-- The row of a uuid gives the status.
pub status_of_listed :
    (row : HumanReviewRequest) (rs : List HumanReviewRequest)
    → Distinct rs
    → In row rs
    → status_of row.id rs ≡ some row.status
status_of_listed row [] d m = absurd m
status_of_listed row (r ∷ rs) d (inl same) = rw same (rw (==_refl r.id) refl)
status_of_listed row (r ∷ rs) d (inr m) = elim (Bool-cases (r.id == row.id)) [
  | inl e ↦ absurd (cc (d.0, any-listed r.id row rs m (sym ((==_iff r.id row.id).0 e))))
  | inr e ↦ rw e (status_of_listed row rs (d.1) m)
]

module _ (f : HumanReviewRequest → HumanReviewRequest)
    (ids : (r : HumanReviewRequest) → (f r).id ≡ r.id) (s : ReviewRequestStatus)
    (sets : (r : HumanReviewRequest) → (f r).status ≡ s) where
  pub status_of_changed :
      (i : ℕ) (old : ReviewRequestStatus) (rs : List HumanReviewRequest)
      → status_of i rs ≡ some old
      → status_of i (change (λ r. r.id == i) f rs) ≡ some s
  status_of_changed i old [] h = cc
  status_of_changed i old (r ∷ rs) h = elim (Bool-cases (r.id == i)) [
    | inl e ↦ rw (e, ids r, e, sets r) refl
    | inr e ↦ rw (e, e) (status_of_changed i old rs (rw e at h))
  ]

  pub status_of_other :
      (i j : ℕ) (rs : List HumanReviewRequest)
      → (j == i) ≡ false
      → status_of i (change (λ r. r.id == j) f rs) ≡ status_of i rs
  status_of_other i j [] h = refl
  status_of_other i j (r ∷ rs) h = elim (Bool-cases (r.id == j)) [
    | inl e ↦
        let out : (r.id == i) ≡ false = ground arith in
        rw (e, ids r, out) (status_of_other i j rs h)
    | inr e ↦ rw e (ap (λ t. if r.id == i then some r.status else t) (status_of_other i j rs h))
  ]

  pub Distinct-change :
      (j : ℕ) (rs : List HumanReviewRequest) → Distinct rs → Distinct (change (λ r. r.id == j) f rs)
  Distinct-change j [] d = tt
  Distinct-change j (r ∷ rs) d = (
    any-same (if r.id == j then f r else r) r rs (same_id r (r.id == j)) (d.0),
    Distinct-change j rs (d.1),
  )
    where
      same_id : (r : HumanReviewRequest) (b : Bool) → (if b then f r else r).id ≡ r.id
      same_id r true = ids r
      same_id r false = refl

      any-same :
          (q r : HumanReviewRequest) (rs : List HumanReviewRequest)
          → q.id ≡ r.id
          → any (λ s. r.id == s.id) rs ≡ false
          → any (λ s. q.id == s.id) (change (λ r. r.id == j) f rs) ≡ false
      any-same q r [] e h = refl
      any-same q r (s ∷ rs) e h = rw (e, same_id s (s.id == j)) (ground (arith, any-same q r rs e))

-- A delivery changes no count.
pub verdicts_of_delivered :
    (i id : ℕ) (rs : List ReviewResponse)
    → verdicts_of i (change (λ r. r.id == id) mark_delivered rs) ≡ verdicts_of i rs
verdicts_of_delivered i id rs =
    ap length (
      keep-change_stable (λ r. r.id == id) (λ r. r.review_request_id == i) mark_delivered rs
        (λ r. refl))
    ∙ length-change (λ r. r.id == id) mark_delivered (keep (λ r. r.review_request_id == i) rs)
