-- ===== src/Concierge/Moves.antt =====
-- How a case moves where the row of its request, or a response, is written.
use expertos.Common.{
  ℕ, ◌≡◌, refl, sym, subst, inl, inr, true, false, none, List, [], ◌∷◌, In, any, ◌==◌, ==_refl,
  ==_iff, Bool-cases, arith,
}
use expertos.Orm.{change}
use expertos.Concierge.{
  HumanReviewRequest, ReviewResponse, ConciergeDb, requested, answered, escalated, respondable,
}
use expertos.Concierge.Effects.{verdicts}
use expertos.Concierge.Diagram.{◌⟶◌, stays, is_queued, is_answered, is_escalated}
use expertos.Concierge.Cases.{
  Distinct, status_of, verdicts_of, case_of, status_of_listed, status_of_changed, status_of_other,
}

abbrev pub Tables : Type 0
Tables = List HumanReviewRequest × List ReviewResponse

abbrev pub FollowsTo : ConciergeDb → Tables → Type 0
FollowsTo db t = Distinct t.0 × ((i : ℕ) → case_of i db ⟶ (status_of i t.0, verdicts_of i t.1))

abbrev pub Follows : ConciergeDb → ConciergeDb → Type 0
Follows db db' = FollowsTo db (verdicts db')

pub Follows-none : (db db' : ConciergeDb) → db' ≡ db → Distinct db.requests → Follows db db'
Follows-none db db' e d = subst (λ x. Follows db x) (sym e) (d, λ i. stays)

-- The moves of one case, where the request of a uuid changes its status.
module _ (f : HumanReviewRequest → HumanReviewRequest) (row : HumanReviewRequest)
    (rs : List HumanReviewRequest) (d : Distinct rs) (m : In row rs)
    (o : respondable row.status ≡ true) (ids : (r : HumanReviewRequest) → (f r).id ≡ r.id) where
  pub answered_case :
      (response : ReviewResponse) (responses : List ReviewResponse) (i : ℕ)
      → ((r : HumanReviewRequest) → (f r).status ≡ answered)
      → response.review_request_id ≡ row.id
      → (status_of i rs, verdicts_of i responses)
        ⟶ (status_of i (change (λ r. r.id == row.id) f rs), verdicts_of i (response ∷ responses))
  answered_case response responses i sets e = elim (Bool-cases (row.id == i)) [
    | inl same ↦
        subst
          (λ j. (status_of j rs, verdicts_of j responses) ⟶ (
            status_of j (change (λ r. r.id == row.id) f rs),
            verdicts_of j (response ∷ responses),
          ))
          ((==_iff row.id i).0 same)
          (rw
            (
              status_of_listed row rs d m,
              status_of_changed f ids answered sets row.id row.status rs
                  (status_of_listed row rs d m),
              e,
              ==_refl row.id,
            )
            (is_answered o))
    | inr other ↦ rw (status_of_other f ids answered sets i row.id rs other, e, other) stays
  ]

  pub escalated_case :
      (responses : List ReviewResponse) (i : ℕ)
      → ((r : HumanReviewRequest) → (f r).status ≡ escalated)
      → (status_of i rs, verdicts_of i responses)
        ⟶ (status_of i (change (λ r. r.id == row.id) f rs), verdicts_of i responses)
  escalated_case responses i sets = elim (Bool-cases (row.id == i)) [
    | inl same ↦
        subst
          (λ j.
            (status_of j rs, verdicts_of j responses)
            ⟶ (status_of j (change (λ r. r.id == row.id) f rs), verdicts_of j responses))
          ((==_iff row.id i).0 same)
          (rw
            (
              status_of_listed row rs d m,
              status_of_changed f ids escalated sets row.id row.status rs
                  (status_of_listed row rs d m),
            )
            (is_escalated o))
    | inr other ↦ rw (status_of_other f ids escalated sets i row.id rs other) stays
  ]

unlisted :
    (i : ℕ) (rs : List HumanReviewRequest) → any (λ b. i == b.id) rs ≡ false → status_of i rs ≡ none
unlisted i [] h = refl
unlisted i (r ∷ rs) h = ground (arith, unlisted i rs)

pub queued_case :
    (new : HumanReviewRequest) (rs : List HumanReviewRequest) (responses : List ReviewResponse)
    (i : ℕ)
    → new.status ≡ requested
    → any (λ b. new.id == b.id) rs ≡ false
    → (status_of i rs, verdicts_of i responses) ⟶ (status_of i (new ∷ rs), verdicts_of i responses)
queued_case new rs responses i e free = elim (Bool-cases (new.id == i)) [
  | inl same ↦
      rw
        (
          same,
          e,
          unlisted i rs
              (subst (λ j. any (λ b. j == b.id) rs ≡ false) ((==_iff new.id i).0 same) free),
        )
        is_queued
  | inr other ↦ rw other stays
]
