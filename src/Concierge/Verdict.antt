-- ===== src/Concierge/Verdict.antt =====
-- A verdict on every branch (concierge-review.service.ts, respond).
use expertos.Common.{
  ℕ, ◌≡◌, refl, sym, ap, ◌∙◌, subst, ◌⊎◌, inl, inr, Bool, true, false, not, String, str_eq, none,
  some, Option, In, ◌==◌, Bool-cases,
}
use expertos.Orm.{Prisma, change}
use expertos.Orm.Reads.{In-change, In-change_hit}
use expertos.Database.{ok, err, run}
use expertos.Database.Rows.{AuthUser}
use expertos.Concierge.{
  HumanReviewRequest, ReviewResponse, Message, ConciergeDb, ReviewError, respondable,
  ReviewRequestStatus,
}
use expertos.Concierge.Flywheel.{FlywheelInput, FlywheelEnv, apply_review_outcome}
use expertos.Concierge.Delivery.{DeliveryInput, DeliveryEnv, deliver}
use expertos.Concierge.Review.{
  ReviewResponseCreateInput, FreshIds, new_response, flywheel_input, delivery_input, after_commit,
  respond,
}
use expertos.Concierge.Outcome.{IsInVoice, answered_db, respond_tx-cases}
use expertos.Concierge.Effects.{kept, mark_delivered, apply_review_outcome-kept, deliver-marks}

-- There is a text, and it is not the other.
abbrev pub differs : Option String → String → Bool
differs none other = false
differs (some text) other = not (str_eq text other)

module _ (P : Prisma) (flywheel : FlywheelEnv) (delivery : DeliveryEnv) where
  -- After the commit the response is still there, marked or not, and the requests are as they were.
  after_commit-response :
      (f : FlywheelInput) (g : DeliveryInput) (fresh now : ℕ) (db1 : ConciergeDb)
      (response : ReviewResponse)
      → In response db1.responses
      → let after = deliver P delivery g fresh now (apply_review_outcome P flywheel f now db1) in
        (In response after.responses ⊎ In (mark_delivered response) after.responses)
        × (after.requests ≡ db1.requests)
  after_commit-response f g fresh now db1 response m =
      let db2 = apply_review_outcome P flywheel f now db1 in
      let e2 : kept db2 ≡ kept db1 = apply_review_outcome-kept P flywheel f now db1 in
      let m2 : In response db2.responses = subst (λ t. In response (t.1.1)) (sym e2) m in
      elim (deliver-marks P delivery g fresh now db2) [
        | inl e ↦ (inl (subst (λ t. In response (t.1.1)) (sym e) m2), ap (λ t. t.1.0) (e ∙ e2))
        | inr e ↦ (
          elim (Bool-cases (response.id == g.response_id)) [
            | inl k ↦ inr (
                subst (λ t. In (mark_delivered response) (t.1.1)) (sym e)
                  (In-change_hit (λ r. r.id == g.response_id) mark_delivered response db2.responses
                    m2 k))
            | inr k ↦ inl (
                subst (λ t. In response (t.1.1)) (sym e)
                  (subst
                    (λ x. In x (change (λ r. r.id == g.response_id) mark_delivered db2.responses))
                    (rw k refl)
                    (In-change (λ r. r.id == g.response_id) mark_delivered response db2.responses
                      m2)))
          ],
          ap (λ t. t.1.0) e ∙ ap (λ t. t.1.0) e2,
        )
      ]

  -- The verdict stands beside a request that was open and in the reviewer's voice, and closes it.
  pub record IsRecorded (user : AuthUser) (requested_expert_id : Option ℕ) (id : ℕ)
      (input : ReviewResponseCreateInput) (fresh now : ℕ) (db after : ConciergeDb)
      (response : ReviewResponse) : Type 0 where
    pub row : HumanReviewRequest
    pub message : Message
    pub voice : IsInVoice P user requested_expert_id id db row message
    pub still_open : respondable row.status ≡ true
    pub verdict : response ≡ record {
      id = fresh;
      tenant_id = user.tenant_id;
      review_request_id = row.id;
      reviewer_id = user.id;
      verdict = input.verdict;
      original_answer = message.content;
      revised_answer = input.revised_answer;
      edited = differs input.revised_answer message.content;
      notes = input.notes;
      delivered_to_user = false;
      created_at = now;
    }
    pub listed : In response after.responses ⊎ In (mark_delivered response) after.responses
    pub closes :
        after.requests
        ≡ change
            (λ r. r.id == row.id)
            (λ r. record r {
              status = ReviewRequestStatus.answered;
              answered_at = some now;
              assignee_id = some user.id;
            })
            db.requests

  -- A verdict is refused and leaves the database as it was, or it is answered with a response: then
  -- the request was open and in the reviewer's voice; the response has the reviewer's verdict,
  -- revision and notes, and whether the revision differs from the answer, and is in the table, marked
  -- as delivered or not; and the request is answered. It is so whatever the provider of embeddings
  -- and the mail provider do.
  pub respond_outcome :
      (user : AuthUser) (requested_expert_id : Option ℕ) (id : ℕ)
      (input : ReviewResponseCreateInput) (ids : FreshIds) (now : ℕ) (db : ConciergeDb)
      → ((e : ReviewError) × (respond P flywheel delivery user requested_expert_id id input ids now
              db
            ≡ (err e, db)))
        ⊎ ((response : ReviewResponse) × ((respond P flywheel delivery user requested_expert_id id
                input ids now db).0
              ≡ ok response)
            × IsRecorded user requested_expert_id id input ids.created now db
                (respond P flywheel delivery user requested_expert_id id input ids now db).1
                response)
  unfolding respond after_commit
  respond_outcome user requested_expert_id id input ids now db =
      elim (respond_tx-cases P user requested_expert_id id input ids.created now db) [
        | inl (e, failed) ↦ inl (e, rw (respond, run, failed, after_commit) refl)
        | inr a ↦
            let response = new_response user a.row a.message input ids.created now in
            let (listed, closes) =
              after_commit-response (flywheel_input user a.row a.message input)
                (delivery_input user a.row a.message input ids.created) ids.delivered now
                (answered_db P user a.row response now db) response (inl refl) in
            inr (
              response,
              rw (respond, run, a.returns, after_commit) refl,
              rw (respond, run, a.returns, after_commit)
                  (record {
                    row = a.row;
                    message = a.message;
                    voice = a.voice;
                    still_open = a.still_open;
                    verdict = refl;
                    listed = listed;
                    closes = closes;
                  }),
            )
      ]
