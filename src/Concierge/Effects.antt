-- ===== src/Concierge/Effects.antt =====
-- What the flywheel and the delivery leave alone, and what they change, in the tables of settings,
-- requests and responses (concierge-flywheel.service.ts and concierge-delivery.service.ts).
use expertos.Common.{
  ℕ, ◌≡◌, refl, ◌∙◌, ◌⊎◌, inl, inr, true, ◌||◌, Option, none, some, List, ◌==◌, Bool-cases,
  Option-cases,
}
use expertos.Orm.{Prisma, change}
use expertos.Concierge.{
  ReviewConfig, HumanReviewRequest, ReviewResponse, Message, Conversation, ConciergeDb,
}
use expertos.Concierge.Flywheel.{
  FlywheelInput, FlywheelEnv, VoicePlan, is_bad, is_great, flag_source_chunks, create_draft,
  find_answer, persist_answer, persist, insert_voice_example, capture, apply_review_outcome,
}
use expertos.Concierge.Delivery.{
  DeliveryInput, DeliveryEnv, DeliveryPlan, find_recipient, notification, push_refined_update,
  notify, deliver_revised, deliver,
}

-- The tables that the reviewer's calls write.
abbrev pub verdicts : ConciergeDb → List HumanReviewRequest × List ReviewResponse
verdicts db = (db.requests, db.responses)

-- The tables that neither the flywheel nor the delivery writes, but for a mark on a response.
abbrev pub kept : ConciergeDb → List ReviewConfig × (List HumanReviewRequest × List ReviewResponse)
kept db = (db.configs, verdicts db)

abbrev pub mark_delivered : ReviewResponse → ReviewResponse
mark_delivered r = record r { delivered_to_user = true }

module _ (P : Prisma) (env : FlywheelEnv) where
  persist_answer-kept :
      (input : FlywheelInput) (now : ℕ) (message : Message) (conversation : Conversation)
      (db : ConciergeDb)
      → kept (persist_answer P env input now message conversation db).1 ≡ kept db
  unfolding persist_answer flag_source_chunks create_draft
  persist_answer-kept input now message conversation db = elim (Bool-cases (is_bad input.verdict)) [
    | inl b ↦ elim (Bool-cases (is_great input.verdict || input.edited)) [
      | inl g ↦ rw (persist_answer, b, g) refl
      | inr g ↦ rw (persist_answer, b, g) refl
    ]
    | inr b ↦ elim (Bool-cases (is_great input.verdict || input.edited)) [
      | inl g ↦ rw (persist_answer, b, g) refl
      | inr g ↦ rw (persist_answer, b, g) refl
    ]
  ]

  persist-kept :
      (input : FlywheelInput) (now : ℕ) (db : ConciergeDb)
      → kept (persist P env input now db).1 ≡ kept db
  unfolding persist
  persist-kept input now db = elim (Option-cases (find_answer P env input.review_request_id db)) [
    | inl e ↦ rw (persist, e) refl
    | inr (a, e) ↦ rw (persist, e) (persist_answer-kept input now a.0 a.1 db)
  ]

  capture-kept :
      (input : FlywheelInput) (now : ℕ) (p : Option VoicePlan × ConciergeDb)
      → kept (capture P env input now p) ≡ kept p.1
  unfolding capture insert_voice_example
  capture-kept input now (none, db) = refl
  capture-kept input now (some plan, db) = elim (Option-cases (env.embed plan.content)) [
    | inl e ↦ rw (capture, e) refl
    | inr (v, e) ↦ rw (capture, e) refl
  ]

  -- The flywheel writes neither settings nor requests nor responses.
  pub apply_review_outcome-kept :
      (input : FlywheelInput) (now : ℕ) (db : ConciergeDb)
      → kept (apply_review_outcome P env input now db) ≡ kept db
  unfolding apply_review_outcome
  apply_review_outcome-kept input now db =
      capture-kept input now (persist P env input now db) ∙ persist-kept input now db

module _ (P : Prisma) (env : DeliveryEnv) where
  notify-kept : (p : Option DeliveryPlan × ConciergeDb) → kept (notify P env p) ≡ kept p.1
  unfolding notify
  notify-kept (none, db) = refl
  notify-kept (some plan, db) = elim (Bool-cases (env.send (notification P env plan))) [
    | inl e ↦ rw (notify, e) refl
    | inr e ↦ rw (notify, e) refl
  ]

  -- The tables after a delivery: as before, or with the response marked.
  abbrev pub MarksAtMost : ℕ → ConciergeDb → ConciergeDb → Type 0
  MarksAtMost response_id db db' =
      (kept db' ≡ kept db)
      ⊎ (kept db' ≡ (
        db.configs,
        (db.requests, change (λ r. r.id == response_id) mark_delivered db.responses),
      ))

  pub deliver-marks :
      (input : DeliveryInput) (fresh now : ℕ) (db : ConciergeDb)
      → MarksAtMost input.response_id db (deliver P env input fresh now db)
  unfolding deliver deliver_revised push_refined_update
  deliver-marks input fresh now db = elim (Bool-cases input.edited) [
    | inr e ↦ inl (rw (deliver, e) refl)
    | inl e ↦ elim (Option-cases input.revised_answer) [
      | inl f ↦ inl (rw (deliver, e, f) refl)
      | inr (revised, f) ↦ elim (Option-cases (find_recipient P env input.review_request_id db)) [
        | inl g ↦ inl (
            rw (deliver, e, f, deliver_revised)
              (notify-kept (push_refined_update P env input revised fresh now db)
                ∙ rw (push_refined_update, g) refl))
        | inr (a, g) ↦ inr (
            rw (deliver, e, f, deliver_revised)
              (notify-kept (push_refined_update P env input revised fresh now db)
                ∙ simp (push_refined_update, g, P.update_many_eq)))
      ]
    ]
  ]
