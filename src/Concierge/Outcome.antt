-- ===== src/Concierge/Outcome.antt =====
-- What the reviewer's calls do to the tables of requests and responses
-- (concierge-review.service.ts).
use expertos.Common.{
  ℕ, ◌≡◌, refl, ◌⊎◌, inl, inr, true, false, Option, some, ◌∷◌, In, any, ◌==◌, Bool-cases,
  Option-cases,
}
use expertos.Orm.{Prisma, unordered, change}
use expertos.Database.{Result, ok, err}
use expertos.Database.Rows.{AuthUser}
use expertos.Concierge.{
  HumanReviewRequest, ReviewResponse, Message, ConciergeDb, ReviewError, not_found, conflict,
  unique_violation, respondable,
}
use expertos.Concierge.Review.{
  ReviewResponseCreateInput, Reviewed, new_response, mark_answered, flywheel_input, delivery_input,
  message_of, resolve_expert, visible_to, load_in_voice, set_request, create_response, respond_tx,
}

module _ (P : Prisma) where
  -- The request is in the voice of the expert whom the reviewer stands for.
  pub record IsInVoice (user : AuthUser) (requested_expert_id : Option ℕ) (id : ℕ)
      (db : ConciergeDb) (row : HumanReviewRequest) (message : Message) : Type 0 where
    pub expert_id : ℕ
    pub expert : resolve_expert P user requested_expert_id db ≡ some expert_id
    pub listed : In row db.requests
    pub seen : visible_to P user expert_id id db row ≡ true
    pub answer : message_of P row db ≡ some message

  pub load_in_voice-cases :
      (user : AuthUser) (requested_expert_id : Option ℕ) (id : ℕ) (db : ConciergeDb)
      → (load_in_voice P user requested_expert_id id db ≡ err not_found)
        ⊎ ((row : HumanReviewRequest) × (message : Message) × (load_in_voice P user
                requested_expert_id id db
              ≡ ok (row, message))
            × IsInVoice user requested_expert_id id db row message)
  unfolding load_in_voice
  load_in_voice-cases user requested id db =
      elim (Option-cases (resolve_expert P user requested db)) [
        | inl e ↦ inl (rw (load_in_voice, e) refl)
        | inr (x, e) ↦
            elim (Option-cases (P.find_first (visible_to P user x id db) unordered db.requests)) [
              | inl f ↦ inl (rw (load_in_voice, e, f) refl)
              | inr (row, f) ↦
                  let (m, seen, _) = P.find_first_some _ _ _ _ f in
                  elim (Option-cases (message_of P row db)) [
                    | inl g ↦ inl (rw (load_in_voice, e, f, g) refl)
                    | inr (message, g) ↦ inr (
                      row,
                      message,
                      rw (load_in_voice, e, f, g) refl,
                      record { expert_id = x; expert = e; listed = m; seen = seen; answer = g },
                    )
                  ]
            ]
      ]

  -- The database after a verdict on the request.
  abbrev pub answered_db :
      AuthUser → HumanReviewRequest → ReviewResponse → ℕ → ConciergeDb → ConciergeDb
  answered_db user row response now db = record db {
    responses = response ∷ db.responses;
    requests = change (λ r. r.id == row.id) (mark_answered user now) db.requests;
  }

  pub record IsAnswered (user : AuthUser) (requested_expert_id : Option ℕ) (id : ℕ)
      (input : ReviewResponseCreateInput) (fresh now : ℕ) (db : ConciergeDb)
      (result : Result ReviewError (Reviewed × ConciergeDb)) : Type 0 where
    pub row : HumanReviewRequest
    pub message : Message
    pub voice : IsInVoice user requested_expert_id id db row message
    pub still_open : respondable row.status ≡ true
    pub free :
        any (λ b. (new_response user row message input fresh now).id == b.id) db.responses ≡ false
    pub returns :
        result
        ≡ ok (
          (
            new_response user row message input fresh now,
            (flywheel_input user row message input, delivery_input user row message input fresh),
          ),
          answered_db user row (new_response user row message input fresh now) now db,
        )

  pub respond_tx-cases :
      (user : AuthUser) (requested_expert_id : Option ℕ) (id : ℕ)
      (input : ReviewResponseCreateInput) (fresh now : ℕ) (db : ConciergeDb)
      → ((e : ReviewError) × (respond_tx P user requested_expert_id id input fresh now db ≡ err e))
        ⊎ IsAnswered user requested_expert_id id input fresh now db
            (respond_tx P user requested_expert_id id input fresh now db)
  unfolding respond_tx create_response set_request
  respond_tx-cases user requested id input fresh now db =
      elim (load_in_voice-cases user requested id db) [
        | inl e ↦ inl (not_found, rw (respond_tx, e) refl)
        | inr (row, message, e, voice) ↦ elim (Bool-cases (respondable row.status)) [
          | inr k ↦ inl (conflict row.status, rw (respond_tx, e, k) refl)
          | inl k ↦
              let response = new_response user row message input fresh now in
              elim (Bool-cases (any (λ b. response.id == b.id) db.responses)) [
                | inl clash ↦
                    inl (
                      unique_violation,
                      simp (respond_tx, e, k, create_response, P.create_eq, clash),
                    )
                | inr free ↦ inr (record {
                  row = row;
                  message = message;
                  voice = voice;
                  still_open = k;
                  free = free;
                  returns = simp (
                    respond_tx, e, k, create_response, set_request, P.create_eq, free,
                    P.update_many_eq,
                  );
                })
              ]
        ]
      ]
