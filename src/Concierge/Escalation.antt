-- ===== src/Concierge/Escalation.antt =====
-- What an escalation does to the requests (concierge-review.service.ts, escalate).
use expertos.Common.{ℕ, ◌≡◌, refl, ◌⊎◌, inl, inr, true, Option, String, ◌==◌, Bool-cases}
use expertos.Orm.{Prisma, change}
use expertos.Database.{ok, err}
use expertos.Database.Rows.{AuthUser}
use expertos.Concierge.{
  HumanReviewRequest, Message, ConciergeDb, ReviewError, not_found, conflict, respondable,
}
use expertos.Concierge.Review.{
  ReviewEscalationDto, escalation_dto, mark_escalated, set_request, open_consultation,
  resolve_consultation_type, escalate_tx,
}
use expertos.Concierge.Outcome.{IsInVoice, load_in_voice-cases}

module _ (P : Prisma) (user : AuthUser) (requested : Option ℕ) (id : ℕ) (key : Option String)
    (fresh : ℕ) (db : ConciergeDb) where
  -- The request was open, and an open consultation stands beside it now.
  pub record IsEscalated : Type 0 where
    pub row : HumanReviewRequest
    pub message : Message
    pub voice : IsInVoice P user requested id db row message
    pub still_open : respondable row.status ≡ true
    pub dto : ReviewEscalationDto
    pub after : ConciergeDb
    pub returns : escalate_tx P user requested id key fresh db ≡ ok (dto, after)
    pub requests_after :
        after.requests ≡ change (λ r. r.id == row.id) (mark_escalated user) db.requests
    pub configs_after : after.configs ≡ db.configs
    pub responses_after : after.responses ≡ db.responses

  pub escalate_tx-cases :
      ((e : ReviewError) × (escalate_tx P user requested id key fresh db ≡ err e)) ⊎ IsEscalated
  unfolding escalate_tx set_request open_consultation
  escalate_tx-cases = elim (load_in_voice-cases P user requested id db) [
    | inl e ↦ inl (not_found, rw (escalate_tx, e) refl)
    | inr (row, message, e, voice) ↦ elim (Bool-cases (respondable row.status)) [
      | inr k ↦ inl (conflict row.status, rw (escalate_tx, e, k) refl)
      | inl k ↦ inr (record {
        row = row;
        message = message;
        voice = voice;
        still_open = k;
        dto = escalation_dto row (resolve_consultation_type P key db) fresh;
        after =
            set_request P row.id (mark_escalated user)
              (open_consultation P user row (resolve_consultation_type P key db) fresh db);
        returns = rw (escalate_tx, e, k) refl;
        requests_after = P.update_many_eq _ _ _;
        configs_after = refl;
        responses_after = refl;
      })
    ]
  ]
