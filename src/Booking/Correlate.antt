-- ===== src/Booking/Correlate.antt =====
-- Where a booking event lands (booking.service.ts, correlate and applyBookingEvent).
use expertos.Common.{
  ℕ, ◌≡◌, refl, ◌⊎◌, inl, inr, Bool, true, false, Option, none, some, String, eq_iff, if◌then◌else◌,
  Bool-cases, Option-cases, any, In, ap, ◌∙◌, sym, any-eq_false, ==_refl, ◌==◌,
}
use expertos.Orm.{Prisma, unordered, desc}
use expertos.Orm.Reads.{In-change, In-change_hit}
use expertos.Booking.{
  BookingDb, BookingEvent, BookingWebhookEvent, Consultation, matched, unmatched,
  apply_booking_event, correlate, follow_up, claim, find_user, is_pending, has_value, ledger_row,
}
use expertos.Booking.Ledger.{apply-cases, recorded}

module _ (P : Prisma) (event : BookingEvent) (expert_id : Option String) (now : ℕ)
    (db : BookingDb) where
  abbrev refers : Consultation → Bool
  refers c = has_value c.booking_ref event.booking_ref

  -- The consultation that the event ends at: its booking, in the state that the event reports.
  abbrev pub Landed : Consultation → Type 0
  Landed c = (c.booking_ref ≡ some event.booking_ref) × (c.status ≡ event.status)

  -- A consultation as it stands after: the same one of the same user, its attribution kept.
  abbrev pub Kept : Consultation → Consultation → Type 0
  Kept c c' =
      (c'.id ≡ c.id)
      × (c'.user_id ≡ c.user_id)
      × (c'.tenant_id ≡ c.tenant_id)
      × ((c.expert_id ≡ none) ⊎ (c'.expert_id ≡ c.expert_id))

  refers-some : (c : Consultation) → refers c ≡ true → c.booking_ref ≡ some event.booking_ref
  refers-some c h = elim (Option-cases c.booking_ref) [
    | inl e ↦ cc (rw e at h)
    | inr (s, e) ↦ e ∙ ap some ((eq_iff s event.booking_ref).0 (rw e at h))
  ]

  follow_up-Landed : (c : Consultation) → refers c ≡ true → Landed (follow_up P event expert_id c)
  unfolding follow_up
  follow_up-Landed c h = (refers-some c h, refl)

  claim-Landed : (c : Consultation) → Landed (claim P event c)
  unfolding claim
  claim-Landed c = (refl, refl)

  follow_up-Kept : (c : Consultation) → Kept c (follow_up P event expert_id c)
  unfolding follow_up
  follow_up-Kept c = elim (Option-cases c.expert_id) [
    | inl e ↦ (refl, refl, refl, inl e)
    | inr (x, e) ↦ (refl, refl, refl, inr (rw e refl))
  ]

  claim-Kept : (c : Consultation) → Kept c (claim P event c)
  unfolding claim
  claim-Kept c = (refl, refl, refl, inr refl)

  same-Kept : (c : Consultation) → Kept c c
  same-Kept c = (refl, refl, refl, inr refl)

  changed-Kept :
      (p : Consultation → Bool) (f : Consultation → Consultation) (c : Consultation)
      → ((x : Consultation) → Kept x (f x))
      → Kept c (if p c then f c else c)
  changed-Kept p f c k = elim (Bool-cases (p c)) [ inl e ↦ rw e (k c) | inr e ↦ rw e (same-Kept c) ]

  -- No consultation is lost, moved to another user, or attributed to another expert.
  correlate-Kept :
      (c : Consultation)
      → In c db.consultations
      → ((c' : Consultation) × In c' (correlate P event expert_id now db).1.consultations
          × Kept c c')
  unfolding correlate
  correlate-Kept c m = elim (Option-cases (P.find_first refers unordered db.consultations)) [
    | inr (x, e) ↦
        let p = λ (r : Consultation). r.id == x.id in
        rw (e, correlate, P.update_many_eq)
          (
            _,
            In-change p (follow_up P event expert_id) c db.consultations m,
            changed-Kept p (follow_up P event expert_id) c follow_up-Kept,
          )
    | inl e ↦ elim (Option-cases (find_user P event db)) [
      | inl u ↦ rw (e, correlate, u) (c, m, same-Kept c)
      | inr (user, u) ↦
          elim (Option-cases (
            P.find_first (is_pending P user expert_id) (desc (λ c. c.created_at))
              db.consultations)) [
                | inl k ↦ rw (e, correlate, u, k) (c, inr m, same-Kept c)
                | inr (x, k) ↦
                    let p = λ (r : Consultation). r.id == x.id in
                    rw (e, correlate, u, k, P.update_many_eq)
                      (
                        _,
                        In-change p (claim P event) c db.consultations m,
                        changed-Kept p (claim P event) c claim-Kept,
                      )
              ]
    ]
  ]

  -- The consultation of a matched event, or why there is none.
  correlate-lands :
      let ((id, is_matched), db') = correlate P event expert_id now db in
      ((is_matched ≡ true)
        × ((c : Consultation) × In c db'.consultations × Landed c × (id ≡ some c.id)))
      ⊎ ((is_matched ≡ false)
          × (find_user P event db ≡ none)
          × (any refers db.consultations ≡ false)
          × (db'.consultations ≡ db.consultations))
  unfolding correlate
  correlate-lands = elim (Option-cases (P.find_first refers unordered db.consultations)) [
    | inr (x, e) ↦
        let (m, h, _) = P.find_first_some refers unordered db.consultations x e in
        let f = follow_up P event expert_id in
        rw (e, correlate, P.update_many_eq)
          (inl (
            refl,
            (
              f x,
              In-change_hit (λ r. r.id == x.id) f x db.consultations m (==_refl x.id),
              follow_up-Landed x h,
              ap some (sym (follow_up-Kept x).0),
            ),
          ))
    | inl e ↦
        let nobody =
          any-eq_false refers db.consultations
            (P.find_first_none refers unordered db.consultations e) in
        elim (Option-cases (find_user P event db)) [
          | inl u ↦ rw (e, correlate, u) (inr (refl, refl, nobody, refl))
          | inr (user, u) ↦
              elim (Option-cases (
                P.find_first (is_pending P user expert_id) (desc (λ c. c.created_at))
                  db.consultations)) [
                    | inl k ↦
                        rw (e, correlate, u, k) (inl (refl, (_, inl refl, (refl, refl), refl)))
                    | inr (x, k) ↦
                        let (m, _, _) =
                          P.find_first_some (is_pending P user expert_id) (desc (λ c. c.created_at))
                            db.consultations x k in
                        rw (e, correlate, u, k, P.update_many_eq)
                          (inl (
                            refl,
                            (
                              claim P event x,
                              In-change_hit (λ r. r.id == x.id) (claim P event) x db.consultations m
                                  (==_refl x.id),
                              claim-Landed x,
                              ap some (sym (claim-Kept x).0),
                            ),
                          ))
                  ]
        ]
  ]

  -- The event has a row in the ledger, and either a consultation carries its reference and its
  -- status, which the row names, or the row waits unmatched, and then no consultation has the
  -- reference and no user the email.
  abbrev pub IsAccountedFor : String → Type 0
  IsAccountedFor provider =
      let (outcome, db') = apply_booking_event P event provider expert_id now db in
      (row : BookingWebhookEvent) × In row db'.events
      × (row.payload ≡ event)
      × (((outcome ≡ matched)
            × (row.matched ≡ true)
            × ((c : Consultation) × In c db'.consultations
                × Landed c
                × (row.consultation_id ≡ some c.id)))
          ⊎ ((outcome ≡ unmatched)
              × (row.matched ≡ false)
              × (find_user P event db ≡ none)
              × (any refers db.consultations ≡ false)
              × (db'.consultations ≡ db.consultations)))

  -- A booking event that is new to the ledger never vanishes: it gets a row, and either a
  -- consultation carries its reference and its status, which the row names, or the row waits
  -- unmatched, and then no consultation has the reference and no user the email.
  pub no_booking_vanishes :
      (provider : String) → recorded P provider event db ≡ false → IsAccountedFor provider
  unfolding ledger_row
  no_booking_vanishes provider new = elim (apply-cases P event provider expert_id now db) [
    | inl (seen, _) ↦ cc (seen, new)
    | inr (_, e) ↦ rw e (
      _,
      inl refl,
      refl,
      elim correlate-lands [
        | inl (m, (c, i, l, k)) ↦ inl (rw m refl, m, (c, i, l, k))
        | inr (m, u, n, same) ↦ inr (rw m refl, m, u, n, same)
      ],
    )
  ]

  -- Whatever a booking event does, every consultation is there afterwards, of the same user and
  -- tenant; one that is attributed to an expert stays attributed to that expert.
  pub apply-Kept :
      (provider : String) (c : Consultation)
      → In c db.consultations
      → let db' = (apply_booking_event P event provider expert_id now db).1 in
        (c' : Consultation) × In c' db'.consultations × Kept c c'
  apply-Kept provider c m = elim (apply-cases P event provider expert_id now db) [
    | inl (_, e) ↦ rw e (c, m, same-Kept c)
    | inr (_, e) ↦ rw e (correlate-Kept c m)
  ]
