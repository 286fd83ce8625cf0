-- ===== src/Concierge/Simulation.antt =====
-- Each call of the review moves each case along the diagram.
use expertos.Common.{
  ℕ, ◌≤◌, ◌≡◌, refl, sym, ap, subst, inl, inr, Option, List, [], ◌∷◌, String, ◌&&◌, not, Bool-cases,
}
use expertos.Orm.{Prisma}
use expertos.Database.{Result, run}
use expertos.Database.Rows.{AuthUser}
use expertos.Concierge.{ConciergeDb, ReviewError, answered, escalated}
use expertos.Concierge.Config.{ReviewConfigUpdateInput, enables_silent, update_config}
use expertos.Concierge.Queue.{ConciergeEnqueueInput, new_request, enqueue_if_triggered}
use expertos.Concierge.Flywheel.{FlywheelInput, apply_review_outcome}
use expertos.Concierge.Delivery.{DeliveryInput, deliver}
use expertos.Concierge.Review.{
  ReviewResponseCreateInput, FreshIds, Reviewed, new_response, mark_answered, mark_escalated,
  after_commit, respond, escalate,
}
use expertos.Concierge.Outcome.{IsAnswered, answered_db, respond_tx-cases}
use expertos.Concierge.Escalation.{escalate_tx-cases}
use expertos.Concierge.Admission.{enqueue-cases}
use expertos.Concierge.Effects.{verdicts, apply_review_outcome-kept, deliver-marks}
use expertos.Concierge.Diagram.{
  ◌⟶*◌, stays, here, moves_then, IsSettled, IsSettled-one, ⟶*-IsSettled,
}
use expertos.Concierge.Cases.{
  Distinct, verdicts_of, case_of, Distinct-change, verdicts_of_delivered,
}
use expertos.Concierge.Moves.{
  FollowsTo, Follows, Follows-none, answered_case, escalated_case, queued_case,
}
use expertos.Concierge.Calls.{
  ConciergeCall, turn_call, config_call, respond_call, escalate_call, ConciergeEnv, perform,
  perform_all,
}

module _ (P : Prisma) (env : ConciergeEnv) where
  turn-Follows :
      (user : AuthUser) (input : ConciergeEnqueueInput) (fresh now : ℕ) (db : ConciergeDb)
      → Distinct db.requests
      → Follows db (enqueue_if_triggered P user input fresh now db)
  turn-Follows user input fresh now db d = elim (enqueue-cases P user input fresh now db) [
    | inl e ↦ Follows-none db _ e d
    | inr q ↦ rw q.queued (
      (q.free, d),
      λ i.
          queued_case (new_request user input q.config fresh now) db.requests db.responses i refl
            q.free,
    )
  ]

  config-Follows :
      (actor : AuthUser) (input : ReviewConfigUpdateInput) (fresh now : ℕ) (db : ConciergeDb)
      → Distinct db.requests
      → Follows db (update_config P env.silent_review_allowed actor input fresh now db).1
  unfolding update_config
  config-Follows actor input fresh now db d =
      elim (Bool-cases (enables_silent input && not env.silent_review_allowed)) [
        | inl e ↦ rw (update_config, e) (d, λ i. stays)
        | inr e ↦ rw (update_config, e) (d, λ i. stays)
      ]

  -- The flywheel and the delivery, which follow the commit, move no case.
  after_commit-Follows :
      (f : FlywheelInput) (g : DeliveryInput) (fresh now : ℕ) (db db1 : ConciergeDb)
      → Follows db db1
      → Follows db
          (deliver P env.delivery g fresh now (apply_review_outcome P env.flywheel f now db1))
  after_commit-Follows f g fresh now db db1 h =
      let db2 = apply_review_outcome P env.flywheel f now db1 in
      let kept : verdicts db2 ≡ verdicts db1 =
        ap (λ t. t.1) (apply_review_outcome-kept P env.flywheel f now db1) in
      let h2 : Follows db db2 = subst (FollowsTo db) (sym kept) h in
      elim (deliver-marks P env.delivery g fresh now db2) [
        | inl e ↦ subst (FollowsTo db) (sym (ap (λ t. t.1) e)) h2
        | inr e ↦
            subst (FollowsTo db) (sym (ap (λ t. t.1) e))
              (h2.0, λ i. rw (verdicts_of_delivered i g.response_id db2.responses) (h2.1 i))
      ]

  answered-Follows :
      (user : AuthUser) (requested_expert_id : Option ℕ) (id : ℕ)
      (input : ReviewResponseCreateInput) (fresh now : ℕ) (db : ConciergeDb)
      {result : Result ReviewError (Reviewed × ConciergeDb)}
      → Distinct db.requests
      → (a : IsAnswered P user requested_expert_id id input fresh now db result)
      → Follows db
          (answered_db P user a.row (new_response user a.row a.message input fresh now) now db)
  answered-Follows user requested_expert_id id input fresh now db d a = (
    Distinct-change (mark_answered user now) (λ r. refl) answered (λ r. refl) a.row.id db.requests
        d,
    λ i.
        answered_case (mark_answered user now) a.row db.requests d a.voice.listed a.still_open
          (λ r. refl) (new_response user a.row a.message input fresh now) db.responses i (λ r. refl)
          refl,
  )

  respond-Follows :
      (user : AuthUser) (requested_expert_id : Option ℕ) (id : ℕ)
      (input : ReviewResponseCreateInput) (ids : FreshIds) (now : ℕ) (db : ConciergeDb)
      → Distinct db.requests
      → Follows db
          (respond P env.flywheel env.delivery user requested_expert_id id input ids now db).1
  unfolding respond after_commit
  respond-Follows user requested_expert_id id input ids now db d =
      elim (respond_tx-cases P user requested_expert_id id input ids.created now db) [
        | inl (e, failed) ↦ rw (respond, run, failed, after_commit) (d, λ i. stays)
        | inr a ↦
            rw (respond, run, a.returns, after_commit)
              (after_commit-Follows _ _ ids.delivered now db _
                (answered-Follows user requested_expert_id id input ids.created now db d a))
      ]

  escalate-Follows :
      (user : AuthUser) (requested_expert_id : Option ℕ) (id : ℕ) (key : Option String) (fresh : ℕ)
      (db : ConciergeDb)
      → Distinct db.requests
      → Follows db (escalate P user requested_expert_id id key fresh db).1
  unfolding escalate
  escalate-Follows user requested_expert_id id key fresh db d =
      elim (escalate_tx-cases P user requested_expert_id id key fresh db) [
        | inl (e, failed) ↦ rw (escalate, run, failed) (d, λ i. stays)
        | inr a ↦
            rw (escalate, run, a.returns, a.requests_after, a.responses_after)
              (
                Distinct-change (mark_escalated user) (λ r. refl) escalated (λ r. refl) a.row.id
                    db.requests d,
                λ i.
                    escalated_case (mark_escalated user) a.row db.requests d a.voice.listed
                      a.still_open (λ r. refl) db.responses i (λ r. refl),
              )
      ]

  perform-Follows :
      (c : ConciergeCall) (db : ConciergeDb)
      → Distinct db.requests
      → Follows db (perform P env c db)
  unfolding perform
  perform-Follows (turn_call user input fresh now) db d = turn-Follows user input fresh now db d
  perform-Follows (config_call actor input fresh now) db d =
      config-Follows actor input fresh now db d
  perform-Follows (respond_call user requested_expert_id id input ids now) db d =
      respond-Follows user requested_expert_id id input ids now db d
  perform-Follows (escalate_call user requested_expert_id id key fresh) db d =
      escalate-Follows user requested_expert_id id key fresh db d

  -- Where the requests of the database have different uuids: over any run of chat turns, edits of the
  -- settings, verdicts and escalations, each case moves along the diagram.
  pub run_refines_diagram :
      (cs : List ConciergeCall) (db : ConciergeDb) (i : ℕ)
      → Distinct db.requests
      → case_of i db ⟶* case_of i (perform_all P env cs db)
  unfolding perform_all
  run_refines_diagram [] db i d = here
  run_refines_diagram (c ∷ cs) db i d =
      let (d', moves) = perform-Follows c db d in
      moves_then (moves i) (run_refines_diagram cs (perform P env c db) i d')

  -- Where the requests of the database have different uuids, and a request has no verdict while it is
  -- open and one at most when it is closed: over any run of chat turns, edits of the settings,
  -- verdicts and escalations, no request has two verdicts.
  pub one_verdict :
      (cs : List ConciergeCall) (db : ConciergeDb) (i : ℕ)
      → Distinct db.requests
      → IsSettled (case_of i db)
      → verdicts_of i (perform_all P env cs db).responses ≤ 1
  one_verdict cs db i d h =
      IsSettled-one (case_of i (perform_all P env cs db))
        (⟶*-IsSettled (run_refines_diagram cs db i d) h)
