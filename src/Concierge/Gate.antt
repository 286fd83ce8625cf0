-- ===== src/Concierge/Gate.antt =====
-- Mode B waits for the sign-off, and stays within the day's volume (concierge-config.service.ts and
-- concierge-queue.service.ts).
use expertos.Common.{
  ℕ, ◌≡◌, refl, ap, ◌∙◌, inl, inr, true, false, List, [], ◌∷◌, All, All_in, map, ◌==◌, Bool-cases,
  Option-cases,
}
use expertos.Orm.{Prisma, unordered}
use expertos.Orm.Reads.{create_row-eq}
use expertos.Orm.Tables.{All-change}
use expertos.Database.Rows.{AuthUser}
use expertos.Concierge.{ReviewConfig, ConciergeDb}
use expertos.Concierge.Config.{
  ReviewConfigUpdateInput, enables_silent, with_input, new_config, save_config, update_config,
}
use expertos.Concierge.Queue.{ConciergeEnqueueInput, silent_mode, enqueue_if_triggered}
use expertos.Concierge.Admission.{enqueue-cases}
use expertos.Concierge.Footprint.{origin, respond-IsReviewed, escalate-IsReviewed}
use expertos.Concierge.Calls.{
  ConciergeCall, turn_call, config_call, respond_call, escalate_call, ConciergeEnv, perform,
  perform_all,
}

abbrev IsOff : List ReviewConfig → Type 0
IsOff = All (λ c. silent_mode c ≡ false)

module _ (P : Prisma) (env : ConciergeEnv) (off : env.silent_review_allowed ≡ false) where
  turn-IsOff :
      (user : AuthUser) (input : ConciergeEnqueueInput) (fresh now : ℕ) (db : ConciergeDb)
      → IsOff db.configs
      → enqueue_if_triggered P user input fresh now db ≡ db
  turn-IsOff user input fresh now db h = elim (enqueue-cases P user input fresh now db) [
    | inl e ↦ e
    | inr q ↦
        let (m, _, _) = P.find_first_some _ _ _ _ q.read in
        absurd (cc (q.silent, All_in (λ c. silent_mode c ≡ false) q.config db.configs m h))
  ]

  save_config-IsOff :
      (input : ReviewConfigUpdateInput) (fresh now : ℕ) (configs : List ReviewConfig)
      → enables_silent input ≡ false
      → IsOff configs
      → IsOff (save_config P input fresh now configs).1
  unfolding save_config
  save_config-IsOff input fresh now configs e h =
      elim (Option-cases (P.find_first (λ c. true) unordered configs)) [
        | inl f ↦ rw (save_config, f, create_row-eq P (new_config input fresh now) configs) (e, h)
        | inr (row, f) ↦
            rw (save_config, f, P.update_many_eq)
              (All-change (λ c. silent_mode c ≡ false) (λ c. silent_mode c ≡ false)
                (λ c. c.id == row.id) (with_input input now) configs configs (λ c m k l. e)
                (λ c m k l. k) (λ c m. m) h)
      ]

  config-IsOff :
      (actor : AuthUser) (input : ReviewConfigUpdateInput) (fresh now : ℕ) (db : ConciergeDb)
      → IsOff db.configs
      → IsOff (update_config P env.silent_review_allowed actor input fresh now db).1.configs
        × ((update_config P env.silent_review_allowed actor input fresh now db).1.requests
            ≡ db.requests)
  unfolding update_config
  config-IsOff actor input fresh now db h = elim (Bool-cases (enables_silent input)) [
    | inl e ↦ rw (update_config, off, e) (h, refl)
    | inr e ↦ rw (update_config, e) (save_config-IsOff input fresh now db.configs e h, refl)
  ]

  perform-IsOff :
      (c : ConciergeCall) (db : ConciergeDb)
      → IsOff db.configs
      → IsOff (perform P env c db).configs
        × (map origin (perform P env c db).requests ≡ map origin db.requests)
  unfolding perform
  perform-IsOff (turn_call user input fresh now) db h =
      rw (turn-IsOff user input fresh now db h) (h, refl)
  perform-IsOff (config_call actor input fresh now) db h =
      let (a, b) = config-IsOff actor input fresh now db h in (a, ap (map origin) b)
  perform-IsOff (respond_call user requested_expert_id id input ids now) db h =
      let r = respond-IsReviewed P env user requested_expert_id id input ids now db in
      (rw (r.same_configs) h, r.same_origins)
  perform-IsOff (escalate_call user requested_expert_id id key fresh) db h =
      let r = escalate-IsReviewed P env user requested_expert_id id key fresh db in
      (rw (r.same_configs) h, r.same_origins)

  -- Where silent review is not signed off and no settings have it on: over any run of chat turns,
  -- edits of the settings, verdicts and escalations, no request is added or taken away, and none
  -- changes its tenant or its time.
  pub silent_needs_sign_off :
      (cs : List ConciergeCall) (db : ConciergeDb)
      → All (λ c. silent_mode c ≡ false) db.configs
      → map origin (perform_all P env cs db).requests ≡ map origin db.requests
  unfolding perform_all
  silent_needs_sign_off [] db h = refl
  silent_needs_sign_off (c ∷ cs) db h =
      let (off', same) = perform-IsOff c db h in
      silent_needs_sign_off cs (perform P env c db) off' ∙ same
