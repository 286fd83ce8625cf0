-- ===== src/Concierge/Cap.antt =====
-- The day's volume of silent reviews (concierge-queue.service.ts).
use expertos.Common.{
  ℕ, ◌+◌, ◌*◌, ◌≤◌, ◌<◌, ◌≡◌, subst, inl, inr, true, some, List, [], ◌∷◌, All, arith, ◌==◌, ==_iff,
  Bool-cases,
}
use expertos.Orm.{Prisma, unordered}
use expertos.Database.Rows.{AuthUser}
use expertos.Concierge.{ReviewConfig, HumanReviewRequest, ConciergeDb}
use expertos.Concierge.Queue.{
  ConciergeEnqueueInput, start_of_utc_day, new_request, enqueue_if_triggered,
}
use expertos.Concierge.Admission.{made_since, enqueue-cases}
use expertos.Concierge.Footprint.{
  IsReviewed, made_since-IsReviewed, respond-IsReviewed, escalate-IsReviewed,
}
use expertos.Concierge.Calls.{
  ConciergeCall, turn_call, config_call, respond_call, escalate_call, ConciergeEnv, perform,
  perform_all,
}

-- The milliseconds of a day.
abbrev pub day_ms : ℕ
day_ms = 86400000

-- A call that does not edit the settings, and a turn on the day of this number since 1970-01-01.
abbrev pub IsOn : ℕ → ConciergeCall → Type 0
IsOn day (turn_call user input fresh now) = (day * day_ms ≤ now) × (now < (day + 1) * day_ms)
IsOn day (config_call actor input fresh now) = ⊥
IsOn day _ = Unit

day_start :
    (day now : ℕ)
    → day * day_ms ≤ now
    → now < (day + 1) * day_ms
    → start_of_utc_day now ≡ day * day_ms
day_start day now h k = omega arith

counted :
    (tenant_id since : ℕ) (r : HumanReviewRequest) (db : ConciergeDb) (most : ℕ)
    → made_since tenant_id since db < most
    → made_since tenant_id since (record db { requests = r ∷ db.requests }) ≤ most
counted tenant_id since r db most h = ground arith

module _ (P : Prisma) (env : ConciergeEnv) (tenant_id day : ℕ) (config : ReviewConfig) where
  -- The settings are read, and the tenant is within its volume.
  record IsWithin (db : ConciergeDb) : Type 0 where
    read : P.find_first (λ c. true) unordered db.configs ≡ some config
    within : made_since tenant_id (day * day_ms) db ≤ config.volume_cap_per_day

  reviewed-IsWithin : (db db' : ConciergeDb) → IsReviewed db db' → IsWithin db → IsWithin db'
  reviewed-IsWithin db db' r h = record {
    read = rw (r.same_configs) h.read;
    within = rw (made_since-IsReviewed tenant_id (day * day_ms) db db' r) h.within;
  }

  turn-IsWithin :
      (user : AuthUser) (input : ConciergeEnqueueInput) (fresh now : ℕ) (db : ConciergeDb)
      → start_of_utc_day now ≡ day * day_ms
      → IsWithin db
      → IsWithin (enqueue_if_triggered P user input fresh now db)
  turn-IsWithin user input fresh now db on h = elim (enqueue-cases P user input fresh now db) [
    | inl e ↦ rw e h
    | inr q ↦
        let same : q.config ≡ config = cc (q.read, h.read) in
        rw q.queued (record {
          read = h.read;
          within = elim (Bool-cases (user.tenant_id == tenant_id)) [
            | inl t ↦
                let mine : user.tenant_id ≡ tenant_id = (==_iff user.tenant_id tenant_id).0 t in
                let room : made_since tenant_id (day * day_ms) db < config.volume_cap_per_day =
                  subst (λ c. made_since tenant_id (day * day_ms) db < c.volume_cap_per_day) same
                    (rw (mine, on) at (q.room)) in
                counted tenant_id (day * day_ms) (new_request user input q.config fresh now) db
                  config.volume_cap_per_day room
            | inr t ↦ rw t h.within
          ];
        })
  ]

  perform-IsWithin :
      (c : ConciergeCall) (db : ConciergeDb)
      → IsOn day c
      → IsWithin db
      → IsWithin (perform P env c db)
  unfolding perform
  perform-IsWithin (turn_call user input fresh now) db (from, until) h =
      turn-IsWithin user input fresh now db (day_start day now from until) h
  perform-IsWithin (config_call actor input fresh now) db on h = absurd on
  perform-IsWithin (respond_call user requested_expert_id id input ids now) db on h =
      reviewed-IsWithin db _ (respond-IsReviewed P env user requested_expert_id id input ids now db)
        h
  perform-IsWithin (escalate_call user requested_expert_id id key fresh) db on h =
      reviewed-IsWithin db _ (escalate-IsReviewed P env user requested_expert_id id key fresh db) h

  -- Where the settings are read and the requests of a tenant since midnight, UTC, are within their
  -- daily volume: they still are after any chat turns of that day, verdicts and escalations, while
  -- nobody edits the settings.
  pub volume_cap :
      (cs : List ConciergeCall) (db : ConciergeDb)
      → P.find_first (λ c. true) unordered db.configs ≡ some config
      → made_since tenant_id (day * day_ms) db ≤ config.volume_cap_per_day
      → All (IsOn day) cs
      → made_since tenant_id (day * day_ms) (perform_all P env cs db) ≤ config.volume_cap_per_day
  unfolding perform_all
  volume_cap [] db read within on = within
  volume_cap (c ∷ cs) db read within on =
      let h = perform-IsWithin c db (on.0) (record { read = read; within = within }) in
      volume_cap cs (perform P env c db) h.read h.within (on.1)
