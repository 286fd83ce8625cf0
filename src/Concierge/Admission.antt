-- ===== src/Concierge/Admission.antt =====
-- What the queueing does to the requests (concierge-queue.service.ts).
use expertos.Common.{
  ℕ, ◌<◌, ◌≡◌, refl, ◌⊎◌, inl, inr, true, false, some, ◌∷◌, any, keep, length, ◌==◌, leb,
  Bool-cases, Option-cases, arith,
}
use expertos.Orm.{Prisma, unordered}
use expertos.Orm.Reads.{find_first-any}
use expertos.Database.{run}
use expertos.Database.Rows.{AuthUser}
use expertos.Concierge.{ReviewConfig, ConciergeDb}
use expertos.Concierge.Queue.{
  ConciergeEnqueueInput, triggers, silent_mode, start_of_utc_day, is_request_for, created_since,
  new_request, enqueue_under, enqueue_tx, enqueue_if_triggered,
}

-- How many requests of a tenant were made since a time.
abbrev pub made_since : ℕ → ℕ → ConciergeDb → ℕ
made_since tenant_id since db = length (keep (created_since tenant_id since) db.requests)

module _ (P : Prisma) (user : AuthUser) (input : ConciergeEnqueueInput) (fresh now : ℕ)
    (db : ConciergeDb) where
  -- Every condition of the queueing holds, and the request is the one new row.
  pub record IsQueued : Type 0 where
    pub config : ReviewConfig
    pub read : P.find_first (λ c. true) unordered db.configs ≡ some config
    pub silent : silent_mode config ≡ true
    pub weak : triggers input config.confidence_threshold ≡ true
    pub first_time : any (is_request_for user input) db.requests ≡ false
    pub room : made_since user.tenant_id (start_of_utc_day now) db < config.volume_cap_per_day
    pub free : any (λ b. fresh == b.id) db.requests ≡ false
    pub queued :
        enqueue_if_triggered P user input fresh now db
        ≡ record db { requests = new_request user input config fresh now ∷ db.requests }

  -- Where no test turns the message away, it is queued unless the uuid is taken.
  queue_open :
      (config : ReviewConfig)
      → P.find_first (λ c. true) unordered db.configs ≡ some config
      → silent_mode config ≡ true
      → triggers input config.confidence_threshold ≡ true
      → any (is_request_for user input) db.requests ≡ false
      → leb config.volume_cap_per_day (made_since user.tenant_id (start_of_utc_day now) db) ≡ false
      → (enqueue_if_triggered P user input fresh now db ≡ db) ⊎ IsQueued
  unfolding enqueue_if_triggered enqueue_tx enqueue_under
  queue_open config e a b c d = elim (Bool-cases (any (λ r. fresh == r.id) db.requests)) [
    | inl clash ↦ inl (
        simp (
          enqueue_if_triggered, run, enqueue_tx, e, enqueue_under, a, b, find_first-any, c, d,
          P.count_eq, P.create_eq, clash,
        ))
    | inr free ↦ inr (record {
      config = config;
      read = e;
      silent = a;
      weak = b;
      first_time = c;
      room = ground arith;
      free = free;
      queued = simp (
        enqueue_if_triggered, run, enqueue_tx, e, enqueue_under, a, b, find_first-any, c, d,
        P.count_eq, P.create_eq, free,
      );
    })
  ]

  pub enqueue-cases : (enqueue_if_triggered P user input fresh now db ≡ db) ⊎ IsQueued
  unfolding enqueue_if_triggered enqueue_tx enqueue_under
  enqueue-cases = elim (Option-cases (P.find_first (λ c. true) unordered db.configs)) [
    | inl e ↦ inl (rw (enqueue_if_triggered, run, enqueue_tx, e) refl)
    | inr (config, e) ↦ elim (Bool-cases (silent_mode config)) [
      | inr a ↦ inl (rw (enqueue_if_triggered, run, enqueue_tx, e, enqueue_under, a) refl)
      | inl a ↦ elim (Bool-cases (triggers input config.confidence_threshold)) [
        | inr b ↦ inl (rw (enqueue_if_triggered, run, enqueue_tx, e, enqueue_under, a, b) refl)
        | inl b ↦ elim (Bool-cases (any (is_request_for user input) db.requests)) [
          | inl c ↦ inl (
              simp
                (enqueue_if_triggered, run, enqueue_tx, e, enqueue_under, a, b, find_first-any, c))
          | inr c ↦
              elim (Bool-cases (
                leb config.volume_cap_per_day
                  (made_since user.tenant_id (start_of_utc_day now) db))) [
                    | inl d ↦ inl (
                        simp (
                          enqueue_if_triggered, run, enqueue_tx, e, enqueue_under, a, b,
                          find_first-any, c, P.count_eq, d,
                        ))
                    | inr d ↦ queue_open config e a b c d
                  ]
        ]
      ]
    ]
  ]
