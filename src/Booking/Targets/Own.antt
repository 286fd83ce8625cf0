-- ===== src/Booking/Targets/Own.antt =====
-- A run polls an expert's own calendar or none (tidycal-provider.factory.ts, forExpert).
use expertos.Common.{
  ℕ, ◌≡◌, refl, ◌⊎◌, inl, inr, Option, none, some, List, [], ◌∷◌, arith, Option-cases, All, In,
  String,
}
use expertos.Orm.{Prisma, unordered}
use expertos.Booking.Model.{BookingDb, Expert, ProviderEnv, TidyCalProvider, truthy}
use expertos.Booking.Targets.{
  PollTarget, ReconcileInput, default_provider, for_expert, poll_targets, resolve_targets,
  targets_for, is_polled,
}

-- What a client may poll on an expert's behalf: the calendar that the expert's own token opens, or
-- the default calendar for an expert who has no token.
abbrev pub OwnCalendar : ProviderEnv → Expert → TidyCalProvider → Type 0
OwnCalendar env expert provider =
    ((truthy expert.tidycal_api_token_enc ≡ none) × (provider ≡ default_provider env))
    ⊎ ((sealed : String) × (token : String) × (truthy expert.tidycal_api_token_enc ≡ some sealed)
        × (env.decrypt_secret sealed ≡ some token)
        × (provider ≡ env.http_provider token))

abbrev pub IsOwn : ProviderEnv → List Expert → PollTarget → Type 0
IsOwn env experts target =
    ((target.expert_id ≡ none) × (target.provider ≡ default_provider env))
    ⊎ ((expert : Expert) × In expert experts
        × (target.expert_id ≡ some expert.id)
        × OwnCalendar env expert target.provider)

module _ (env : ProviderEnv) where
  for_expert-OwnCalendar :
      (expert : Expert) (provider : TidyCalProvider)
      → for_expert env expert ≡ some provider
      → OwnCalendar env expert provider
  unfolding for_expert
  for_expert-OwnCalendar expert provider h =
      elim (Option-cases (truthy expert.tidycal_api_token_enc)) [
        | inl e ↦ inl (e, ground (arith, h))
        | inr (sealed, e) ↦ elim (Option-cases (env.decrypt_secret sealed)) [
          | inl k ↦ cc (rw (e, for_expert, k) at h)
          | inr (token, k) ↦ inr (sealed, token, e, k, cc (rw (e, for_expert, k) at h))
        ]
      ]

  weaken :
      (e : Expert) (experts : List Expert) (targets : List PollTarget)
      → All (IsOwn env experts) targets
      → All (IsOwn env (e ∷ experts)) targets
  weaken e experts [] h = tt
  weaken e experts (t ∷ targets) (inl h, k) = (inl h, weaken e experts targets k)
  weaken e experts (t ∷ targets) (inr (x, m, i, o), k) =
      (inr (x, inr m, i, o), weaken e experts targets k)

  poll_targets-IsOwn :
      (since : Option ℕ) (fallback now : ℕ) (experts : List Expert)
      → All (IsOwn env experts) (poll_targets env since fallback now experts).0
  unfolding poll_targets
  poll_targets-IsOwn since fallback now [] = tt
  poll_targets-IsOwn since fallback now (e ∷ experts) =
      let rest =
        weaken e experts (poll_targets env since fallback now experts).0
          (poll_targets-IsOwn since fallback now experts) in
      elim (Option-cases (for_expert env e)) [
        | inl k ↦ rw (k, All) rest
        | inr (provider, k) ↦
            rw (k, All) (inr (e, inl refl, refl, for_expert-OwnCalendar e provider k), rest)
      ]

  targets_for-IsOwn :
      (input : ReconcileInput) (now : ℕ) (experts : List Expert)
      → All (IsOwn env experts) (targets_for env input now experts).0
  unfolding targets_for
  targets_for-IsOwn input now [] = ground arith
  targets_for-IsOwn input now (e ∷ experts) = poll_targets-IsOwn input.since _ now (e ∷ experts)

-- Of a list that a query returned, every row stands in the table.
listed-In :
    (env : ProviderEnv) (experts table : List Expert) (targets : List PollTarget)
    → ((e : Expert) → In e experts → In e table)
    → All (IsOwn env experts) targets
    → All (IsOwn env table) targets
listed-In env experts table [] f h = tt
listed-In env experts table (t ∷ targets) f (inl h, k) =
    (inl h, listed-In env experts table targets f k)
listed-In env experts table (t ∷ targets) f (inr (x, m, i, o), k) =
    (inr (x, f x m, i, o), listed-In env experts table targets f k)

-- Each target of a run is the default calendar, without an expert, or belongs to an expert in the
-- table and is the calendar that the expert's own token opens; only an expert who has no token at
-- all is polled on the default calendar.
pub resolve_targets-IsOwn :
    (P : Prisma) (env : ProviderEnv) (input : ReconcileInput) (now : ℕ) (db : BookingDb)
    → All (IsOwn env db.experts) (resolve_targets P env input now db).0
unfolding resolve_targets
resolve_targets-IsOwn P env input now db =
    let experts = P.find_many (is_polled input) unordered db.experts in
    listed-In env experts db.experts (targets_for env input now experts).0
      (λ e m. ((P.find_many_in (is_polled input) unordered db.experts e).0 m).0)
      (targets_for-IsOwn env input now experts)
