-- ===== src/Concierge/Footprint.antt =====
-- What a verdict and an escalation leave as it was: the settings, and who asked for a review and when.
use expertos.Common.{
  ℕ, ◌≡◌, refl, sym, ap, ◌∙◌, inl, inr, Bool, true, false, Option, List, [], ◌∷◌, String, map, keep,
  length, arith, if◌then◌else◌, ◌&&◌, ◌==◌, leb,
}
use expertos.Orm.{Prisma, change}
use expertos.Database.{run}
use expertos.Database.Rows.{AuthUser}
use expertos.Concierge.{HumanReviewRequest, ConciergeDb}
use expertos.Concierge.Queue.{created_since}
use expertos.Concierge.Flywheel.{FlywheelInput, apply_review_outcome}
use expertos.Concierge.Delivery.{DeliveryInput, deliver}
use expertos.Concierge.Review.{
  ReviewResponseCreateInput, FreshIds, mark_answered, mark_escalated, after_commit, respond,
  escalate,
}
use expertos.Concierge.Outcome.{respond_tx-cases}
use expertos.Concierge.Escalation.{escalate_tx-cases}
use expertos.Concierge.Effects.{kept, apply_review_outcome-kept, deliver-marks}
use expertos.Concierge.Admission.{made_since}
use expertos.Concierge.Calls.{ConciergeEnv}

-- What the new requests are counted by.
abbrev pub origin : HumanReviewRequest → ℕ × (ℕ × ℕ)
origin r = (r.id, (r.tenant_id, r.created_at))

pub record IsReviewed (db db' : ConciergeDb) : Type 0 where
  pub same_configs : db'.configs ≡ db.configs
  pub same_origins : map origin db'.requests ≡ map origin db.requests

origins_changed :
    (p : HumanReviewRequest → Bool) (f : HumanReviewRequest → HumanReviewRequest)
    (rs : List HumanReviewRequest)
    → ((r : HumanReviewRequest) → origin (f r) ≡ origin r)
    → map origin (change p f rs) ≡ map origin rs
origins_changed p f [] h = refl
origins_changed p f (r ∷ rs) h =
    rw (origins_changed p f rs h) (ap (λ o. o ∷ map origin rs) (one (p r)))
  where
    one : (b : Bool) → origin (if b then f r else r) ≡ origin r
    one true = h r
    one false = refl

-- The count of a day reads the origins alone.
abbrev count_origins : ℕ → ℕ → List (ℕ × (ℕ × ℕ)) → ℕ
count_origins tenant_id since os = length (keep (λ o. (o.1.0 == tenant_id) && leb since (o.1.1)) os)

count_origins-map :
    (tenant_id since : ℕ) (rs : List HumanReviewRequest)
    → length (keep (created_since tenant_id since) rs)
      ≡ count_origins tenant_id since (map origin rs)
count_origins-map tenant_id since [] = refl
count_origins-map tenant_id since (r ∷ rs) = ground (arith, count_origins-map tenant_id since rs)

pub made_since-IsReviewed :
    (tenant_id since : ℕ) (db db' : ConciergeDb)
    → IsReviewed db db'
    → made_since tenant_id since db' ≡ made_since tenant_id since db
made_since-IsReviewed tenant_id since db db' h =
    count_origins-map tenant_id since db'.requests
    ∙ ap (count_origins tenant_id since) h.same_origins
    ∙ sym (count_origins-map tenant_id since db.requests)

untouched : (db : ConciergeDb) → IsReviewed db db
untouched db = record { same_configs = refl; same_origins = refl }

module _ (P : Prisma) (env : ConciergeEnv) where
  after_commit-IsReviewed :
      (f : FlywheelInput) (g : DeliveryInput) (fresh now : ℕ) (db db1 : ConciergeDb)
      → IsReviewed db db1
      → IsReviewed db
          (deliver P env.delivery g fresh now (apply_review_outcome P env.flywheel f now db1))
  after_commit-IsReviewed f g fresh now db db1 h =
      let db2 = apply_review_outcome P env.flywheel f now db1 in
      let e2 : kept db2 ≡ kept db1 = apply_review_outcome-kept P env.flywheel f now db1 in
      elim (deliver-marks P env.delivery g fresh now db2) [
        | inl e ↦ record {
          same_configs = ap (λ t. t.0) (e ∙ e2) ∙ h.same_configs;
          same_origins = ap (λ t. map origin (t.1.0)) (e ∙ e2) ∙ h.same_origins;
        }
        | inr e ↦ record {
          same_configs = ap (λ t. t.0) e ∙ ap (λ t. t.0) e2 ∙ h.same_configs;
          same_origins =
              ap (λ t. map origin (t.1.0)) e ∙ ap (λ t. map origin (t.1.0)) e2 ∙ h.same_origins;
        }
      ]

  pub respond-IsReviewed :
      (user : AuthUser) (requested_expert_id : Option ℕ) (id : ℕ)
      (input : ReviewResponseCreateInput) (ids : FreshIds) (now : ℕ) (db : ConciergeDb)
      → IsReviewed db
          (respond P env.flywheel env.delivery user requested_expert_id id input ids now db).1
  unfolding respond after_commit
  respond-IsReviewed user requested_expert_id id input ids now db =
      elim (respond_tx-cases P user requested_expert_id id input ids.created now db) [
        | inl (e, failed) ↦ rw (respond, run, failed, after_commit) (untouched db)
        | inr a ↦
            rw (respond, run, a.returns, after_commit)
              (after_commit-IsReviewed _ _ ids.delivered now db _ (record {
                same_configs = refl;
                same_origins =
                    origins_changed (λ r. r.id == a.row.id) (mark_answered user now) db.requests
                      (λ r. refl);
              }))
      ]

  pub escalate-IsReviewed :
      (user : AuthUser) (requested_expert_id : Option ℕ) (id : ℕ) (key : Option String) (fresh : ℕ)
      (db : ConciergeDb)
      → IsReviewed db (escalate P user requested_expert_id id key fresh db).1
  unfolding escalate
  escalate-IsReviewed user requested_expert_id id key fresh db =
      elim (escalate_tx-cases P user requested_expert_id id key fresh db) [
        | inl (e, failed) ↦ rw (escalate, run, failed) (untouched db)
        | inr a ↦ record {
          same_configs = rw (escalate, run, a.returns) (a.configs_after);
          same_origins =
              rw (escalate, run, a.returns, a.requests_after)
                (origins_changed (λ r. r.id == a.row.id) (mark_escalated user) db.requests
                  (λ r. refl));
        }
      ]
