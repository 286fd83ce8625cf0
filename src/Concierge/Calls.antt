-- ===== src/Concierge/Calls.antt =====
-- The calls that the review answers: a chat turn, an edit of the settings, a verdict, an escalation.
use expertos.Common.{ℕ, Bool, Option, List, [], ◌∷◌, String}
use expertos.Orm.{Prisma}
use expertos.Database.Rows.{AuthUser}
use expertos.Concierge.{ConciergeDb}
use expertos.Concierge.Config.{ReviewConfigUpdateInput, update_config}
use expertos.Concierge.Queue.{ConciergeEnqueueInput, enqueue_if_triggered}
use expertos.Concierge.Flywheel.{FlywheelEnv}
use expertos.Concierge.Delivery.{DeliveryEnv}
use expertos.Concierge.Review.{ReviewResponseCreateInput, FreshIds, respond, escalate}

pub data ConciergeCall : Type 0 where
  turn_call : AuthUser → ConciergeEnqueueInput → ℕ → ℕ → ConciergeCall
  config_call : AuthUser → ReviewConfigUpdateInput → ℕ → ℕ → ConciergeCall
  respond_call : AuthUser → Option ℕ → ℕ → ReviewResponseCreateInput → FreshIds → ℕ → ConciergeCall
  escalate_call : AuthUser → Option ℕ → ℕ → Option String → ℕ → ConciergeCall

-- What the services are given from outside.
pub record ConciergeEnv : Type 0 where
  pub silent_review_allowed : Bool
  pub flywheel : FlywheelEnv
  pub delivery : DeliveryEnv

module _ (P : Prisma) (env : ConciergeEnv) where
  unfoldable pub perform : ConciergeCall → ConciergeDb → ConciergeDb
  perform (turn_call user input fresh now) db = enqueue_if_triggered P user input fresh now db
  perform (config_call actor input fresh now) db =
      (update_config P env.silent_review_allowed actor input fresh now db).1
  perform (respond_call user requested id input ids now) db =
      (respond P env.flywheel env.delivery user requested id input ids now db).1
  perform (escalate_call user requested id key fresh) db =
      (escalate P user requested id key fresh db).1

  unfoldable pub perform_all : List ConciergeCall → ConciergeDb → ConciergeDb
  perform_all [] db = db
  perform_all (c ∷ cs) db = perform_all cs (perform c db)
