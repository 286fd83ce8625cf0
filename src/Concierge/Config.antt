-- ===== src/Concierge/Config.antt =====
-- apps/api/src/concierge/concierge-config.service.ts: the settings of the review, one row for the
-- platform.
use expertos.Common.{
  ℕ, Bool, true, false, not, ◌&&◌, Option, none, some, List, [], ◌∷◌, String, if◌then◌else◌, ◌==◌,
}
use expertos.Orm.{Prisma, unordered}
use expertos.Orm.Reads.{create_row}
use expertos.Database.{Result, ok, err}
use expertos.Database.Rows.{AuthUser}
use expertos.Database.Audit.{Json, AuditEntry, record_entry}
use expertos.Concierge.{
  ReviewTriggerMode, ReviewConfig, ConciergeDb, ReviewError, silent_pending, is_auto_silent,
}

pub record ReviewConfigUpdateInput : Type 0 where
  pub enabled : Bool
  pub trigger_mode : ReviewTriggerMode
  pub confidence_threshold : ℕ
  pub sla_hours : ℕ
  pub volume_cap_per_day : ℕ

pub record ReviewConfigDto : Type 0 where
  pub enabled : Bool
  pub trigger_mode : ReviewTriggerMode
  pub confidence_threshold : ℕ
  pub sla_hours : ℕ
  pub volume_cap_per_day : ℕ
  pub silent_review_allowed : Bool
  pub updated_at : Option ℕ

abbrev pub to_dto : Bool → ReviewConfig → ReviewConfigDto
to_dto silent_review_allowed row = record {
  enabled = row.enabled;
  trigger_mode = row.trigger_mode;
  confidence_threshold = row.confidence_threshold;
  sla_hours = row.sla_hours;
  volume_cap_per_day = row.volume_cap_per_day;
  silent_review_allowed = silent_review_allowed;
  updated_at = some row.updated_at;
}

-- The threshold of the defaults is one half, on the scale of hundredths.
abbrev pub default_dto : Bool → ReviewConfigDto
default_dto silent_review_allowed = record {
  enabled = false;
  trigger_mode = ReviewTriggerMode.user_prompted;
  confidence_threshold = 50;
  sla_hours = 24;
  volume_cap_per_day = 50;
  silent_review_allowed = silent_review_allowed;
  updated_at = none;
}

abbrev pub trigger_mode_text : ReviewTriggerMode → String
trigger_mode_text ReviewTriggerMode.user_prompted = "user_prompted"
trigger_mode_text ReviewTriggerMode.auto_silent = "auto_silent"

abbrev pub config_updated : ReviewConfig → AuditEntry
config_updated row = record {
  action = "concierge.config_updated";
  target_type = some "review_config";
  target_id = some row.id;
  metadata =
      ("enabled", Json.json_bool row.enabled)
      ∷ ("triggerMode", Json.json_string (trigger_mode_text row.trigger_mode))
      ∷ ("confidenceThreshold", Json.json_number row.confidence_threshold)
      ∷ ("slaHours", Json.json_number row.sla_hours)
      ∷ ("volumeCapPerDay", Json.json_number row.volume_cap_per_day)
      ∷ [];
}

-- The `data` of the write, over the row that is found or that is new.
abbrev pub with_input : ReviewConfigUpdateInput → ℕ → ReviewConfig → ReviewConfig
with_input input now row = record row {
  enabled = input.enabled;
  trigger_mode = input.trigger_mode;
  confidence_threshold = input.confidence_threshold;
  sla_hours = input.sla_hours;
  volume_cap_per_day = input.volume_cap_per_day;
  updated_at = now;
}

abbrev pub new_config : ReviewConfigUpdateInput → ℕ → ℕ → ReviewConfig
new_config input fresh now = record {
  id = fresh;
  enabled = input.enabled;
  trigger_mode = input.trigger_mode;
  confidence_threshold = input.confidence_threshold;
  sla_hours = input.sla_hours;
  volume_cap_per_day = input.volume_cap_per_day;
  updated_at = now;
}

-- Mode B on, which the sign-off must have allowed.
abbrev pub enables_silent : ReviewConfigUpdateInput → Bool
enables_silent input = input.enabled && is_auto_silent input.trigger_mode

module _ (P : Prisma) where
  unfoldable pub save_config :
      ReviewConfigUpdateInput → ℕ → ℕ → List ReviewConfig → ReviewConfig × List ReviewConfig
  save_config input fresh now configs = elim (P.find_first (λ c. true) unordered configs) [
    | some existing ↦ (
      with_input input now existing,
      P.update_many (λ c. c.id == existing.id) (with_input input now) configs,
    )
    | none ↦ (new_config input fresh now, create_row P (new_config input fresh now) configs)
  ]

module _ (P : Prisma) (silent_review_allowed : Bool) where
  unfoldable pub get_config : ConciergeDb → ReviewConfigDto
  get_config db = elim (P.find_first (λ c. true) unordered db.configs) [
    | none ↦ default_dto silent_review_allowed
    | some row ↦ to_dto silent_review_allowed row
  ]

  unfoldable pub update_config :
      AuthUser
      → ReviewConfigUpdateInput
      → ℕ
      → ℕ
      → ConciergeDb
      → Result ReviewError ReviewConfigDto × ConciergeDb
  update_config actor input fresh now db =
      if enables_silent input && not silent_review_allowed
      then (err silent_pending, db)
      else let (row, configs) = save_config P input fresh now db.configs in
        (
          ok (to_dto silent_review_allowed row),
          record db {
            configs = configs;
            audit = record_entry P actor (config_updated row) db.audit;
          },
        )
