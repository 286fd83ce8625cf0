-- ===== src/Concierge/Tests.antt =====
-- A weak answer that waits for its expert: each property at a concrete run.
use expertos.Common.{◌≤◌, ◌≡◌, refl, ◌⊎◌, true, false, none, some, List, [], ◌∷◌, map, arith}
use expertos.Orm.{unordered}
use expertos.Orm.Listed.{listed}
use expertos.Database.{ok, err}
use expertos.Database.Rows.{AuthUser, Role}
use expertos.Concierge.{
  ReviewTriggerMode, ReviewVisibility, ReviewRequestStatus, ReviewVerdict, MessageRole, Language,
  ReviewConfig, HumanReviewRequest, ReviewResponse, ConciergeDb, ReviewError, Message, Conversation,
}
use expertos.Concierge.Queue.{ConciergeEnqueueInput}
use expertos.Concierge.Flywheel.{FlywheelEnv, FlywheelInput, find_answer, apply_review_outcome}
use expertos.Concierge.Delivery.{DeliveryEnv}
use expertos.Concierge.Review.{ReviewResponseCreateInput, FreshIds, respond}
use expertos.Concierge.Diagram.{◌⟶*◌}
use expertos.Concierge.Cases.{case_of, verdicts_of}
use expertos.Concierge.Calls.{ConciergeCall, turn_call, respond_call, ConciergeEnv, perform_all}
use expertos.Concierge.Admission.{made_since}
use expertos.Concierge.Footprint.{origin}
use expertos.Concierge.Simulation.{run_refines_diagram, one_verdict}
use expertos.Concierge.Gate.{silent_needs_sign_off}
use expertos.Concierge.Cap.{volume_cap}
use expertos.Concierge.Flags.{flags_cited_once}
use expertos.Concierge.Verdict.{IsRecorded, respond_outcome}

abbrev asker : AuthUser
asker = record { id = 6; tenant_id = 9; email = "amy@x"; role = Role.user }

abbrev reviewer : AuthUser
reviewer = record { id = 7; tenant_id = 9; email = "eve@x"; role = Role.expert }

abbrev mode_b : ReviewConfig
mode_b = record {
  id = 1;
  enabled = true;
  trigger_mode = ReviewTriggerMode.auto_silent;
  confidence_threshold = 50;
  sla_hours = 24;
  volume_cap_per_day = 2;
  updated_at = 0;
}

abbrev waiting : HumanReviewRequest
waiting = record {
  id = 5;
  tenant_id = 9;
  user_id = 6;
  message_id = 31;
  assignee_id = none;
  trigger_mode = ReviewTriggerMode.auto_silent;
  visibility = ReviewVisibility.silent;
  confidence_score = none;
  status = ReviewRequestStatus.requested;
  sla_due_at = none;
  answered_at = none;
  created_at = 100;
}

abbrev db : ConciergeDb
db = record {
  configs = mode_b ∷ [];
  requests = waiting ∷ [];
  responses = [];
  messages =
      record {
        id = 31;
        tenant_id = 9;
        conversation_id = 41;
        role = MessageRole.assistant;
        content = "Maybe.";
        refined_from_message_id = none;
        created_at = 90;
      }
      ∷ [];
  conversations =
      record { id = 41; expert_id = some 3; language = Language.en; updated_at = 90 } ∷ [];
  experts = record { id = 3; tenant_id = 9; user_id = some 7 } ∷ [];
  users = record { id = 6; email = "amy@x"; display_name = none } ∷ [];
  consultation_types = [];
  consultations = [];
  citations =
      record { message_id = 31; chunk_id = some 71 }
      ∷ record { message_id = 31; chunk_id = some 71 }
      ∷ record { message_id = 32; chunk_id = some 72 }
      ∷ [];
  chunks =
      record { id = 71; flag_count = 0; last_flagged_at = none }
      ∷ record { id = 72; flag_count = 0; last_flagged_at = none }
      ∷ [];
  drafts = [];
  voice_profiles = [];
  voice_examples = [];
  audit = [];
  outbox = [];
}

abbrev flywheel : FlywheelEnv
flywheel = record {
  embed = λ s. none;
  trim = λ s. s;
  string_length = λ s. 0;
  first_chars = λ n s. s;
}

abbrev delivery : DeliveryEnv
delivery = record { web_app_url = "http://x"; show_id = λ n. "41"; send = λ m. true }

abbrev env : ConciergeEnv
env = record { silent_review_allowed = false; flywheel = flywheel; delivery = delivery }

abbrev edit : ReviewResponseCreateInput
edit = record { verdict = ReviewVerdict.bad; revised_answer = some "No."; notes = none }

abbrev ids : FreshIds
ids = record { created = 81; delivered = 33 }

abbrev weak_turn : ConciergeEnqueueInput
weak_turn = record {
  message_id = 32;
  conversation_id = 41;
  insufficient_knowledge = true;
  confidence = none;
}

abbrev calls : List ConciergeCall
calls =
    turn_call asker weak_turn 8 200
    ∷ respond_call reviewer none 5 edit ids 300
    ∷ respond_call reviewer none 5 edit ids 400
    ∷ []

run_refines_diagram_example : case_of 5 db ⟶* case_of 5 (perform_all listed env calls db)
run_refines_diagram_example = run_refines_diagram listed env calls db 5 (refl, tt)

one_verdict_example : verdicts_of 5 (perform_all listed env calls db).responses ≤ 1
one_verdict_example = one_verdict listed env calls db 5 (refl, tt) refl

abbrev db_off : ConciergeDb
db_off = record db { configs = record mode_b { enabled = false } ∷ [] }

silent_needs_sign_off_example :
    map origin (perform_all listed env calls db_off).requests ≡ map origin db_off.requests
silent_needs_sign_off_example = silent_needs_sign_off listed env refl calls db_off (refl, tt)

mode_b_read : listed.find_first (λ c. true) unordered db.configs ≡ some mode_b
unfolding listed
mode_b_read = refl

volume_cap_example : made_since 9 0 (perform_all listed env calls db) ≤ 2
volume_cap_example =
    volume_cap listed env 9 0 mode_b calls db mode_b_read (ground arith)
      ((omega arith, omega arith), (tt, (tt, tt)))

abbrev bad_verdict : FlywheelInput
bad_verdict = record {
  review_request_id = 5;
  tenant_id = 9;
  verdict = ReviewVerdict.bad;
  improved_answer = "No.";
  edited = true;
}

abbrev answer : Message
answer = record {
  id = 31;
  tenant_id = 9;
  conversation_id = 41;
  role = MessageRole.assistant;
  content = "Maybe.";
  refined_from_message_id = none;
  created_at = 90;
}

abbrev chat : Conversation
chat = record { id = 41; expert_id = some 3; language = Language.en; updated_at = 90 }

answer_found : find_answer listed flywheel 5 db ≡ some (answer, chat)
unfolding find_answer listed
answer_found = refl

flags_cited_once_example :
    (apply_review_outcome listed flywheel bad_verdict 300 db).chunks
    ≡ record { id = 71; flag_count = 1; last_flagged_at = some 300 }
      ∷ record { id = 72; flag_count = 0; last_flagged_at = none }
      ∷ []
flags_cited_once_example =
    flags_cited_once listed flywheel bad_verdict answer chat 300 db answer_found

respond_outcome_example :
    ((e : ReviewError) × (respond listed flywheel delivery reviewer none 5 edit ids 300 db
        ≡ (err e, db)))
    ⊎ ((response : ReviewResponse) × ((respond listed flywheel delivery reviewer none 5 edit ids 300
            db).0
          ≡ ok response)
        × IsRecorded listed flywheel delivery reviewer none 5 edit 81 300 db
            (respond listed flywheel delivery reviewer none 5 edit ids 300 db).1
            response)
respond_outcome_example = respond_outcome listed flywheel delivery reviewer none 5 edit ids 300 db
