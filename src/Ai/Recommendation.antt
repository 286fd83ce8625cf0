-- ===== src/Ai/Recommendation.antt =====
-- packages/ai/src/recommendation/evaluate.ts: which rule, if any, recommends a consultation after a
-- chat turn. The tokenizer of text.ts is a parameter, as its Unicode classes are JavaScript's.
pub mod Winner
use Prim.Native.String.{◌++◌ as str_append}
use text.Mathlib.Text.{find?}
use expertos.Common.{
  ℕ, suc, ◌<◌, Bool, true, false, ◌&&◌, ◌||◌, Option, none, some, List, [], ◌∷◌, String,
  if◌then◌else◌, leb, ltb, ◌==◌, is_some, or_else, length, map_option,
}

pub data RecommendationTrigger : Type 0 where
  topic depth low_confidence high_intent : RecommendationTrigger

pub record RecommendationRule : Type 0 where
  pub trigger : RecommendationTrigger
  pub enabled : Bool
  pub threshold : Option ℕ
  pub keywords : List String
  pub priority : ℕ
  pub consultation_type_key : Option String

pub record RecommendationSignals : Type 0 where
  pub question : String
  pub answer : String
  pub citation_count : ℕ
  pub insufficient_knowledge : Bool
  pub assistant_turn_count : ℕ
  pub high_stakes : Bool

pub record RecommendationOutcome : Type 0 where
  pub trigger : RecommendationTrigger
  pub consultation_type_key : Option String
  pub matched_keyword : Option String

pub record RuleMatch : Type 0 where
  pub fired : Bool
  pub matched_keyword : Option String

pub record FiredRule : Type 0 where
  pub rule : RecommendationRule
  pub matched_keyword : Option String

-- The place in RECOMMENDATION_TRIGGERS.
abbrev pub trigger_order : RecommendationTrigger → ℕ
trigger_order topic = 0
trigger_order depth = 1
trigger_order low_confidence = 2
trigger_order high_intent = 3

abbrev pub join_tokens : List String → String
join_tokens [] = ""
join_tokens (w ∷ []) = w
join_tokens (w ∷ v ∷ ws) = str_append w (str_append " " (join_tokens (v ∷ ws)))

-- The tokens between single spaces, with one before and one after.
abbrev pub padded : List String → String
padded tokens = str_append " " (str_append (join_tokens tokens) " ")

-- `fired.sort`: its comparator answers at most 0.
abbrev pub comes_first : RecommendationRule → RecommendationRule → Bool
comes_first a b =
    ltb b.priority a.priority
    || ((a.priority == b.priority) && leb (trigger_order a.trigger) (trigger_order b.trigger))

abbrev pub insert_fired : FiredRule → List FiredRule → List FiredRule
insert_fired f [] = f ∷ []
insert_fired f (g ∷ gs) =
    let rest = insert_fired f gs in if comes_first f.rule g.rule then f ∷ g ∷ gs else g ∷ rest

-- The sort is stable: of two rules that neither comes before, the earlier stays the earlier.
abbrev pub sort_fired : List FiredRule → List FiredRule
sort_fired [] = []
sort_fired (f ∷ fs) = insert_fired f (sort_fired fs)

module _ (tokenize : String → List String) where
  unfoldable pub first_keyword_in : String → List String → Option String
  first_keyword_in text [] = none
  first_keyword_in text (raw ∷ keywords) =
      let rest = first_keyword_in text keywords in
      if length (tokenize raw) == 0
      then rest
      else if is_some (find? (padded (tokenize text)) (padded (tokenize raw)))
      then some raw
      else rest

  unfoldable pub match_trigger :
      RecommendationTrigger → RecommendationRule → RecommendationSignals → RuleMatch
  match_trigger high_intent rule signals =
      let matched = first_keyword_in signals.question rule.keywords in
      record { fired = is_some matched; matched_keyword = matched }
  match_trigger topic rule signals =
      let text = str_append signals.question (str_append " " signals.answer) in
      let matched = first_keyword_in text rule.keywords in
      record { fired = is_some matched || signals.high_stakes; matched_keyword = matched }
  match_trigger depth rule signals =
      let least = or_else rule.threshold 0 in
      record {
        fired = ltb 0 least && signals.assistant_turn_count == least;
        matched_keyword = none;
      }
  match_trigger low_confidence rule signals =
      let most = or_else rule.threshold 0 in
      record {
        fired = signals.insufficient_knowledge || leb signals.citation_count most;
        matched_keyword = none;
      }

  unfoldable pub match_rule : RecommendationRule → RecommendationSignals → RuleMatch
  match_rule rule signals = match_trigger rule.trigger rule signals

  unfoldable pub fired_rules : RecommendationSignals → List RecommendationRule → List FiredRule
  fired_rules signals [] = []
  fired_rules signals (rule ∷ rules) =
      let rest = fired_rules signals rules in
      if rule.enabled && (match_rule rule signals).fired
      then record { rule = rule; matched_keyword = (match_rule rule signals).matched_keyword }
        ∷ rest
      else rest

  abbrev pub outcome_of : FiredRule → RecommendationOutcome
  outcome_of winner = record {
    trigger = winner.rule.trigger;
    consultation_type_key = winner.rule.consultation_type_key;
    matched_keyword = winner.matched_keyword;
  }

  abbrev pub first_fired : List FiredRule → Option FiredRule
  first_fired [] = none
  first_fired (f ∷ fs) = some f

  unfoldable pub evaluate_recommendation :
      RecommendationSignals → List RecommendationRule → Option RecommendationOutcome
  evaluate_recommendation signals rules =
      map_option outcome_of (first_fired (sort_fired (fired_rules signals rules)))
