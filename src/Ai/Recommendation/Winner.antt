-- ===== src/Ai/Recommendation/Winner.antt =====
-- The recommendation against its description (recommendation/evaluate.ts).
use expertos.Common.{
  ◌<◌, ◌≤◌, ◌≡◌, refl, ◌∙◌, ◌⊎◌, inl, inr, Bool, true, false, not, ◌&&◌, ◌||◌, Option, none, some,
  List, [], ◌∷◌, String, In, All, Bool-cases, arith, if◌then◌else◌,
}
use expertos.Ai.Recommendation.{
  RecommendationRule, RecommendationSignals, FiredRule, comes_first, trigger_order, insert_fired,
  sort_fired, match_rule, fired_rules, first_fired, evaluate_recommendation,
}

-- By the description: a higher priority, or the same one and a trigger that is not later.
abbrev pub IsAhead : RecommendationRule → RecommendationRule → Type 0
IsAhead a b =
    (b.priority < a.priority)
    ⊎ ((a.priority ≡ b.priority) × (trigger_order a.trigger ≤ trigger_order b.trigger))

comes_first-IsAhead : (a b : RecommendationRule) → comes_first a b ≡ true → IsAhead a b
comes_first-IsAhead a b h = ground arith

comes_first_trans :
    (a b c : RecommendationRule)
    → comes_first a b ≡ true
    → comes_first b c ≡ true
    → comes_first a c ≡ true
comes_first_trans a b c h k = ground arith

comes_first_total : (a b : RecommendationRule) → comes_first a b ≡ false → comes_first b a ≡ true
comes_first_total a b h = ground arith

comes_first_refl : (a : RecommendationRule) → comes_first a a ≡ true
comes_first_refl a = ground arith

module _ (tokenize : String → List String) where
  abbrev head : List FiredRule → Option FiredRule
  head fs = first_fired tokenize fs

  head-insert_none :
      (f : FiredRule) (l : List FiredRule) → head l ≡ none → head (insert_fired f l) ≡ some f
  head-insert_none f [] h = refl
  head-insert_none f (g ∷ l) h = cc

  head-insert_some :
      (f w : FiredRule) (l : List FiredRule)
      → head l ≡ some w
      → head (insert_fired f l) ≡ some (if comes_first f.rule w.rule then f else w)
  head-insert_some f w [] h = cc
  head-insert_some f w (g ∷ l) h =
      let same : g ≡ w = ground arith in
      rw (← same)
        (elim (Bool-cases (comes_first f.rule g.rule)) [ inl e ↦ rw e refl | inr e ↦ rw e refl ])

  abbrev fires : RecommendationSignals → RecommendationRule → Bool
  fires signals rule = rule.enabled && (match_rule tokenize rule signals).fired

  abbrev to_fired : RecommendationSignals → RecommendationRule → FiredRule
  to_fired signals rule = record {
    rule = rule;
    matched_keyword = (match_rule tokenize rule signals).matched_keyword;
  }

  -- A rule that fires, and that every rule that fires comes after or level with.
  record IsBest (signals : RecommendationSignals) (rules : List RecommendationRule) : Type 0 where
    winner : RecommendationRule
    listed : In winner rules
    fired : fires signals winner ≡ true
    first_sorted :
        head (sort_fired (fired_rules tokenize signals rules)) ≡ some (to_fired signals winner)
    best : All (λ rival. (not (fires signals rival) || comes_first winner rival) ≡ true) rules

  below :
      (signals : RecommendationSignals) (a b : RecommendationRule) (rules : List RecommendationRule)
      → comes_first a b ≡ true
      → All (λ rival. (not (fires signals rival) || comes_first b rival) ≡ true) rules
      → All (λ rival. (not (fires signals rival) || comes_first a rival) ≡ true) rules
  below signals a b [] h k = tt
  below signals a b (r ∷ rules) h k = (
    elim (Bool-cases (fires signals r)) [
      | inr e ↦ rw e refl
      | inl e ↦ rw e (comes_first_trans a b r h (rw e at (k.0)))
    ],
    below signals a b rules h (k.1),
  )

  silent_below :
      (signals : RecommendationSignals) (a : RecommendationRule) (rules : List RecommendationRule)
      → All (λ r. fires signals r ≡ false) rules
      → All (λ rival. (not (fires signals rival) || comes_first a rival) ≡ true) rules
  silent_below signals a [] h = tt
  silent_below signals a (r ∷ rules) h = (rw (h.0) refl, silent_below signals a rules (h.1))

  abbrev IsDecided : RecommendationSignals → List RecommendationRule → Type 0
  IsDecided signals rules =
      ((head (sort_fired (fired_rules tokenize signals rules)) ≡ none)
        × All (λ r. fires signals r ≡ false) rules)
      ⊎ IsBest signals rules

  decide_more :
      (signals : RecommendationSignals) (r : RecommendationRule) (rules : List RecommendationRule)
      → IsDecided signals rules
      → IsDecided signals (r ∷ rules)
  unfolding fired_rules
  decide_more signals r rules (inl (e, h)) = elim (Bool-cases (fires signals r)) [
    | inr f ↦ inl (rw (fired_rules, f) e, (f, h))
    | inl f ↦ inr (record {
      winner = r;
      listed = inl refl;
      fired = f;
      first_sorted = rw (fired_rules, f) (head-insert_none (to_fired signals r) _ e);
      best = (rw (f, comes_first_refl r) refl, silent_below signals r rules h);
    })
  ]
  decide_more signals r rules (inr b) = elim (Bool-cases (fires signals r)) [
    | inr f ↦ inr (record {
      winner = b.winner;
      listed = inr b.listed;
      fired = b.fired;
      first_sorted = rw (fired_rules, f) b.first_sorted;
      best = (rw f refl, b.best);
    })
    | inl f ↦ elim (Bool-cases (comes_first r b.winner)) [
      | inl c ↦ inr (record {
        winner = r;
        listed = inl refl;
        fired = f;
        first_sorted =
            rw (fired_rules, f)
              (head-insert_some (to_fired signals r) (to_fired signals b.winner) _ b.first_sorted
                ∙ rw c refl);
        best = (rw (f, comes_first_refl r) refl, below signals r b.winner rules c b.best);
      })
      | inr c ↦ inr (record {
        winner = b.winner;
        listed = inr b.listed;
        fired = b.fired;
        first_sorted =
            rw (fired_rules, f)
              (head-insert_some (to_fired signals r) (to_fired signals b.winner) _ b.first_sorted
                ∙ rw c refl);
        best = (rw (f, comes_first_total r b.winner c) refl, b.best);
      })
    ]
  ]

  decide :
      (signals : RecommendationSignals) (rules : List RecommendationRule) → IsDecided signals rules
  unfolding fired_rules
  decide signals [] = inl (refl, tt)
  decide signals (r ∷ rules) = decide_more signals r rules (decide signals rules)

  ahead :
      (signals : RecommendationSignals) (winner : RecommendationRule)
      (rules : List RecommendationRule)
      → All (λ rival. (not (fires signals rival) || comes_first winner rival) ≡ true) rules
      → All
          (λ rival.
            ((rival.enabled && (match_rule tokenize rival signals).fired) ≡ false)
            ⊎ IsAhead winner rival)
          rules
  ahead signals winner [] h = tt
  ahead signals winner (r ∷ rules) h = (
    elim (Bool-cases (fires signals r)) [
      | inr e ↦ inl e
      | inl e ↦ inr (comes_first-IsAhead winner r (rw e at (h.0)))
    ],
    ahead signals winner rules (h.1),
  )

  -- Nothing is recommended and no enabled rule fires, or the outcome is that of an enabled rule that
  -- fires, and it is ahead of every enabled rule that fires: it has a higher priority, or the same one
  -- and a trigger that is not later.
  pub recommends_best :
      (signals : RecommendationSignals) (rules : List RecommendationRule)
      → ((evaluate_recommendation tokenize signals rules ≡ none)
          × All (λ r. (r.enabled && (match_rule tokenize r signals).fired) ≡ false) rules)
        ⊎ ((winner : RecommendationRule) × In winner rules
            × ((winner.enabled && (match_rule tokenize winner signals).fired) ≡ true)
            × (evaluate_recommendation tokenize signals rules
                ≡ some (record {
                  trigger = winner.trigger;
                  consultation_type_key = winner.consultation_type_key;
                  matched_keyword = (match_rule tokenize winner signals).matched_keyword;
                }))
            × All
                (λ rival.
                  ((rival.enabled && (match_rule tokenize rival signals).fired) ≡ false)
                  ⊎ IsAhead winner rival)
                rules)
  unfolding evaluate_recommendation
  recommends_best signals rules = elim (decide signals rules) [
    | inl (e, h) ↦ inl (rw (evaluate_recommendation, e) refl, h)
    | inr b ↦ inr (
      b.winner,
      b.listed,
      b.fired,
      rw (evaluate_recommendation, b.first_sorted) refl,
      ahead signals b.winner rules b.best,
    )
  ]
