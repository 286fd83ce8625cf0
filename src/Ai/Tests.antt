-- ===== src/Ai/Tests.antt =====
-- Small texts, rules and answers: each property at a concrete run.
use expertos.Common.{
  inl, inr, ℕ, ◌≤◌, ◌≡◌, refl, ◌⊎◌, true, false, ◌&&◌, none, some, List, [], ◌∷◌, String, In, All,
  any, map, length, str_eq, arith, zero, suc,
}
use expertos.Database.{ok}
use expertos.Ai.Chunk.{
  TextPlatform, words, normalize_text, pos, TextChunk, ChunkOptions, join_words, max_words,
  chunk_text,
}
use expertos.Ai.Chunk.Coverage.{IsCovered, chunks_cover}
use expertos.Ai.Chunk.Budget.{count_from, stretch, IsSplit, chunks_fit}
use expertos.Ai.Recommendation.{
  RecommendationTrigger, RecommendationRule, RecommendationSignals, match_rule,
  evaluate_recommendation,
}
use expertos.Ai.Recommendation.Winner.{IsAhead, recommends_best}
use expertos.Ai.Citations.{
  CitationSource, Segment, TextEnv, has_ordinal, is_resolvable, build_citations,
}
use expertos.Ai.Citations.Resolution.{mentions, IsResolved}
use expertos.Ai.Citations.Ordinals.{IsAscending, citations_resolve}

-- A text without spaces is one word.
abbrev one_word : String → List String
one_word text = text ∷ []

abbrev platform : TextPlatform
platform = record { normalize_nfc = λ s. s; trim = λ s. s; split_whitespace = one_word }

abbrev options : ChunkOptions
options = record { max_tokens = some (pos 4); overlap_tokens = some (pos 1) }

chunks_cover_example :
    (chunks : List TextChunk) × (chunk_text platform "visa" options ≡ ok chunks)
    × IsCovered platform (words platform "visa") (max_words (pos 4)) 0 chunks
unfolding words normalize_text
chunks_cover_example =
    chunks_cover platform "visa" options 4 1 0 refl refl (omega arith) (omega arith)

visa-IsSplit : IsSplit platform "visa"
unfolding words normalize_text
visa-IsSplit = record { normal = λ n k. refl; trimmed = λ n k. refl; split = whole }
  where
    whole :
        (n k : ℕ)
        → (stretch platform "visa" n k ≡ [])
          ⊎ ((str_eq (join_words (stretch platform "visa" n k)) "" ≡ false)
              × (one_word (join_words (stretch platform "visa" n k)) ≡ stretch platform "visa" n k))
    whole zero zero = inl refl
    whole zero (suc k) = inl refl
    whole (suc zero) zero = inr (refl, refl)
    whole (suc (suc n)) zero = inr (refl, refl)
    whole (suc n) (suc zero) = inl refl
    whole (suc n) (suc (suc k)) = inl refl

chunks_fit_example :
    (chunks : List TextChunk) × (chunk_text platform "visa" options ≡ ok chunks)
    × (map (λ c. c.index) chunks ≡ count_from (length chunks) 0)
    × All (λ c. c.token_count ≤ 4) chunks
chunks_fit_example =
    chunks_fit platform "visa" options 4 1 visa-IsSplit refl refl (omega arith) (omega arith)

abbrev depth_rule : RecommendationRule
depth_rule = record {
  trigger = RecommendationTrigger.depth;
  enabled = true;
  threshold = some 3;
  keywords = [];
  priority = 5;
  consultation_type_key = none;
}

abbrev weak_rule : RecommendationRule
weak_rule = record {
  trigger = RecommendationTrigger.low_confidence;
  enabled = true;
  threshold = none;
  keywords = [];
  priority = 7;
  consultation_type_key = some "call";
}

abbrev rules : List RecommendationRule
rules = depth_rule ∷ weak_rule ∷ []

abbrev signals : RecommendationSignals
signals = record {
  question = "visa";
  answer = "maybe";
  citation_count = 0;
  insufficient_knowledge = true;
  assistant_turn_count = 3;
  high_stakes = false;
}

recommends_best_example :
    ((evaluate_recommendation one_word signals rules ≡ none)
      × All (λ r. (r.enabled && (match_rule one_word r signals).fired) ≡ false) rules)
    ⊎ ((winner : RecommendationRule) × In winner rules
        × ((winner.enabled && (match_rule one_word winner signals).fired) ≡ true)
        × (evaluate_recommendation one_word signals rules
            ≡ some (record {
              trigger = winner.trigger;
              consultation_type_key = winner.consultation_type_key;
              matched_keyword = (match_rule one_word winner signals).matched_keyword;
            }))
        × All
            (λ rival.
              ((rival.enabled && (match_rule one_word rival signals).fired) ≡ false)
              ⊎ IsAhead winner rival)
            rules)
recommends_best_example = recommends_best one_word signals rules

-- `No [2][7].`, with two sources.
abbrev text_env : TextEnv
text_env = record {
  normalize_text = λ s. s;
  segments = λ s.
      Segment.prose "No "
      ∷ Segment.marker "[2]" (2 ∷ [])
      ∷ Segment.marker "[7]" (7 ∷ [])
      ∷ Segment.prose "."
      ∷ [];
  squeeze_whitespace = λ s. s;
}

abbrev source : CitationSource
source = record {
  chunk_id = "c";
  document_version_id = "v";
  content = "fees";
  kind = none;
  upload_chunk_id = none;
  source_label = none;
}

abbrev sources : List CitationSource
sources = source ∷ source ∷ []

citations_resolve_example :
    All (IsResolved sources) (build_citations text_env "No [2][7]." sources).citations
    × IsAscending (build_citations text_env "No [2][7]." sources).citations
    × (has_ordinal 2 (build_citations text_env "No [2][7]." sources).citations ≡ (
        is_resolvable 2 sources
        && any (mentions 2) (text_env.segments (text_env.normalize_text "No [2][7]."))))
citations_resolve_example = citations_resolve text_env "No [2][7]." sources 2
