-- ===== src/Ai/Chunk.antt =====
-- packages/ai/src/ingestion/chunk.ts: the sliding window over the words of a text. The string
-- methods are JavaScript's; the numbers of the options are integers.
pub mod Coverage
pub mod Budget
use Prim.Native.Nat.{max}
use Prim.Native.String.{◌++◌ as str_append}
use expertos.Common.{
  ℕ, zero, suc, ◌+◌, ◌-◌, ◌*◌, ◌/◌, Bool, true, false, ◌||◌, Option, none, some, List, [], ◌∷◌,
  String, str_eq, if◌then◌else◌, leb, ltb, ◌==◌, length, take, drop, or_else,
}
use expertos.Database.{Result, ok, err}

pub data ℤ : Type 0 where
  pos negsuc : ℕ → ℤ

pub record TextChunk : Type 0 where
  pub index : ℕ
  pub content : String
  pub token_count : ℕ

pub record ChunkOptions : Type 0 where
  pub max_tokens : Option ℤ
  pub overlap_tokens : Option ℤ

pub data ChunkError : Type 0 where
  bad_max_tokens bad_overlap_tokens : ChunkError

-- `join(" ")`.
abbrev pub join_words : List String → String
join_words [] = ""
join_words (w ∷ []) = w
join_words (w ∷ v ∷ ws) = str_append w (str_append " " (join_words (v ∷ ws)))

-- `max_tokens <= 0`.
abbrev pub not_positive : ℤ → Bool
not_positive (pos n) = n == 0
not_positive (negsuc n) = true

-- `overlap < 0 || overlap >= max_tokens`.
abbrev pub bad_overlap : ℤ → ℤ → Bool
bad_overlap (pos n) (pos m) = leb m n
bad_overlap (pos n) (negsuc m) = true
bad_overlap (negsuc n) m = true

-- `Math.floor(tokens * 0.75)` where tokens is not negative.
abbrev pub words_of : ℤ → ℕ
words_of (pos n) = n * 3 / 4
words_of (negsuc n) = 0

-- `Math.ceil(count / 0.75)`.
abbrev pub tokens_of : ℕ → ℕ
tokens_of count = (count * 4 + 2) / 3

abbrev pub max_words : ℤ → ℕ
max_words max_tokens = max 1 (words_of max_tokens)

abbrev pub window_step : ℤ → ℤ → ℕ
window_step max_tokens overlap_tokens = max 1 (max_words max_tokens - words_of overlap_tokens)

abbrev pub default_max_tokens : ℤ
default_max_tokens = pos 400

abbrev pub default_overlap_tokens : ℤ
default_overlap_tokens = pos 50

-- The string methods of JavaScript: `normalize("NFC")`, `trim` and `split(/\s+/)`.
pub record TextPlatform : Type 0 where
  pub normalize_nfc : String → String
  pub trim : String → String
  pub split_whitespace : String → List String

module _ (J : TextPlatform) where
  unfoldable pub normalize_text : String → String
  normalize_text text = J.normalize_nfc text

  unfoldable pub words : String → List String
  words text =
      let trimmed = J.trim (normalize_text text) in
      if str_eq trimmed "" then [] else J.split_whitespace trimmed

  unfoldable pub estimate_tokens : String → ℕ
  estimate_tokens text =
      let count = length (words text) in if count == 0 then 0 else tokens_of count

  unfoldable pub chunk_at : List String → ℕ → ℕ → ℕ → TextChunk
  chunk_at all size start index =
      let content = join_words (take size (drop start all)) in
      record { index = index; content = content; token_count = estimate_tokens content }

  -- The loop. A round starts at least one word further on, so the number of words is enough fuel.
  unfoldable pub chunk_loop : ℕ → List String → ℕ → ℕ → ℕ → ℕ → List TextChunk
  chunk_loop zero all size step start index = []
  chunk_loop (suc fuel) all size step start index =
      let rest = chunk_loop fuel all size step (start + step) (suc index) in
      if ltb start (length all)
      then chunk_at all size start index ∷ (if leb (length all) (start + size) then [] else rest)
      else []

  unfoldable pub chunk_words : List String → ℤ → ℤ → List TextChunk
  chunk_words all max_tokens overlap_tokens =
      if length all == 0
      then []
      else chunk_loop (length all) all (max_words max_tokens)
          (window_step max_tokens overlap_tokens) 0 0

  unfoldable pub chunk_text : String → ChunkOptions → Result ChunkError (List TextChunk)
  chunk_text text options =
      let max_tokens = or_else options.max_tokens default_max_tokens in
      let overlap_tokens = or_else options.overlap_tokens default_overlap_tokens in
      if not_positive max_tokens
      then err bad_max_tokens
      else if bad_overlap overlap_tokens max_tokens
      then err bad_overlap_tokens
      else ok (chunk_words (words text) max_tokens overlap_tokens)
