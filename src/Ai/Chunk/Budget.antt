-- ===== src/Ai/Chunk/Budget.antt =====
-- The budget and the numbering of the chunks (ingestion/chunk.ts).
use Prim.Native.Nat.{max, min}
use expertos.Common.{
  ℕ, zero, suc, ◌+◌, ◌*◌, ◌/◌, ◌≤◌, ◌<◌, ◌≡◌, refl, ap, ◌⊎◌, false, str_eq, List, [], ◌∷◌, String,
  All, inl, inr, map, if◌then◌else◌, leb, ltb, ◌==◌, length, take, drop, length-take, or_else,
  arith, Bool-cases,
}
use expertos.Database.{ok}
use expertos.Ai.Chunk.{
  pos, TextPlatform, words, normalize_text, TextChunk, ChunkOptions, join_words, max_words,
  window_step, tokens_of, default_max_tokens, default_overlap_tokens, estimate_tokens, chunk_at,
  chunk_loop, chunk_words, chunk_text,
}
use expertos.Ai.Chunk.Coverage.{accepted}

abbrev pub count_from : ℕ → ℕ → List ℕ
count_from zero start = []
count_from (suc n) start = start ∷ count_from n (suc start)

-- A stretch of the words of a text: `n` of them, from place `k` on.
abbrev pub stretch : TextPlatform → String → ℕ → ℕ → List String
stretch J text n k = take n (drop k (words J text))

-- What the string methods do with words that they have split a normalised text into, joined by
-- spaces: the text is in normal form and trimmed, and it is split into the same words, of which it
-- has none only if it is empty.
pub record IsSplit (J : TextPlatform) (text : String) : Type 0 where
  pub normal :
      (n k : ℕ)
      → J.normalize_nfc (join_words (stretch J text n k)) ≡ join_words (stretch J text n k)
  pub trimmed :
      (n k : ℕ) → J.trim (join_words (stretch J text n k)) ≡ join_words (stretch J text n k)
  pub split :
      (n k : ℕ)
      → (stretch J text n k ≡ [])
        ⊎ ((str_eq (join_words (stretch J text n k)) "" ≡ false)
            × (J.split_whitespace (join_words (stretch J text n k)) ≡ stretch J text n k))

words-join :
    (J : TextPlatform) (text : String)
    → IsSplit J text
    → (n k : ℕ) → words J (join_words (stretch J text n k)) ≡ stretch J text n k
unfolding words normalize_text
words-join J text h n k = elim (h.split n k) [
  | inl e ↦ rw (words, normalize_text, h.normal n k, h.trimmed n k, e) refl
  | inr (e, s) ↦ rw (words, normalize_text, h.normal n k, h.trimmed n k, e) s
]

tokens_within : (n m : ℕ) → 2 ≤ m → n ≤ max 1 (m * 3 / 4) → tokens_of n ≤ m
tokens_within n m h k = omega arith

zero_or : (n m : ℕ) → tokens_of n ≤ m → (if n == 0 then 0 else tokens_of n) ≤ m
zero_or n m h = elim (Bool-cases (n == 0)) [ inl e ↦ rw e (omega arith) | inr e ↦ rw e h ]

module _ (J : TextPlatform) where
  loop_numbers :
      (fuel : ℕ) (all : List String) (size step start index : ℕ)
      → let chunks = chunk_loop J fuel all size step start index in
        map (λ c. c.index) chunks ≡ count_from (length chunks) index
  unfolding chunk_loop chunk_at
  loop_numbers zero all size step start index = refl
  loop_numbers (suc fuel) all size step start index = elim (Bool-cases (ltb start (length all))) [
    | inr e ↦ rw (chunk_loop, e) refl
    | inl e ↦ elim (Bool-cases (leb (length all) (start + size))) [
      | inl f ↦ rw (chunk_loop, e, f) refl
      | inr f ↦
          rw (chunk_loop, e, f)
            (ap (◌∷◌ index) (loop_numbers fuel all size step (start + step) (suc index)))
    ]
  ]

  module _ (text : String)
      (split_join : (n k : ℕ)
        → words J (join_words (take n (drop k (words J text)))) ≡ take n (drop k (words J text)))
      (m : ℕ) (room : 2 ≤ m) where
    chunk_within :
        (start index : ℕ)
        → (chunk_at J (words J text) (max_words (pos m)) start index).token_count ≤ m
    unfolding chunk_at estimate_tokens
    chunk_within start index =
        rw (chunk_at, estimate_tokens, split_join, length-take)
          (zero_or (min (max_words (pos m)) (length (drop start (words J text)))) m (
            tokens_within (min (max_words (pos m)) (length (drop start (words J text)))) m room
              (omega arith)))

    loop_within :
        (fuel step start index : ℕ)
        → All
            (λ c. c.token_count ≤ m)
            (chunk_loop J fuel (words J text) (max_words (pos m)) step start index)
    unfolding chunk_loop
    loop_within zero step start index = tt
    loop_within (suc fuel) step start index =
        elim (Bool-cases (ltb start (length (words J text)))) [
          | inr e ↦ rw (chunk_loop, e) tt
          | inl e ↦ elim (Bool-cases (leb (length (words J text)) (start + max_words (pos m)))) [
            | inl f ↦ rw (chunk_loop, e, f) (chunk_within start index, tt)
            | inr f ↦
                rw (chunk_loop, e, f)
                  (chunk_within start index, loop_within fuel step (start + step) (suc index))
          ]
        ]

  words_within :
      (text : String) (m o : ℕ)
      → ((n k : ℕ)
          → words J (join_words (take n (drop k (words J text)))) ≡ take n (drop k (words J text)))
      → 2 ≤ m
      → let chunks = chunk_words J (words J text) (pos m) (pos o) in
        (map (λ c. c.index) chunks ≡ count_from (length chunks) 0)
        × All (λ c. c.token_count ≤ m) chunks
  unfolding chunk_words
  words_within text m o split_join room = elim (Bool-cases (length (words J text) == 0)) [
    | inl e ↦ rw (chunk_words, e) (refl, tt)
    | inr e ↦
        rw (chunk_words, e)
          (
            loop_numbers (length (words J text)) (words J text) (max_words (pos m))
                (window_step (pos m) (pos o)) 0 0,
            loop_within text split_join m room (length (words J text)) (window_step (pos m) (pos o))
                0 0,
          )
  ]

  -- A text with a maximum of `m` tokens and an overlap of `o`, given or by default, where `o` is less
  -- than `m` and `m` is at least 2, has chunks numbered from 0, each of at most `m` tokens. It is
  -- supposed that the string methods of JavaScript take words of the text, joined by spaces, for the
  -- same words again.
  pub chunks_fit :
      (text : String) (options : ChunkOptions) (m o : ℕ)
      → IsSplit J text
      → or_else options.max_tokens default_max_tokens ≡ pos m
      → or_else options.overlap_tokens default_overlap_tokens ≡ pos o
      → o < m
      → 2 ≤ m
      → (chunks : List TextChunk) × (chunk_text J text options ≡ ok chunks)
        × (map (λ c. c.index) chunks ≡ count_from (length chunks) 0)
        × All (λ c. c.token_count ≤ m) chunks
  chunks_fit text options m o h em eo l room =
      let (numbers, fit) = words_within text m o (words-join J text h) room in
      (
        chunk_words J (words J text) (pos m) (pos o),
        accepted J text options m o em eo l,
        numbers,
        fit,
      )
