-- ===== src/Ai/Chunk/Coverage.antt =====
-- No word of a text is lost by its chunking (ingestion/chunk.ts).
use expertos.Common.{
  ℕ, zero, suc, ◌+◌, ◌≤◌, ◌<◌, ◌≡◌, refl, inl, inr, true, false, List, String, In, leb, ltb, ◌==◌,
  length, take, drop, or_else, arith, Bool-cases,
}
use expertos.Database.{ok}
use expertos.Ai.Chunk.{
  ℤ, pos, TextPlatform, words, TextChunk, ChunkOptions, join_words, max_words, window_step,
  default_max_tokens, default_overlap_tokens, chunk_at, chunk_loop, chunk_words, chunk_text,
}

module _ (J : TextPlatform) where
  -- A chunk whose window has the word at place `i`.
  pub record IsCovered (all : List String) (size i : ℕ) (chunks : List TextChunk) : Type 0 where
    pub chunk : TextChunk
    pub start : ℕ
    pub listed : In chunk chunks
    pub begins : start ≤ i
    pub ends : i < start + size
    pub content : chunk.content ≡ join_words (take size (drop start all))

  loop-IsCovered :
      (fuel : ℕ) (all : List String) (size step start index i : ℕ)
      → length all ≤ start + fuel
      → 0 < step
      → step ≤ size
      → start ≤ i
      → i < length all
      → IsCovered all size i (chunk_loop J fuel all size step start index)
  unfolding chunk_loop chunk_at
  loop-IsCovered zero all size step start index i f s t b l = absurd (omega arith)
  loop-IsCovered (suc fuel) all size step start index i f s t b l =
      let inside : ltb start (length all) ≡ true = ground arith in
      elim (Bool-cases (ltb i (start + size))) [
        | inl e ↦ rw inside (record {
          chunk = chunk_at J all size start index;
          start = start;
          listed = inl refl;
          begins = b;
          ends = ground arith;
          content = refl;
        })
        | inr e ↦
            let more : leb (length all) (start + size) ≡ false = ground arith in
            let c =
              loop-IsCovered fuel all size step (start + step) (suc index) i (omega arith) s t
                (ground arith) l in
            rw (inside, more)
              (record {
                chunk = c.chunk;
                start = c.start;
                listed = inr c.listed;
                begins = c.begins;
                ends = c.ends;
                content = c.content;
              })
      ]

  -- The step is never longer than the window.
  step_le :
      (max_tokens overlap_tokens : ℤ) → window_step max_tokens overlap_tokens ≤ max_words max_tokens
  step_le m o = omega arith

  chunk_words-IsCovered :
      (all : List String) (max_tokens overlap_tokens : ℤ) (i : ℕ)
      → i < length all
      → IsCovered all (max_words max_tokens) i (chunk_words J all max_tokens overlap_tokens)
  unfolding chunk_words
  chunk_words-IsCovered all m o i l =
      let some_words : (length all == 0) ≡ false = ground arith in
      rw (chunk_words, some_words)
        (loop-IsCovered (length all) all (max_words m) (window_step m o) 0 0 i (omega arith)
          (omega arith) (step_le m o) (omega arith) l)

  -- Options with 0 ≤ overlap < maximum are accepted.
  pub accepted :
      (text : String) (options : ChunkOptions) (m o : ℕ)
      → or_else options.max_tokens default_max_tokens ≡ pos m
      → or_else options.overlap_tokens default_overlap_tokens ≡ pos o
      → o < m
      → chunk_text J text options ≡ ok (chunk_words J (words J text) (pos m) (pos o))
  unfolding chunk_text
  accepted text options m o em eo l =
      let some_room : (m == 0) ≡ false = ground arith in
      let in_room : leb m o ≡ false = ground arith in
      rw (chunk_text, em, eo, some_room, in_room) refl

  -- A text with a maximum of `m` tokens and an overlap of `o`, given or by default, where `o` is less
  -- than `m`, has chunks, and each of its words stands in the window of some chunk, whose content is
  -- the words of the window.
  pub chunks_cover :
      (text : String) (options : ChunkOptions) (m o i : ℕ)
      → or_else options.max_tokens default_max_tokens ≡ pos m
      → or_else options.overlap_tokens default_overlap_tokens ≡ pos o
      → o < m
      → i < length (words J text)
      → (chunks : List TextChunk) × (chunk_text J text options ≡ ok chunks)
        × IsCovered (words J text) (max_words (pos m)) i chunks
  chunks_cover text options m o i em eo l inside = (
    chunk_words J (words J text) (pos m) (pos o),
    accepted text options m o em eo l,
    chunk_words-IsCovered (words J text) (pos m) (pos o) i inside,
  )
