-- ===== src/Ai.antt =====
-- packages/ai/src: the pure parts of the answering pipeline. Chunk splits a document
-- (ingestion/chunk.ts).
pub mod Chunk
pub mod Citations
pub mod Recommendation
mod Tests
