-- ===== src/Cache.antt =====
-- apps/api/src/cache: the in-process LRU cache.
pub mod Lru
