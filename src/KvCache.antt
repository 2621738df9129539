-- ===== src/KvCache.antt =====
-- src/kv_cache.c: the cache of keys and values.
pub mod Pages
pub mod Radix
