-- ===== src/Common.antt =====
-- internal/common beside the protocol: the cache.
pub mod Cache
