-- ===== src/Relayer.antt =====
-- The relayer's own request handling: its limiter, its proof cache.
pub mod RateLimit
pub mod ProofCache
