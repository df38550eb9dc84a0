-- ===== src/Tokens.antt =====
-- server/tokens: the in-memory registry, the Redis store, and what they promise.
pub mod Types
pub mod Check
pub mod Registry
pub mod Redis
pub mod Tests
