-- ===== src/Ego.antt =====
-- internal/ego: the analytics of token usage.
pub mod Pricing
pub mod Events
pub mod Storage
pub mod Queries
pub mod Handler
pub mod Worker
pub mod Counted
