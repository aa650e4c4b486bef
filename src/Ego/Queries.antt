-- ===== src/Ego/Queries.antt =====
-- The SELECT queries of internal/ego/storage.go: what is read of the events, and how it is grouped,
-- ordered and rated.
pub mod Window
pub mod Groups
pub mod Figures
pub mod Summary
pub mod Timeline
pub mod Rankings
pub mod Interrupted
pub mod Ranges
