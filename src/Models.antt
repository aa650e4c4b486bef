-- ===== src/Models.antt =====
-- internal/models: the types of the dashboard.
pub mod Quota
