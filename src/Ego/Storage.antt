-- ===== src/Ego/Storage.antt =====
-- internal/ego/storage.go: the database of usage events, settings and prices.
pub mod Engine
pub mod Rows
pub mod Prices
pub mod Open
pub mod Atomic
pub mod Rates
pub mod Exposed
pub mod Listed
pub mod Config
