-- ===== src/Tests.antt =====
-- Runs on concrete inputs, and each headline theorem at one.
mod Fixtures
mod Pricing
mod Events
mod Storage
mod Worker
mod Queries
mod Handler
mod Models
mod Pages
mod Lifecycle
mod Process
