-- ===== src/Tests.antt =====
-- Sample rows and stores, and the theorems at work on them.
pub mod Samples
pub mod Stores
pub mod Claims
pub mod Transitions
mod Identifiers
mod Delivery
pub mod Commits
pub mod Engines
mod System
mod Scheduler
mod Catalog
