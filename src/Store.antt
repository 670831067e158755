-- ===== src/Store.antt =====
-- internal/store: the rows of internal/store/models.go and the in-memory store of
-- internal/store/memory.go, whose transactions are the interface `Tx` of internal/store/store.go.
pub mod Models
pub mod Table
pub mod World
pub mod Checkouts
pub mod Subscriptions
pub mod Audits
pub mod Outbound
pub mod ProcessorEvents
pub mod Actions
pub mod Attempts
pub mod Cases
pub mod Invariant
pub mod Calls
pub mod Keeps
pub mod Safe
