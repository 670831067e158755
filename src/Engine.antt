-- ===== src/Engine.antt =====
-- internal/engine: the transition function, and what the engine commits.
pub mod Transition
pub mod Commit
pub mod Refusal
pub mod Env
pub mod Checkouts
pub mod Payments
pub mod Adyen
pub mod Stripe
pub mod Events
pub mod Operators
pub mod Safe
