-- ===== src/Engine/Safe.antt =====
-- Every handler of the engine keeps the store's invariant and lets its tables grow, whatever the
-- provider answers and whatever else is done meanwhile.
pub mod Commits
use subscription_bridge.Prelude.{Option, none, some}
pub mod Checkouts
pub mod Payments
pub mod Adyen
pub mod Stripe
pub mod Events
pub mod Operators
