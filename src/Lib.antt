-- ===== src/Lib.antt =====
-- Subscription Bridge: a bridge between consumer applications and payment processors. A consumer
-- starts a checkout; the processor reports subscriptions; the bridge keeps one state per
-- subscription, with a version, and delivers each change to the consumer as a signed callback.
--
-- The parts, and how they interact. The store (internal/store) keeps checkouts, subscriptions,
-- outbound callbacks, provider events with their leases, scheduled actions, charge attempts and
-- audits; work on callbacks, events and actions is claimed under a lease with a random token and a
-- fence that grows with each claim. The engine (internal/engine) starts checkouts at a processor,
-- takes the events that a processor reports, turns an observation into a decision, and commits it:
-- the subscription's next version, its callback and its scheduled actions in one transaction. The
-- scheduler (internal/scheduler) expires subscriptions and charges Adyen renewals: an attempt is
-- stored before it is sent, and its outcome is stored by who still holds the claim. The notifier
-- (internal/notify) claims due callbacks, posts the stored bytes with a signature (internal/hmac)
-- and records the outcome. Plans come from internal/config, sensitive values are sealed by
-- internal/envelope, and the processors stand behind the interface of internal/adapters/adapter.go.
--
-- The files:
-- - Prelude: shared notation; Boolean tests, byte strings, lists, and int64 numbers (inc64 wraps).
-- - Protocol: internal/protocol. Errors (errors.go), Status (const.go, and ValidateEventStatus of
--   types.go), Identifier (identifiers.go, ids.go), Clock (TruncateUTC of time.go), Civil
--   (AddCalendarMonths of time.go), Callback (NewCallback and Callback.Validate of types.go, ActionKey
--   of ids.go).
-- - Store: internal/store/memory.go over the rows of models.go. Table is a Go map whose order of
--   iteration is that of its rows, which no theorem fixes. World holds the maps, the clock and the
--   randomness; a method is an action on it that returns a value or an error, a panic among the
--   errors; in_tx is InTx, which restores the maps after an error and not after a panic. Checkouts,
--   Subscriptions, Outbound, ProcessorEvents, Actions, Attempts and Audits have one function for each
--   method. Invariant is the well-formedness of a store; Calls is a transaction as a list of calls,
--   and a history as a list of transactions, one after another as the store's mutex orders them. Safe
--   has a rule for each way to build an action, and a lemma for each method, about what every user of
--   the store may rely on.
-- - Adapters: adapter.go of internal/adapters. A call of a processor is an action on the world, since
--   other requests are served while it is awaited. Config: internal/config/config.go. Envelope:
--   internal/envelope/envelope.go.
-- - Engine: Transition is transition.go, Refusal is refusal.go; the others are engine.go. Commit is
--   commitChange; Env is the Engine and its small helpers; Checkouts is StartCheckout,
--   ActivateCheckout and SweepCheckouts; Events is IngestAndProcess and processNormalized, with Stripe
--   for applyStripe and Adyen for the three Adyen transitions; Payments is stored payment methods and
--   refusals; Operators is Snapshot, CancelAtPeriodEnd, ExpireNow, BlockAutomaticCharging,
--   ResolveAttempt and ReplayLatest. Safe holds each to the rules of Store.Safe.
-- - Scheduler: internal/scheduler/scheduler.go. Charges is ensurePrepared and the sending of submit,
--   Outcomes is what submit stores, Overtaken is about two submissions of one charge,
--   and Prepared about what runRenew prepares.
-- - Hmac: CallbackHeader and SignCallback of header.go. Notify: one cycle of notify.go, whose exchange
--   is an action on the world.
-- - System: requests to the handlers, rounds and cycles, in any order, each with its own environment.
-- - Tests: sample rows and a sample engine, and the theorems at work on them.
--
-- Numbers: a time is the count of nanoseconds since Go's zero time; fences, versions and counts are
-- int64 and wrap at the largest value. Sums of times and durations are not bounded, as no time in
-- range comes near the end of Go's. Fuel: that of decimal numbers, n + 1 digits for n, which are more
-- than n has; and that of the loops that carry and borrow years, as many rounds as the month is far
-- from 1, each of which brings it twelve nearer. Lists of rows are walked by structural recursion.
--
-- Not modelled: the PostgreSQL store, the processors' own adapters, HTTP, reading the environment and
-- YAML, start tokens (StartCheckout begins with verified claims), logs, tickers and the commands.
-- SHA-256, HMAC, AES-GCM, JSON, RFC 3339 text, the calendar, the HTTP exchange and randomness are
-- parameters.
pub mod Prelude
pub mod Protocol
pub mod Store
pub mod Adapters
pub mod Config
pub mod Envelope
pub mod Engine
pub mod Scheduler
pub mod Hmac
pub mod Notify
pub mod System
pub mod Tests
