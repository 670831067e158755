-- ===== src/Store/Subscriptions.antt =====
-- The subscription methods of `memTx` (internal/store/memory.go).
use subscription_bridge.Prelude.{
  Bytes, Bool, false, ◌&&◌, List, Option, none, some, any, find?, is_some, ◌==◌, bytes_eq, ℤ,
  limited,
}
use subscription_bridge.Protocol.Errors.{of_store, not_found, conflict}
use subscription_bridge.Store.Models.{Subscription, ChargeAttempt, Family}
use subscription_bridge.Store.Models.Equality.{family_eq}
use subscription_bridge.Store.Table
use subscription_bridge.Store.World.{
  Memory, Act, pure, gets, or_fail, fail_if, modify, now, ◌>>=◌, ◌>>◌,
}

unfoldable pub put_subscription : Bytes → Subscription → Memory → Memory
put_subscription ref s m = record m { subs = Table.put m.subs ref s }

-- `p != nil && *p == s`
abbrev pub points_to : Option Bytes → Bytes → Bool
points_to none s = false
points_to (some p) s = p == s

-- The test of the loop of InsertSubscription.
abbrev pub same_checkout : Subscription → Subscription → Bool
same_checkout s e = e.checkout_id == s.checkout_id

-- InsertSubscription
unfoldable pub insert_subscription : Subscription → Act (Unit {0})
unfolding put_subscription
insert_subscription s = do
  old ← gets (λ m. Table.get m.subs s.subscription_ref)
  fail_if (is_some old) (of_store conflict)
  rows ← gets (λ m. Table.values m.subs)
  fail_if (any (same_checkout s) rows) (of_store conflict)
  t ← now
  modify (put_subscription s.subscription_ref (record s { created_at = t; updated_at = t }))

-- GetSubscription, and GetSubscriptionForUpdate, which calls it
unfoldable pub get_subscription : Bytes → Act Subscription
get_subscription ref = do
  found ← gets (λ m. Table.get m.subs ref)
  or_fail found (of_store not_found)

-- GetSubscriptionByCheckout
unfoldable pub get_subscription_by_checkout : Bytes → Act Subscription
get_subscription_by_checkout id = do
  rows ← gets (λ m. Table.values m.subs)
  or_fail (find? (λ (s : Subscription). s.checkout_id == id) rows) (of_store not_found)

-- GetSubscriptionByProcessor
unfoldable pub get_subscription_by_processor : Family → Bytes → Act Subscription
get_subscription_by_processor family id = do
  rows ← gets (λ m. Table.values m.subs)
  or_fail
      (find?
        (λ (s : Subscription).
          s.processor_family == family && points_to s.processor_subscription_id id)
        rows)
      (of_store not_found)

-- GetSubscriptionByInitialPayment
unfoldable pub get_subscription_by_initial_payment : Family → Bytes → Act Subscription
get_subscription_by_initial_payment family id = do
  rows ← gets (λ m. Table.values m.subs)
  or_fail
      (find?
        (λ (s : Subscription).
          s.processor_family == family && points_to s.processor_initial_payment_id id)
        rows)
      (of_store not_found)

-- GetSubscriptionByChargePayment
unfoldable pub get_subscription_by_charge_payment : Bytes → Act Subscription
unfolding get_subscription
get_subscription_by_charge_payment id = do
  rows ← gets (λ m. Table.values m.attempts)
  a ←
      or_fail (find? (λ (a : ChargeAttempt). points_to a.processor_payment_id id) rows)
        (of_store not_found)
  get_subscription a.subscription_ref

-- UpdateSubscription
unfoldable pub update_subscription : Subscription → Act (Unit {0})
unfolding put_subscription
update_subscription s = do
  old ← gets (λ m. Table.get m.subs s.subscription_ref)
  _ ← or_fail old (of_store not_found)
  t ← now
  modify (put_subscription s.subscription_ref (record s { updated_at = t }))

-- ListSubscriptions
unfoldable pub list_subscriptions : ℤ → Act (List Subscription)
list_subscriptions limit = do rows ← gets (λ m. Table.values m.subs); pure (limited limit rows)
