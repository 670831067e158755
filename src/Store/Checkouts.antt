-- ===== src/Store/Checkouts.antt =====
-- The checkout methods of `memTx` (internal/store/memory.go).
use subscription_bridge.Prelude.{
  ℕ, Bytes, Bool, true, false, ◌&&◌, not, is_some, any, keep, length, ◌==◌, bytes_eq, if◌then◌else◌,
}
use subscription_bridge.Protocol.Errors.{of_store, not_found, conflict}
use subscription_bridge.Protocol.Clock.{Time, is_after}
use subscription_bridge.Store.Models.{Checkout, CheckoutStatus}
use subscription_bridge.Store.Table
use subscription_bridge.Store.World.{
  Memory, Act, pure, gets, or_fail, fail_if, modify, now, ◌>>=◌, ◌>>◌,
}

unfoldable pub put_checkout : Bytes → Checkout → Memory → Memory
put_checkout id c m = record m { checkouts = Table.put m.checkouts id c }

-- The test of the loop of InsertCheckout.
abbrev pub same_idempotency : Checkout → Checkout → Bool
same_idempotency c e = e.provider_idempotency_key == c.provider_idempotency_key

-- InsertCheckout
unfoldable pub insert_checkout : Checkout → Act (Unit {0})
unfolding put_checkout
insert_checkout c = do
  old ← gets (λ m. Table.get m.checkouts c.checkout_id)
  fail_if (is_some old) (of_store conflict)
  rows ← gets (λ m. Table.values m.checkouts)
  fail_if (any (same_idempotency c) rows) (of_store conflict)
  t ← now
  modify (put_checkout c.checkout_id (record c { created_at = t; updated_at = t }))

-- GetCheckout, and GetCheckoutForUpdate, which calls it
unfoldable pub get_checkout : Bytes → Act Checkout
get_checkout id = do
  found ← gets (λ m. Table.get m.checkouts id)
  or_fail found (of_store not_found)

-- UpdateCheckout
unfoldable pub update_checkout : Checkout → Act (Unit {0})
unfolding put_checkout
update_checkout c = do
  old ← gets (λ m. Table.get m.checkouts c.checkout_id)
  _ ← or_fail old (of_store not_found)
  t ← now
  modify (put_checkout c.checkout_id (record c { updated_at = t }))

-- The test of the loop of ExpireDueCheckouts.
abbrev pub is_due : Time → Checkout → Bool
is_due t c = is_open c.status && not (is_after c.expires_at t)
  where
    is_open : CheckoutStatus → Bool
    is_open CheckoutStatus.creating = true
    is_open CheckoutStatus.pending = true
    is_open _ = false

abbrev pub expired_at : Time → Checkout → Checkout
expired_at t c =
    if is_due t c then record c { status = CheckoutStatus.expired; updated_at = t } else c

-- ExpireDueCheckouts: it returns the number of rows changed.
unfoldable pub expire_due_checkouts : Time → Act ℕ
expire_due_checkouts t = do
  rows ← gets (λ m. Table.values m.checkouts)
  modify (λ m. record m { checkouts = Table.update_all (expired_at t) m.checkouts })
  pure (length (keep (is_due t) rows))
