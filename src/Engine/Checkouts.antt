-- ===== src/Engine/Checkouts.antt =====
-- The checkouts of internal/engine/engine.go: StartCheckout from where its token is verified,
-- ActivateCheckout and SweepCheckouts.
pub mod Binding
use subscription_bridge.Prelude.{
  ◌+◌, ◌-◌, ◌*◌, ℕ, suc, Bytes, bytes, Bool, true, false, ◌&&◌, ◌||◌, not, [], ◌++◌, Option, none,
  some, is_some, ◌==◌, bytes_eq, if◌then◌else◌, ℤ, pos, negsuc,
}
use subscription_bridge.Protocol.Errors.{
  Error, Result, ok, err, of_protocol, of_store, message, checkout_conflict, checkout_terminal,
}
use subscription_bridge.Protocol.Status.{Status, EventType}
use subscription_bridge.Protocol.Clock.{Time, second, truncate_utc, is_zero}
use subscription_bridge.Protocol.Civil.{add_calendar_months}
use subscription_bridge.Protocol.Identifier.{hex_all, subscription_prefix}
use subscription_bridge.Store.Models.{Checkout, CheckoutStatus, Family}
use subscription_bridge.Store.Models.Equality.{family_eq, checkout_status_eq}
use subscription_bridge.Store.World.{Act, pure, fail, lift, fail_if, in_tx, now, ◌>>=◌, ◌>>◌}
use subscription_bridge.Store.Checkouts.{
  get_checkout, insert_checkout, update_checkout, expire_due_checkouts,
}
use subscription_bridge.Adapters.{Adapter, CheckoutRequest, CheckoutResult, looked_up}
use subscription_bridge.Config.{Plan, resolve_plan}
use subscription_bridge.Hmac.{unix_epoch}
use subscription_bridge.Engine.Transition.{first_activation}
use subscription_bridge.Engine.Commit.{commit_change}
use subscription_bridge.Engine.Env.{Engine, adapter, new_id, no_subscription}

-- protocol.StartClaims
pub record StartClaims : Type 0 where
  pub checkout_id : Bytes
  pub plan_id : Bytes
  pub return_url : Bytes
  pub iat : ℤ
  pub exp : ℤ

pub record StartResult : Type 0 where
  pub redirect_url : Bytes
  pub resumed : Bool

-- `time.Unix(n, 0).UTC()`
abbrev pub of_unix : ℤ → Time
of_unix (pos n) = (unix_epoch + n) * second
of_unix (negsuc n) = (unix_epoch - suc n) * second

-- IsTerminalCheckout
abbrev pub is_terminal_checkout : CheckoutStatus → Bool
is_terminal_checkout CheckoutStatus.completed = true
is_terminal_checkout CheckoutStatus.expired = true
is_terminal_checkout CheckoutStatus.canceled = true
is_terminal_checkout _ = false

-- checkoutRequest
unfoldable pub checkout_request : Engine → Checkout → Plan → CheckoutRequest
checkout_request e c plan = record {
  checkout_id = c.checkout_id;
  plan_id = c.plan_id;
  return_url = c.normalized_return_url;
  idempotency_key = c.provider_idempotency_key;
  shopper_ref = or_empty c.processor_shopper_reference;
  amount_minor = plan.amount_minor;
  currency = plan.currency;
  interval = plan.interval;
  stripe_price_id = plan.stripe_price_id;
  merchant_account = plan.merchant_account;
  country_code = plan.country_code;
  public_base_url = e.config.public_url;
  expires_at = c.expires_at;
}
  where
    or_empty : Option Bytes → Bytes
    or_empty none = []
    or_empty (some s) = s

-- loadCheckout
unfoldable pub load_checkout : Bytes → Act Checkout
load_checkout id = in_tx (get_checkout id)

-- The row that the first transaction of StartCheckout inserts.
abbrev pub new_checkout : StartClaims → Family → Bytes → Option Bytes → Checkout
new_checkout claims family fingerprint shopper = record {
  checkout_id = claims.checkout_id;
  plan_id = claims.plan_id;
  normalized_return_url = claims.return_url;
  processor_family = family;
  request_fingerprint = fingerprint;
  provider_idempotency_key = bytes "sb_checkout_" ++ claims.checkout_id;
  processor_shopper_reference = shopper;
  status = CheckoutStatus.creating;
  subscription_ref = none;
  processor_checkout_id = none;
  expires_at = truncate_utc (of_unix claims.exp + 300 * second);
  created_at = 0;
  updated_at = 0;
}

-- The first transaction of StartCheckout: the checkout is found, or inserted.
unfoldable pub insert_unless_found : Checkout → Option Checkout → Act (Option Checkout)
insert_unless_found row (some c) = pure (some c)
insert_unless_found row none = do insert_checkout row; pure none

unfoldable pub find_or_insert : Checkout → Act (Option Checkout)
find_or_insert row =
    in_tx (do old ← looked_up (get_checkout row.checkout_id); insert_unless_found row old)

-- A checkout found must be bound to what the token asks for.
abbrev pub is_bound_to : Checkout → Checkout → Bool
is_bound_to c row =
    hex_all c.request_fingerprint == hex_all row.request_fingerprint
    && c.plan_id == row.plan_id
    && c.normalized_return_url == row.normalized_return_url
    && c.processor_family == row.processor_family

-- What the processor's answer changes in the checkout.
abbrev pub answered : CheckoutResult → Checkout → Checkout
answered res c = record c {
  status = CheckoutStatus.pending;
  processor_checkout_id = some res.processor_checkout_id;
  expires_at = if is_zero res.expires_at then c.expires_at else truncate_utc res.expires_at;
}

-- The second half of StartCheckout: the processor is asked, and its answer is stored. Every error of
-- the processor is returned.
unfoldable pub create_at_processor : Engine → Checkout → Plan → Family → Act StartResult
unfolding adapter
create_at_processor e c plan family = do
  ad ← adapter e family
  res ← ad.create_checkout (checkout_request e c plan)
  fail_if res.is_uncertain (message (bytes "provider timeout"))
  in_tx (do cur ← get_checkout c.checkout_id; update_checkout (answered res cur))
  pure (record { redirect_url = res.redirect_url; resumed = false })

-- The pending checkout of a second visit: where the processor gives its redirect again, nothing else
-- is done.
unfoldable pub resume : Engine → Checkout → Plan → Family → Act StartResult
unfolding adapter
resume e c plan family =
    if c.status == CheckoutStatus.pending && is_some c.processor_checkout_id
    then (do
      ad ← adapter e family
      res ← ad.create_checkout (checkout_request e c plan)
      if res.redirect_url == []
          then create_at_processor e c plan family
          else pure (record { redirect_url = res.redirect_url; resumed = true }))
    else create_at_processor e c plan family

-- The branch on whether the checkout was found.
unfoldable pub found_or_new : Engine → Checkout → Plan → Family → Option Checkout → Act StartResult
found_or_new e row plan family none = do
  c ← load_checkout row.checkout_id
  create_at_processor e c plan family
found_or_new e row plan family (some c) = do
  fail_if (not (is_bound_to c row)) (of_protocol checkout_conflict)
  fail_if (is_terminal_checkout c.status) (of_protocol checkout_terminal)
  resume e c plan family

-- A shopper reference is drawn for Adyen only.
unfoldable pub new_shopper : Family → Act (Option Bytes)
new_shopper family =
    if family == Family.adyen then (do ref ← new_id (bytes "sbr_"); pure (some ref)) else pure none

-- StartCheckout, given the claims and the payload of the token
unfoldable pub start_checkout : Engine → StartClaims → Bytes → Act StartResult
start_checkout e claims payload = do
  (plan, family) ← lift (resolve_plan e.config claims.plan_id)
  shopper ← new_shopper family
  let row = new_checkout claims family (e.os.sha256 payload) shopper
  found ← find_or_insert row
  found_or_new e row plan family found

-- ActivateCheckout
unfoldable pub activate_checkout : Engine → Bytes → Act (Unit {0})
activate_checkout e id = do t ← now; in_tx (do co ← get_checkout id; activated t co)
  where
    activated : Time → Checkout → Act (Unit {0})
    activated t co = if is_some co.subscription_ref then pure tt else (do
      ref ← new_id subscription_prefix
      commit_change e.os no_subscription
          (first_activation co ref Status.active t (add_calendar_months e.cal t (pos 1)) t none none
            none co.processor_shopper_reference)
          EventType.activated
      update_checkout
          (record co { status = CheckoutStatus.completed; subscription_ref = some ref }))

-- SweepCheckouts
unfoldable pub sweep_checkouts : Act (Unit {0})
sweep_checkouts = in_tx (do t ← now; _ ← expire_due_checkouts t; pure tt)
