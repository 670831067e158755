-- ===== src/Engine/Checkouts/Binding.antt =====
-- A start token for a checkout that is there.
use subscription_bridge.Prelude.{
  ◌≢◌, ◌⊎◌, bytes_eqb_iff, arith, Bytes, true, false, none, some, ◌≡◌, refl, ◌==◌, bytes_eq,
}
use subscription_bridge.Protocol.Identifier.{hex_all}
use subscription_bridge.Protocol.Errors.{ok, err, of_protocol, checkout_conflict, checkout_terminal}
use subscription_bridge.Store.Models.{Checkout, Family}
use subscription_bridge.Store.Models.Equality.{family_eq, family_eqb_iff}
use subscription_bridge.Store.Table
use subscription_bridge.Store.World.{World, settle, in_tx}
use subscription_bridge.Store.Checkouts.{get_checkout}
use subscription_bridge.Config.{Plan, resolve_plan}
use subscription_bridge.Engine.Env.{Engine}
use subscription_bridge.Engine.Checkouts.{
  StartClaims, start_checkout, new_checkout, new_shopper, find_or_insert, insert_unless_found,
  found_or_new, is_bound_to, is_terminal_checkout,
}

module _ (e : Engine) (claims : StartClaims) (payload : Bytes) (w : World) (plan : Plan)
    (family : Family) (c : Checkout)
    (planned : resolve_plan e.config claims.plan_id ≡ ok (plan, family))
    (other : (family == Family.adyen) ≡ false)
    (there : Table.get w.mem.checkouts claims.checkout_id ≡ some c) where
  start_checkout-unbound :
      is_bound_to c (new_checkout claims family (e.os.sha256 payload) none) ≡ false
      → start_checkout e claims payload w ≡ (err (of_protocol checkout_conflict), w)
  unfolding start_checkout new_shopper find_or_insert insert_unless_found found_or_new get_checkout
      in_tx settle
  start_checkout-unbound differs = rw (planned, other, there, differs) refl

  -- A checkout that has ended is refused, in the same way.
  pub start_checkout-terminal :
      is_bound_to c (new_checkout claims family (e.os.sha256 payload) none) ≡ true
      → is_terminal_checkout c.status ≡ true
      → start_checkout e claims payload w ≡ (err (of_protocol checkout_terminal), w)
  unfolding start_checkout new_shopper find_or_insert insert_unless_found found_or_new get_checkout
      in_tx settle
  start_checkout-terminal bound ended = rw (planned, other, there, bound, ended) refl

  not_bound :
      (hex_all c.request_fingerprint ≢ hex_all (e.os.sha256 payload))
        ⊎ (c.plan_id ≢ claims.plan_id)
        ⊎ (c.normalized_return_url ≢ claims.return_url)
        ⊎ (c.processor_family ≢ family)
      → is_bound_to c (new_checkout claims family (e.os.sha256 payload) none) ≡ false
  not_bound differs = ground (
    arith,
    bytes_eqb_iff (hex_all c.request_fingerprint) (hex_all (e.os.sha256 payload)),
    bytes_eqb_iff c.plan_id claims.plan_id,
    bytes_eqb_iff c.normalized_return_url claims.return_url,
    family_eqb_iff c.processor_family family,
  )

  -- A checkout whose request had another digest, or that has another plan, another return address or
  -- another processor than the token, is refused: the processor is asked nothing, and nothing is
  -- changed. (The plan is not Adyen's here, for which a shopper reference is drawn first.)
  pub start_checkout-conflict :
      (hex_all c.request_fingerprint ≢ hex_all (e.os.sha256 payload))
        ⊎ (c.plan_id ≢ claims.plan_id)
        ⊎ (c.normalized_return_url ≢ claims.return_url)
        ⊎ (c.processor_family ≢ family)
      → start_checkout e claims payload w ≡ (err (of_protocol checkout_conflict), w)
  start_checkout-conflict differs = start_checkout-unbound (not_bound differs)
