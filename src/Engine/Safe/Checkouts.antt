-- ===== src/Engine/Safe/Checkouts.antt =====
-- The checkouts' handlers are safe.
use subscription_bridge.Prelude.{
  Bytes, bytes, ◌&&◌, not, [], Option, none, some, is_some, ◌==◌, bytes_eq, int_eq,
}
use subscription_bridge.Protocol.Errors.{of_protocol, message, checkout_conflict, checkout_terminal}
use subscription_bridge.Protocol.Status.{EventType, event_eq, status_eq}
use subscription_bridge.Store.Models.{Checkout, Family, CheckoutStatus}
use subscription_bridge.Store.Models.Equality.{
  family_eq, checkout_status_eq, attempt_status_eq, delivery_eq,
}
use subscription_bridge.Store.World.{World}
use subscription_bridge.Store.Invariant.{IsWf}
use subscription_bridge.Store.Safe.{
  Leads, Any, Step-trans, pure-Leads, if-Leads, in_tx-Leads, lift-Leads, bind-Leads,
}
use subscription_bridge.Store.Safe.Methods.{now-Leads}
use subscription_bridge.Store.Safe.Rows.{HasCheckout-later, get_checkout-Leads}
use subscription_bridge.Store.Safe.Writes.{
  insert_checkout-Leads, update_checkout-Leads, expire_due_checkouts-Leads,
}
use subscription_bridge.Engine.Env.{Engine}
use subscription_bridge.Engine.Safe.Commits.{
  new_id-Leads, fail_if-Leads, looked_up-Leads, AllTame, adapter-Leads, first_commit-Leads,
}
use subscription_bridge.Config.{Plan, resolve_plan}
use subscription_bridge.Engine.Checkouts.{
  is_terminal_checkout, StartClaims, checkout_request, load_checkout, new_checkout, find_or_insert,
  insert_unless_found, is_bound_to, answered, create_at_processor, resume, found_or_new,
  new_shopper, start_checkout, activate_checkout, sweep_checkouts,
}

create_at_processor-Leads :
    (e : Engine) (c : Checkout) (plan : Plan) (family : Family) (w : World)
    → IsWf w.mem
    → AllTame e
    → Leads Any (create_at_processor e c plan family) w
unfolding create_at_processor
create_at_processor-Leads e c plan family w v tame =
    bind-Leads (adapter-Leads e family w v tame) (λ ad u s t.
      bind-Leads (t.create_checkout (checkout_request e c plan) u s.wf) (λ res x s₂ q.
        bind-Leads (fail_if-Leads res.is_uncertain (message (bytes "provider timeout")) x s₂.wf)
          (λ y z s₃ q₃.
            bind-Leads {Q = Any}
              (in_tx-Leads s₃.wf (
                bind-Leads (get_checkout-Leads c.checkout_id z s₃.wf) (λ cur z₁ s₄ h.
                  update_checkout-Leads (answered res cur) z₁ s₄.wf (record { row = h.row }))))
              (λ y₁ z₂ s₅ q₅. pure-Leads s₅.wf tt))))

resume-Leads :
    (e : Engine) (c : Checkout) (plan : Plan) (family : Family) (w : World)
    → IsWf w.mem
    → AllTame e
    → Leads Any (resume e c plan family) w
unfolding resume
resume-Leads e c plan family w v tame =
    if-Leads (c.status == CheckoutStatus.pending && is_some c.processor_checkout_id)
      (λ open_. bind-Leads (adapter-Leads e family w v tame) (λ ad u s t.
        bind-Leads (t.create_checkout (checkout_request e c plan) u s.wf) (λ res x s₂ q.
          if-Leads (res.redirect_url == [])
            (λ h. create_at_processor-Leads e c plan family x s₂.wf tame)
            (λ h. pure-Leads s₂.wf tt))))
      (λ other. create_at_processor-Leads e c plan family w v tame)

found_or_new-Leads :
    (e : Engine) (row : Checkout) (plan : Plan) (family : Family) (found : Option Checkout)
    (w : World)
    → IsWf w.mem
    → AllTame e
    → Leads Any (found_or_new e row plan family found) w
unfolding found_or_new load_checkout
found_or_new-Leads e row plan family none w v tame =
    bind-Leads (in_tx-Leads v (get_checkout-Leads row.checkout_id w v))
      (λ c u s h. create_at_processor-Leads e c plan family u s.wf tame)
found_or_new-Leads e row plan family (some c) w v tame =
    bind-Leads (fail_if-Leads (not (is_bound_to c row)) (of_protocol checkout_conflict) w v)
      (λ a u s q.
        bind-Leads
          (fail_if-Leads (is_terminal_checkout c.status) (of_protocol checkout_terminal) u s.wf)
          (λ b x t p. resume-Leads e c plan family x t.wf tame))

insert_unless_found-Leads :
    (row : Checkout) (old : Option Checkout) (w : World)
    → IsWf w.mem
    → Leads Any (insert_unless_found row old) w
unfolding insert_unless_found
insert_unless_found-Leads row (some c) w v = pure-Leads v tt
insert_unless_found-Leads row none w v =
    bind-Leads (insert_checkout-Leads row w v) (λ a x t q. pure-Leads t.wf tt)

find_or_insert-Leads : (row : Checkout) (w : World) → IsWf w.mem → Leads Any (find_or_insert row) w
unfolding find_or_insert
find_or_insert-Leads row w v = in_tx-Leads v (
    bind-Leads (looked_up-Leads (get_checkout-Leads row.checkout_id w v))
      (λ old u s h. insert_unless_found-Leads row old u s.wf))

new_shopper-Leads : (family : Family) (w : World) → IsWf w.mem → Leads Any (new_shopper family) w
unfolding new_shopper
new_shopper-Leads family w v =
    if-Leads (family == Family.adyen)
      (λ h. bind-Leads (new_id-Leads _ w v) (λ a u s q. pure-Leads s.wf tt)) (λ h. pure-Leads v tt)

pub start_checkout-Leads :
    (e : Engine) (claims : StartClaims) (payload : Bytes) (w : World)
    → IsWf w.mem
    → AllTame e
    → Leads Any (start_checkout e claims payload) w
unfolding start_checkout
start_checkout-Leads e claims payload w v tame =
    bind-Leads (lift-Leads (resolve_plan e.config claims.plan_id) w v) (λ (plan, family) u s q.
      bind-Leads (new_shopper-Leads family u s.wf) (λ shopper x s₂ q₂.
        let row = new_checkout claims family (e.os.sha256 payload) shopper in
        bind-Leads (find_or_insert-Leads row x s₂.wf)
          (λ found y s₃ q₃. found_or_new-Leads e row plan family found y s₃.wf tame)))

pub activate_checkout-Leads :
    (e : Engine) (id : Bytes) (w : World) → IsWf w.mem → Leads Any (activate_checkout e id) w
unfolding activate_checkout
activate_checkout-Leads e id w v = bind-Leads (now-Leads w v) (λ t u s q. in_tx-Leads s.wf (
    bind-Leads (get_checkout-Leads id u s.wf) (λ co x s₂ h.
      if-Leads (is_some co.subscription_ref) (λ done. pure-Leads s₂.wf tt)
        (λ fresh. bind-Leads (new_id-Leads _ x s₂.wf) (λ ref y s₃ q₃.
          bind-Leads (first_commit-Leads e _ EventType.activated y s₃.wf) (λ a z s₄ q₄.
            update_checkout-Leads _ z s₄.wf
              (record { row = (HasCheckout-later co x z (Step-trans x y z s₃ s₄) h).row })))))))

pub sweep_checkouts-Leads : (w : World) → IsWf w.mem → Leads Any sweep_checkouts w
unfolding sweep_checkouts
sweep_checkouts-Leads w v = in_tx-Leads v (
    bind-Leads (now-Leads w v) (λ t u s q.
      bind-Leads (expire_due_checkouts-Leads t u s.wf) (λ n x s₂ q₂. pure-Leads s₂.wf tt)))
