-- ===== src/Tests/Catalog.antt =====
-- Events that come again, checkouts that are there and a catalog, with a sample engine.
use subscription_bridge.Prelude.{
  inl, inr, ◌≢◌, ◌==◌, bytes, [], ◌∷◌, some, false, ◌≡◌, refl, arith, bytes_eqb, bytes_eq,
}
use subscription_bridge.Protocol.Errors.{ok, err, of_protocol, checkout_conflict}
use subscription_bridge.Protocol.Callback.{validate_plan_id}
use subscription_bridge.Store.Models.{Family}
use subscription_bridge.Store.Models.Equality.{family_eq}
use subscription_bridge.Store.ProcessorEvents.{proc_key}
use subscription_bridge.Store.Table
use subscription_bridge.Store.Table.{Table}
use subscription_bridge.Store.World.{World, empty_memory}
use subscription_bridge.Config.{
  Plan, resolve_plan, validate_plans, stripe_price_map, price_map, validate_each, validate_plan,
}
use subscription_bridge.Config.Plans.{IsSound, validate_plans-resolve, stripe_price_map-plan}
use subscription_bridge.Engine.Checkouts.{start_checkout}
use subscription_bridge.Engine.Checkouts.Binding.{start_checkout-conflict}
use subscription_bridge.Engine.Events.{process_normalized}
use subscription_bridge.Engine.Events.Repeats.{process_normalized-stored}
use subscription_bridge.Tests.Samples.{start, block}
use subscription_bridge.Tests.Commits.{sample}
use subscription_bridge.Tests.Claims.{arrival}
use subscription_bridge.Tests.Engines.{basic, settings, quiet, engine, claims, started, notice}

-- A store with a provider's event, and one with a checkout, that no theorem needs to be well-formed.
abbrev noticed : World
noticed = record start {
  mem = record empty_memory {
    proc_events = record { rows = (proc_key Family.stripe (bytes "evt_s"), arrival) ∷ [] };
  };
}

noticed-row :
    Table.get noticed.mem.proc_events (proc_key Family.stripe (bytes "evt_s")) ≡ some arrival
unfolding Table.get Table.find bytes_eqb proc_key
noticed-row = refl

process_normalized-stored_example :
    process_normalized engine quiet notice noticed ≡ (ok tt, record noticed { reads = 2 })
process_normalized-stored_example =
    process_normalized-stored engine quiet notice noticed arrival block noticed-row refl refl

abbrev begun : World
begun = record start {
  mem = record empty_memory { checkouts = record { rows = (bytes "subchk_1", started) ∷ [] } };
}

begun-row : Table.get begun.mem.checkouts (bytes "subchk_1") ≡ some started
unfolding Table.get Table.find bytes_eqb
begun-row = refl

planned : resolve_plan settings (bytes "basic") ≡ ok (basic, Family.stripe)
unfolding resolve_plan Table.get Table.find bytes_eqb
planned = refl

not_adyen : (Family.stripe == Family.adyen) ≡ false
not_adyen = refl

other_address : started.normalized_return_url ≢ claims.return_url
other_address h = absurd (ground arith)

start_checkout-conflict_example :
    start_checkout engine claims [] begun ≡ (err (of_protocol checkout_conflict), begun)
start_checkout-conflict_example =
    start_checkout-conflict engine claims [] begun basic Family.stripe started planned not_adyen
      begun-row (inr (inr (inl other_address)))

basic-row : Table.get settings.catalog.plans (bytes "basic") ≡ some basic
unfolding Table.get Table.find bytes_eqb
basic-row = refl

catalog_valid : validate_plans sample settings ≡ ok tt
unfolding validate_plans validate_each validate_plan validate_plan_id bytes_eqb
catalog_valid = refl

validate_plans-resolve_example :
    (plan : Plan) × (family : Family) × (resolve_plan settings (bytes "basic") ≡ ok (plan, family))
    × (plan.processor ≡ family)
    × IsSound family plan
validate_plans-resolve_example =
    validate_plans-resolve sample settings (bytes "basic") basic catalog_valid basic-row

price-row : Table.get (stripe_price_map settings) (bytes "price_1") ≡ some (bytes "basic")
unfolding stripe_price_map price_map Table.get Table.find Table.put Table.store Table.empty
    bytes_eqb
price-row = refl

stripe_price_map-plan_example :
    (plan : Plan) × (Table.get settings.catalog.plans (bytes "basic") ≡ some plan)
    × (plan.stripe_price_id ≡ bytes "price_1")
unfolding Table.find
stripe_price_map-plan_example =
    stripe_price_map-plan settings (bytes "price_1") (bytes "basic") (refl, tt) price-row
