-- ===== src/Engine/Events/Repeats.antt =====
-- A provider's event that comes again.
use subscription_bridge.Prelude.{suc, [], Option, none, some, ◌≡◌, refl, bytes_eq, bytes_eqb_refl}
use subscription_bridge.Protocol.Errors.{ok}
use subscription_bridge.Protocol.Identifier.{Block, claim_token}
use subscription_bridge.Store.Models.{ProcessorEvent}
use subscription_bridge.Store.Table
use subscription_bridge.Store.World.{World, settle, in_tx, now, new_token}
use subscription_bridge.Store.ProcessorEvents.{proc_key, insert_processor_event}
use subscription_bridge.Adapters.{Adapter, NormalizedEvent}
use subscription_bridge.Envelope.{Box}
use subscription_bridge.Engine.Env.{Engine}
use subscription_bridge.Engine.Events.{process_normalized, seal_sensitive, seal_with}

seal_with-plain :
    (e : Engine) (ev : NormalizedEvent) (row : ProcessorEvent) (box : Option Box) (w : World)
    → ev.sensitive_plain ≡ []
    → seal_with e ev row box w ≡ (ok row, w)
unfolding seal_with
seal_with-plain e ev row none w plain = refl
seal_with-plain e ev row (some box) w plain = rw (plain, bytes_eqb_refl []) refl

-- An event that is stored already, in whatever state, is not processed: the handler reports success
-- and changes no table. It reads the clock and a token, and asks the provider nothing. (The event has
-- no sensitive part here, and the token could be drawn.)
pub process_normalized-stored :
    (e : Engine) (ad : Adapter) (ev : NormalizedEvent) (w : World) (row : ProcessorEvent)
    (b : Block)
    → Table.get w.mem.proc_events (proc_key ev.processor_family ev.processor_event_id) ≡ some row
    → ev.sensitive_plain ≡ []
    → w.entropy (suc w.reads) ≡ some b
    → process_normalized e ad ev w ≡ (ok tt, record w { reads = suc (suc w.reads) })
unfolding process_normalized now new_token seal_sensitive insert_processor_event in_tx settle
    claim_token
process_normalized-stored e ad ev w row b stored plain drawn =
    rw (drawn, seal_with-plain e ev _ e.box _ plain, stored) refl
