-- ===== src/Tests/Delivery.antt =====
-- A cycle of the notifier, at a sample store.
use subscription_bridge.Prelude.{
  ◌+◌, ◌*◌, ◌≡◌, refl, Bytes, bytes, [], ◌∷◌, none, some, pos, inc64, least, bytes_eqb,
}
use subscription_bridge.Protocol.Errors.{ok}
use subscription_bridge.Protocol.Clock.{minute, truncate_utc}
use subscription_bridge.Protocol.Identifier.{hex_all, claim_token, stamp, format_uuid, hex}
use subscription_bridge.Store.Models.{OutboundEvent}
use subscription_bridge.Store.Table
use subscription_bridge.Store.World.{World, in_tx, settle, now, new_token, must_token}
use subscription_bridge.Store.Audits.{insert_audit}
use subscription_bridge.Store.Calls.{perform, perform_all, serve}
use subscription_bridge.Store.Outbound.{
  put_outbound, insert_outbound, claim_due_outbound, claimed, abandoned, abandon_outbound,
  is_claimable,
}
use subscription_bridge.Store.Outbound.Commit.{Finish}
use subscription_bridge.Hmac.{sign_callback, callback_header, canonical_unix, decimal, sign, unix}
use subscription_bridge.Notify.{Notifier, Reply, claim_next, run_once, retry_time}
use subscription_bridge.Notify.Delivery.{Records, run_once-Records, run_once-network}
use subscription_bridge.Notify.Verdict.{verdict}
use subscription_bridge.Tests.Samples.{callback, noon}
use subscription_bridge.Tests.Stores.{stocked, stocked-IsWf, token}

-- A notifier whose MAC is one fixed byte, and that is always answered in the same way, while
-- `meanwhile` is done.
abbrev answered : Reply → (World → World) → Notifier
answered reply meanwhile = record {
  callback_key = bytes "key";
  webhook_url = bytes "https://consumer.example/hook";
  lease = 0;
  retry_at = none;
  time_to_sign = noon;
  time_to_retry = noon;
  mac = λ key message. 171 ∷ [];
  post = λ url header body w. (reply, meanwhile w);
  jitter = λ bound. some 7;
}

abbrev taken : OutboundEvent
taken = claimed token (noon + 2 * minute) (record callback { created_at = noon })

abbrev refusing : Notifier
refusing = answered (Reply.status (pos 404)) (λ w. w)

-- The callback is abandoned while it is posted.
abbrev abandon : World → World
abandon w = (abandon_outbound (bytes "evt_1") [] [] noon w).1

abbrev unreachable : Notifier
unreachable = answered Reply.network abandon

abbrev taken_world : World
taken_world = (claim_next refusing stocked).1

take : claim_next refusing stocked ≡ (ok taken, taken_world)
unfolding claim_next claim_due_outbound least Table.values serve in_tx settle perform_all perform
    insert_outbound Table.get Table.empty Table.put Table.find Table.store put_outbound now
    new_token claim_token stamp format_uuid hex truncate_utc is_claimable inc64 bytes_eqb
take = refl

take_unreachable : claim_next unreachable stocked ≡ (ok taken, (claim_next unreachable stocked).1)
unfolding claim_next claim_due_outbound least Table.values serve in_tx settle perform_all perform
    insert_outbound Table.get Table.empty Table.put Table.find Table.store put_outbound now
    new_token claim_token stamp format_uuid hex truncate_utc is_claimable inc64 bytes_eqb
take_unreachable = refl

abbrev header : Bytes
header = bytes "t=1764403200,v1=ab"

signed : sign_callback refusing.mac refusing.callback_key noon callback.payload_body ≡ ok header
unfolding sign_callback callback_header canonical_unix decimal sign unix hex_all hex
signed = refl

taken-row : Table.get taken_world.mem.outbound (bytes "evt_1") ≡ some taken
unfolding claim_next claim_due_outbound least Table.values serve in_tx settle perform_all perform
    insert_outbound Table.get Table.empty Table.put Table.find Table.store put_outbound now
    new_token claim_token stamp format_uuid hex truncate_utc is_claimable inc64 bytes_eqb
taken-row = refl

run_once-Records_example :
    Records
      (verdict refusing taken (truncate_utc (taken_world.clock taken_world.reads)) (pos 404))
      taken
      taken
      taken_world
      (run_once refusing stocked)
run_once-Records_example =
    run_once-Records refusing stocked taken taken_world stocked-IsWf take header taken taken_world
      signed taken-row (pos 404) refl

abbrev unreachable_world : World
unreachable_world = (claim_next unreachable stocked).1

abbrev lost_world : World
lost_world = abandon unreachable_world

abbrev lost : OutboundEvent
lost = abandoned noon taken

lost-row : Table.get lost_world.mem.outbound (bytes "evt_1") ≡ some lost
unfolding claim_next claim_due_outbound least Table.values serve in_tx settle perform_all perform
    insert_outbound Table.get Table.empty Table.put Table.find Table.store put_outbound now
    new_token claim_token stamp format_uuid hex truncate_utc is_claimable inc64 bytes_eqb
    abandon_outbound must_token insert_audit
lost-row = refl

run_once-network_example :
    Records
      (Finish.retry (retry_time unreachable (pos 0)) (bytes "network"))
      taken
      lost
      lost_world
      (run_once unreachable stocked)
run_once-network_example =
    run_once-network unreachable stocked taken unreachable_world stocked-IsWf take_unreachable
      header lost lost_world signed lost-row refl
