-- ===== src/Tests/Claims.antt =====
-- Claims of scheduled actions and of provider events, at sample rows.
use subscription_bridge.Prelude.{
  ◌+◌, ◌<◌, ◌≡◌, ◌≢◌, refl, Bytes, bytes, [], ◌∷◌, List, Option, none, some, pos, true, inc64,
  bytes_eqb,
}
use subscription_bridge.Protocol.Errors.{ok, err, of_store, not_owned, conflict}
use subscription_bridge.Protocol.Clock.{Time, Duration, truncate_utc}
use subscription_bridge.Protocol.Identifier.{claim_token, stamp, format_uuid, hex}
use subscription_bridge.Store.Models.{
  ScheduledAction, ActionType, ActionStatus, ProcessorEvent, ProcessingState, ProcessingLease,
  Family,
}
use subscription_bridge.Store.Table
use subscription_bridge.Store.World.{World, in_tx, settle, now, new_token}
use subscription_bridge.Store.Invariant.{IsWf}
use subscription_bridge.Store.Calls.{Call, perform, perform_all, serve}
use subscription_bridge.Store.Calls.Invariant.{serve-IsWf, empty_memory-IsWf}
use subscription_bridge.Store.Calls.ClosedActions.{serve-Stands}
use subscription_bridge.Store.Actions.Closed.{Stands, stands}
use subscription_bridge.Store.Actions.{
  put_action, insert_action, claim_action, finish_action, claimed_action, is_takeable,
  charge_allowed,
}
use subscription_bridge.Store.Actions.Fencing.{claim_action-exclusive}
use subscription_bridge.Store.ProcessorEvents.{
  put_event, put_lease, proc_key, insert_processor_event, get_processor_event,
  claim_processor_event, claimed_event, claimed_lease, zero_lease, release_processor_lease,
}
use subscription_bridge.Store.ProcessorEvents.Claim.{lease_at}
use subscription_bridge.Store.ProcessorEvents.Fencing.{claim_processor_event-exclusive}
use subscription_bridge.Tests.Samples.{start, noon}
use subscription_bridge.Tests.Stores.{token}

abbrev expiry : ScheduledAction
expiry = record {
  action_id = bytes "a1";
  action_key = bytes "act_1";
  subscription_ref = bytes "sub_1";
  action_type = ActionType.expire;
  target_at = 5;
  due_at = 5;
  status = ActionStatus.pending;
  claim_token = none;
  fencing_token = pos 0;
  lease_until = none;
  last_error_class = none;
}

abbrev done_action : ScheduledAction
done_action = record expiry {
  action_id = bytes "a2";
  action_key = bytes "act_2";
  status = ActionStatus.completed;
}

abbrev plans : List (List Call)
plans = (Call.insert_action expiry ∷ Call.insert_action done_action ∷ []) ∷ []

abbrev planned : World
planned = serve plans start

planned-IsWf : IsWf planned.mem
planned-IsWf = serve-IsWf plans start ((tt, (tt, tt)), tt) empty_memory-IsWf

done-Stands : Stands (bytes "a2") done_action planned.mem
unfolding Table.values serve in_tx settle perform_all perform Table.get Table.empty Table.put
    Table.find Table.store now new_token claim_token stamp format_uuid hex truncate_utc inc64
    bytes_eqb insert_action put_action
done-Stands = stands refl

serve-Stands_example :
    Stands
      (bytes "a2")
      done_action
      (serve
        ((Call.claim_action (bytes "a2") noon 1000 ∷ [])
          ∷ (Call.cancel_actions (bytes "sub_1") [] ∷ [])
          ∷ [])
        planned).mem
serve-Stands_example =
    serve-Stands (bytes "a2") done_action
      ((Call.claim_action (bytes "a2") noon 1000 ∷ [])
        ∷ (Call.cancel_actions (bytes "sub_1") [] ∷ [])
        ∷ [])
      planned refl ((tt, tt), ((tt, tt), tt)) planned-IsWf done-Stands

abbrev running : ScheduledAction
running = claimed_action token (noon + 1000) expiry

abbrev running_world : World
running_world = (claim_action (bytes "a1") noon 1000 planned).1

action_claim : claim_action (bytes "a1") noon 1000 planned ≡ (ok running, running_world)
unfolding Table.values serve in_tx settle perform_all perform Table.get Table.empty Table.put
    Table.find Table.store now new_token claim_token stamp format_uuid hex truncate_utc inc64
    bytes_eqb insert_action put_action claim_action
action_claim = refl

claim_action-exclusive_example :
    (old : ScheduledAction) × (Table.get planned.mem.actions (bytes "a1") ≡ some old)
    × (is_takeable old noon ≡ true)
    × (charge_allowed planned.mem old ≡ true)
    × (Table.get running_world.mem.actions (bytes "a1") ≡ some running)
    × (running.status ≡ ActionStatus.running)
    × ((t' : Time) (lease' : Duration)
        → t' < noon + 1000
        → claim_action (bytes "a1") t' lease' running_world
          ≡ (err (of_store not_owned), running_world))
    × ((token : Bytes) (s : ActionStatus) (due : Option Time) (class : Option Bytes)
        → finish_action (bytes "a1") token old.fencing_token s due class running_world
          ≡ (err (of_store not_owned), running_world))
claim_action-exclusive_example =
    claim_action-exclusive (bytes "a1") noon 1000 planned running running_world planned-IsWf
      action_claim

abbrev pub arrival : ProcessorEvent
arrival = record {
  processor_family = Family.stripe;
  processor_event_id = bytes "evt_s";
  processing_action_id = bytes "p1";
  provider_event_type = [];
  payload_hash = [];
  normalized_fields = [];
  sensitive_ciphertext = [];
  sensitive_nonce = [];
  sensitive_key_version = none;
  processing_state = ProcessingState.pending;
  subscription_ref = none;
  received_at = noon;
  processed_at = none;
  claim_token = none;
  fencing_token = pos 0;
  lease_until = none;
  last_error_class = none;
}

abbrev arrived : World
arrived = serve ((Call.insert_processor_event arrival ∷ []) ∷ []) start

abbrev claimed_arrival : ProcessorEvent
claimed_arrival = claimed_event token (noon + 1000) (pos 1) arrival

abbrev arrival_lease : ProcessingLease
arrival_lease = claimed_lease (bytes "key") (bytes "p1") token (noon + 1000) zero_lease

abbrev busy_world : World
busy_world = (claim_processor_event Family.stripe (bytes "evt_s") (bytes "key") noon 1000 arrived).1

event_claim :
    claim_processor_event Family.stripe (bytes "evt_s") (bytes "key") noon 1000 arrived
    ≡ (ok (claimed_arrival, arrival_lease), busy_world)
unfolding Table.values serve in_tx settle perform_all perform Table.get Table.empty Table.put
    Table.find Table.store now new_token claim_token stamp format_uuid hex truncate_utc inc64
    bytes_eqb insert_processor_event put_event put_lease proc_key get_processor_event
    claim_processor_event
event_claim = refl

claim_processor_event-exclusive_example :
    (Table.get busy_world.mem.proc_events (proc_key Family.stripe (bytes "evt_s"))
      ≡ some claimed_arrival)
    × (Table.get busy_world.mem.leases (bytes "key") ≡ some arrival_lease)
    × (claimed_arrival.processing_state ≡ ProcessingState.running)
    × (arrival_lease.claim_token ≡ claimed_arrival.claim_token)
    × (arrival_lease.fencing_token ≡ claimed_arrival.fencing_token)
    × ((family' : Family) (id' : Bytes) (x : ProcessorEvent) (t' : Time) (lease' : Duration)
        → Table.get busy_world.mem.proc_events (proc_key family' id') ≡ some x
        → x.processing_action_id ≢ claimed_arrival.processing_action_id
        → t' < noon + 1000
        → claim_processor_event family' id' (bytes "key") t' lease' busy_world
          ≡ (err (of_store conflict), busy_world))
    × ((token : Bytes)
        → release_processor_lease
            (bytes "key")
            token
            (lease_at arrived.mem (bytes "key")).fencing_token
            busy_world
          ≡ (err (of_store not_owned), busy_world))
claim_processor_event-exclusive_example =
    claim_processor_event-exclusive Family.stripe (bytes "evt_s") (bytes "key") noon 1000 arrived
      claimed_arrival arrival_lease busy_world event_claim
