-- ===== src/Tests/Commits.antt =====
-- A commit, and a callback's projection, with a sample platform.
use subscription_bridge.Prelude.{
  ℕ, ◌≤◌, ◌*◌, ◌≡◌, refl, Bytes, bytes, [], ◌∷◌, Option, none, some, pos, true, false, bytes_eq,
  bytes_eqb,
}
use subscription_bridge.Protocol.Errors.{ok}
use subscription_bridge.Protocol.Status.{Status, EventType, validate_event_status}
use subscription_bridge.Protocol.Clock.{Time, second, truncate_utc}
use subscription_bridge.Protocol.Identifier.{
  validate_opaque_id, validate_event_id, validate_checkout_id, validate_subscription_ref,
  has_prefix, drop, is_suffix_byte, new_opaque_id, stamp, format_uuid, hex,
}
use subscription_bridge.Protocol.Callback.{
  Platform, Callback, validate_callback, validate_snapshot, snapshot_from_callback,
  snapshot-validate, new_callback, validate_fields, validate_envelope, parse_utc, format_utc,
  ends_with_z, validate_plan_id,
}
use subscription_bridge.Store.Models.{OutboundEvent, DeliveryState}
use subscription_bridge.Store.Table
use subscription_bridge.Store.World.{World, now}
use subscription_bridge.Store.Subscriptions.{insert_subscription, put_subscription}
use subscription_bridge.Store.Outbound.{insert_outbound, put_outbound}
use subscription_bridge.Engine.Commit.{commit_change, marshal_callback, new_event_id, plan_actions}
use subscription_bridge.Engine.Commit.Stored.{commit_change-stored}
use subscription_bridge.Engine.Commit.Unplanned.{commit_change-actions}
use subscription_bridge.Tests.Samples.{start, noon}
use subscription_bridge.Tests.Transitions.{subscribed}

abbrev first : Bytes → Option Time
first [] = none
first (c ∷ s) = some c

-- A platform that writes the seconds of a time as one byte and `Z`, and callbacks as their events.
abbrev pub sample : Platform
sample = record {
  format_time = λ t. t ∷ b'Z' ∷ [];
  parse_time = first;
  is_utf8 = λ s. true;
  is_blank = λ s. false;
  sha256 = λ s. 7 ∷ [];
  marshal = λ c. ok c.event_id;
}

abbrev message : Callback
message = record {
  protocol = bytes "subscription-bridge";
  version = pos 1;
  event_id = bytes "evt_1";
  event_type = EventType.renewed;
  checkout_id = bytes "subchk_1";
  subscription_ref = bytes "sub_1";
  plan_id = bytes "basic";
  state_version = pos 2;
  status = Status.active;
  current_period_start = 5000000000 ∷ b'Z' ∷ [];
  current_period_end = 9000000000 ∷ b'Z' ∷ [];
  cancel_at_period_end = false;
  state_changed_at = 5000000000 ∷ b'Z' ∷ [];
}

message_valid : validate_callback sample message ≡ ok tt
unfolding validate_callback validate_fields validate_envelope validate_event_id validate_checkout_id
    validate_subscription_ref validate_opaque_id has_prefix drop is_suffix_byte validate_plan_id
    parse_utc ends_with_z validate_event_status bytes_eqb
message_valid = refl

snapshot-validate_example : validate_snapshot sample (snapshot_from_callback message) ≡ ok tt
snapshot-validate_example = snapshot-validate sample message message_valid

abbrev committed_world : World
committed_world =
    (commit_change sample (record subscribed { subscription_ref = [] }) subscribed EventType.renewed
      start).1

committed :
    commit_change sample
      (record subscribed { subscription_ref = [] })
      subscribed
      EventType.renewed
      start
    ≡ (ok tt, committed_world)
unfolding commit_change marshal_callback new_event_id new_opaque_id new_callback plan_actions
    insert_subscription put_subscription insert_outbound put_outbound now format_utc truncate_utc
    validate_callback validate_fields validate_envelope validate_event_id validate_checkout_id
    validate_subscription_ref validate_opaque_id has_prefix drop is_suffix_byte validate_plan_id
    parse_utc ends_with_z validate_event_status bytes_eqb stamp format_uuid hex Table.get Table.find
    Table.put Table.store Table.values Table.empty
committed = refl

commit_change-stored_example :
    (id : Bytes) × (row : OutboundEvent) × (cb : Callback) × (Table.get committed_world.mem.outbound
        id
      ≡ some row)
    × (row.subscription_ref ≡ bytes "sub_1")
    × (row.state_version ≡ pos 3)
    × (row.event_type ≡ EventType.renewed)
    × (row.delivery_state ≡ DeliveryState.pending)
    × (Table.get start.mem.outbound id ≡ none)
    × (reads : ℕ) × (0 ≤ reads)
    × (row.next_attempt_at ≡ some (truncate_utc noon))
    × (new_callback sample id EventType.renewed
          (bytes "subchk_1")
          (bytes "sub_1")
          (bytes "basic")
          (pos 3)
          Status.active
          (5 * second)
          (9 * second)
          0
          false
        ≡ ok cb)
    × (sample.marshal cb ≡ ok row.payload_body)
commit_change-stored_example =
    commit_change-stored sample (record subscribed { subscription_ref = [] }) subscribed
      EventType.renewed start committed_world committed

commit_change-actions_example :
    (commit_change sample subscribed subscribed EventType.renewed start).1.mem.actions
    ≡ start.mem.actions
commit_change-actions_example =
    commit_change-actions sample subscribed subscribed EventType.renewed start refl refl refl
