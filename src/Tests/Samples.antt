-- ===== src/Tests/Samples.antt =====
-- The rows that the examples use.
use subscription_bridge.Prelude.{◌*◌, bytes, none, some, pos}
use subscription_bridge.Protocol.Status.{EventType}
use subscription_bridge.Protocol.Clock.{Time, second}
use subscription_bridge.Protocol.Identifier.{Block}
use subscription_bridge.Store.Models.{OutboundEvent, DeliveryState}
use subscription_bridge.Store.World.{World, empty_memory}

abbrev pub block : Block
block = record {
  b0 = 1;
  b1 = 2;
  b2 = 3;
  b3 = 4;
  b4 = 5;
  b5 = 6;
  b6 = 7;
  b7 = 8;
  b8 = 9;
  b9 = 10;
  b10 = 11;
  b11 = 12;
  b12 = 13;
  b13 = 14;
  b14 = 15;
  b15 = 255;
}

-- A time after the Unix epoch, in whole seconds.
abbrev pub noon : Time
noon = 63900000000 * second

-- A clock that stands at noon, and randomness that never fails.
abbrev pub start : World
start = record { mem = empty_memory; clock = λ _. noon; entropy = λ _. some block; reads = 0 }

abbrev pub callback : OutboundEvent
callback = record {
  event_id = bytes "evt_1";
  event_type = EventType.activated;
  subscription_ref = bytes "sub_1";
  checkout_id = bytes "subchk_1";
  state_version = pos 1;
  payload_body = bytes "{}";
  delivery_state = DeliveryState.pending;
  attempt_count = pos 0;
  next_attempt_at = some 5;
  delivered_at = none;
  dead_lettered_at = none;
  abandoned_at = none;
  last_error_class = none;
  claim_token = none;
  fencing_token = pos 0;
  lease_until = none;
  created_at = 0;
}

abbrev pub later_callback : OutboundEvent
later_callback = record callback {
  event_id = bytes "evt_2";
  state_version = pos 2;
  next_attempt_at = some 6;
}
