-- ===== src/Store/ProcessorEvents.antt =====
-- The provider-event and processing-lease methods of `memTx` (internal/store/memory.go).
pub mod Claim
pub mod Fencing
use subscription_bridge.Prelude.{
  ◌+◌, Bytes, bytes, Bool, true, false, ◌&&◌, not, ◌∷◌, ◌++◌, [], Option, none, some, is_some, ◌==◌,
  bytes_eq, int_eq, nat_eq, if◌then◌else◌, ℤ, pos, inc64,
}
use subscription_bridge.Protocol.Errors.{of_store, not_found, conflict, not_owned}
use subscription_bridge.Protocol.Clock.{Time, Duration, is_zero}
use subscription_bridge.Store.Models.{
  ProcessorEvent, ProcessingLease, ProcessingState, LeaseStatus, Family,
}
use subscription_bridge.Store.Models.Equality.{processing_eq, lease_status_eq}
use subscription_bridge.Store.Table
use subscription_bridge.Store.Subscriptions.{points_to}
use subscription_bridge.Store.Outbound.{is_live}
use subscription_bridge.Store.World.{
  Memory, Act, pure, gets, or_fail, fail_if, modify, now, new_token, ◌>>=◌, ◌>>◌,
}

abbrev pub family_text : Family → Bytes
family_text Family.stripe = bytes "stripe"
family_text Family.adyen = bytes "adyen"
family_text (Family.other s) = s

-- procKey
unfoldable pub proc_key : Family → Bytes → Bytes
proc_key family id = family_text family ++ 0 ∷ id

unfoldable pub put_event : Bytes → ProcessorEvent → Memory → Memory
put_event key e m = record m { proc_events = Table.put m.proc_events key e }

unfoldable pub put_lease : Bytes → ProcessingLease → Memory → Memory
put_lease key l m = record m { leases = Table.put m.leases key l }

-- InsertProcessorEvent: whether the event was new.
unfoldable pub insert_processor_event : ProcessorEvent → Act Bool
unfolding put_event
insert_processor_event e = do
  let key = proc_key e.processor_family e.processor_event_id
  old ← gets (λ m. Table.get m.proc_events key)
  if is_some old then pure false else do
    t ← if is_zero e.received_at then now else pure e.received_at
    modify (put_event key (record e { received_at = t }))
    pure true

-- GetProcessorEvent
unfoldable pub get_processor_event : Family → Bytes → Act ProcessorEvent
get_processor_event family id = do
  found ← gets (λ m. Table.get m.proc_events (proc_key family id))
  or_fail found (of_store not_found)

-- The states in which ClaimProcessorEvent refuses an event.
abbrev pub is_finished : ProcessingState → Bool
is_finished ProcessingState.processed = true
is_finished ProcessingState.quarantined = true
is_finished ProcessingState.manual_review = true
is_finished _ = false

-- The lease that a map holds at a missing key.
abbrev pub zero_lease : ProcessingLease
zero_lease = record {
  processing_key = [];
  status = LeaseStatus.other [];
  active_action_id = none;
  claim_token = none;
  fencing_token = pos 0;
  lease_until = none;
}

abbrev pub or_zero_lease : Option ProcessingLease → ProcessingLease
or_zero_lease none = zero_lease
or_zero_lease (some l) = l

-- Another event holds the lease, and it still runs. (The zero lease does not run, so the test `ok`
-- of the source adds nothing.)
abbrev pub is_held_by_other : ProcessingLease → Bytes → Time → Bool
is_held_by_other l action_id t =
    l.status == LeaseStatus.running
    && is_live l.lease_until t
    && not (points_to l.active_action_id action_id)

abbrev pub claimed_lease : Bytes → Bytes → Bytes → Time → ProcessingLease → ProcessingLease
claimed_lease key action_id token until l = record {
  processing_key = key;
  status = LeaseStatus.running;
  active_action_id = some action_id;
  claim_token = some token;
  fencing_token = inc64 l.fencing_token;
  lease_until = some until;
}

abbrev pub claimed_event : Bytes → Time → ℤ → ProcessorEvent → ProcessorEvent
claimed_event token until fence e = record e {
  processing_state = ProcessingState.running;
  claim_token = some token;
  fencing_token = fence;
  lease_until = some until;
}

-- ClaimProcessorEvent
unfoldable pub claim_processor_event :
    Family → Bytes → Bytes → Time → Duration → Act (ProcessorEvent × ProcessingLease)
unfolding put_event put_lease get_processor_event
claim_processor_event family id key t lease = do
  e ← get_processor_event family id
  fail_if (is_finished e.processing_state) (of_store conflict)
  old ← gets (λ m. Table.get m.leases key)
  fail_if (is_held_by_other (or_zero_lease old) e.processing_action_id t) (of_store conflict)
  token ← new_token
  let row = claimed_lease key e.processing_action_id token (t + lease) (or_zero_lease old)
  let e' = claimed_event token (t + lease) row.fencing_token e
  modify (put_lease key row)
  modify (put_event (proc_key family id) e')
  pure (e', row)

abbrev pub owns_event : ProcessorEvent → Bytes → ℤ → Bool
owns_event e token fence =
    e.processing_state == ProcessingState.running
    && points_to e.claim_token token
    && e.fencing_token == fence

-- FinishProcessorEvent
unfoldable pub finish_processor_event :
    Family → Bytes → Bytes → ℤ → ProcessingState → Option Bytes → Time → Act (Unit {0})
unfolding put_event get_processor_event
finish_processor_event family id token fence state ref t = do
  e ← get_processor_event family id
  fail_if (not (owns_event e token fence)) (of_store not_owned)
  modify (
      put_event (proc_key family id) (record e {
        processing_state = state;
        claim_token = none;
        lease_until = none;
        subscription_ref = ref;
        processed_at = if state == ProcessingState.processed then some t else e.processed_at;
      }))

-- ReleaseProcessorLease
unfoldable pub release_processor_lease : Bytes → Bytes → ℤ → Act (Unit {0})
unfolding put_lease
release_processor_lease key token fence = do
  found ← gets (λ m. Table.get m.leases key)
  l ← or_fail found (of_store not_found)
  fail_if (not (points_to l.claim_token token && l.fencing_token == fence)) (of_store not_owned)
  modify (
      put_lease key (record l {
        status = LeaseStatus.idle;
        active_action_id = none;
        claim_token = none;
        lease_until = none;
      }))
