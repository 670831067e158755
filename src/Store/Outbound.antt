-- ===== src/Store/Outbound.antt =====
-- The outbound-callback methods of `memTx` (internal/store/memory.go): a callback row is claimed under
-- a lease with a fresh token and a larger fence, and is finished only by who still holds both.
pub mod Claim
pub mod Owned
pub mod Commit
pub mod Fencing
pub mod Evolution
use subscription_bridge.Prelude.{
  ◌+◌, Bytes, bytes, Bool, true, false, ◌&&◌, ◌||◌, not, List, [], Option, none, some, any, ◌∷◌,
  keep, least, sort, is_some, limited, ◌==◌, bytes_eq, int_eq, if◌then◌else◌, ℤ, pos, ltb_ℤ, inc64,
}
use subscription_bridge.Protocol.Errors.{of_store, not_found, conflict, not_owned}
use subscription_bridge.Protocol.Status.{EventType}
use subscription_bridge.Protocol.Clock.{Time, Duration, is_after, is_before}
use subscription_bridge.Store.Models.{OutboundEvent, DeliveryState, Audit}
use subscription_bridge.Store.Models.Equality.{delivery_eq}
use subscription_bridge.Store.Table
use subscription_bridge.Store.Audits.{insert_audit}
use subscription_bridge.Store.Subscriptions.{points_to}
use subscription_bridge.Store.World.{
  Memory, Act, pure, gets, or_fail, fail_if, modify, now, new_token, must_token, ◌>>=◌, ◌>>◌,
}

unfoldable pub put_outbound : Bytes → OutboundEvent → Memory → Memory
put_outbound id e m = record m { outbound = Table.put m.outbound id e }

-- The test of the loop of InsertOutbound.
abbrev pub same_version : OutboundEvent → OutboundEvent → Bool
same_version e o = o.subscription_ref == e.subscription_ref && o.state_version == e.state_version

-- InsertOutbound
unfoldable pub insert_outbound : OutboundEvent → Act (Unit {0})
unfolding put_outbound
insert_outbound e = do
  old ← gets (λ m. Table.get m.outbound e.event_id)
  fail_if (is_some old) (of_store conflict)
  rows ← gets (λ m. Table.values m.outbound)
  fail_if (any (same_version e) rows) (of_store conflict)
  t ← now
  modify (put_outbound e.event_id (record e { created_at = t }))

-- GetOutbound
unfoldable pub get_outbound : Bytes → Act OutboundEvent
get_outbound id = do found ← gets (λ m. Table.get m.outbound id); or_fail found (of_store not_found)

-- ListOutbound
unfoldable pub list_outbound : DeliveryState → ℤ → Act (List OutboundEvent)
list_outbound state limit = do
  rows ← gets (λ m. Table.values m.outbound)
  let out =
      keep (λ (e : OutboundEvent). state == DeliveryState.other [] || e.delivery_state == state)
        rows
  pure (limited limit (sort (λ a b. is_before a.created_at b.created_at) out))

-- `lease != nil && lease.After(now)`
abbrev pub is_live : Option Time → Time → Bool
is_live none t = false
is_live (some until) t = is_after until t

-- `next == nil || next.After(now)`
abbrev pub not_yet : Option Time → Time → Bool
not_yet none t = true
not_yet (some next) t = is_after next t

-- The two tests of the loop of ClaimDueOutbound.
unfoldable pub is_claimable : Time → OutboundEvent → Bool
is_claimable t e =
    not (not (e.delivery_state == DeliveryState.pending) || not_yet e.next_attempt_at t)
    && not (is_live e.lease_until t)

-- `a.NextAttemptAt.Before(*b.NextAttemptAt)`, where the loop has seen that neither is nil.
abbrev pub due_before : OutboundEvent → OutboundEvent → Bool
due_before a b = before a.next_attempt_at b.next_attempt_at
  where
    before : Option Time → Option Time → Bool
    before (some x) (some y) = is_before x y
    before _ _ = false

-- The row that a map holds at a missing key.
abbrev zero_outbound : OutboundEvent
zero_outbound = record {
  event_id = [];
  event_type = EventType.other [];
  subscription_ref = [];
  checkout_id = [];
  state_version = pos 0;
  payload_body = [];
  delivery_state = DeliveryState.other [];
  attempt_count = pos 0;
  next_attempt_at = none;
  delivered_at = none;
  dead_lettered_at = none;
  abandoned_at = none;
  last_error_class = none;
  claim_token = none;
  fencing_token = pos 0;
  lease_until = none;
  created_at = 0;
}

abbrev or_zero : Option OutboundEvent → OutboundEvent
or_zero none = zero_outbound
or_zero (some e) = e

abbrev pub claimed : Bytes → Time → OutboundEvent → OutboundEvent
claimed token until e = record e {
  claim_token = some token;
  fencing_token = inc64 e.fencing_token;
  lease_until = some until;
}

-- ClaimDueOutbound
unfoldable pub claim_due_outbound : Time → Duration → Act OutboundEvent
unfolding put_outbound
claim_due_outbound t lease = do
  rows ← gets (λ m. Table.values m.outbound)
  chosen ← or_fail (least (is_claimable t) due_before none rows) (of_store not_found)
  token ← new_token
  row ← gets (λ m. Table.get m.outbound chosen.event_id)
  let e = claimed token (t + lease) (or_zero row)
  modify (put_outbound e.event_id e)
  pure e

-- The test of ownedOutbound.
abbrev pub owns_outbound : OutboundEvent → Bytes → ℤ → Bool
owns_outbound e token fence =
    e.delivery_state == DeliveryState.pending
    && points_to e.claim_token token
    && e.fencing_token == fence

-- ownedOutbound
unfoldable pub owned_outbound : Bytes → Bytes → ℤ → Act OutboundEvent
owned_outbound id token fence = do
  found ← gets (λ m. Table.get m.outbound id)
  e ← or_fail found (of_store not_found)
  fail_if (not (owns_outbound e token fence)) (of_store not_owned)
  pure e

-- The rest of the three methods that finish a claim: the owned row is changed and written back.
unfoldable pub update_owned : Bytes → Bytes → ℤ → (OutboundEvent → OutboundEvent) → Act (Unit {0})
unfolding put_outbound owned_outbound
update_owned id token fence f = do e ← owned_outbound id token fence; modify (put_outbound id (f e))

abbrev pub completed : Time → OutboundEvent → OutboundEvent
completed t e = record e {
  delivery_state = DeliveryState.delivered;
  delivered_at = some t;
  next_attempt_at = none;
  claim_token = none;
  lease_until = none;
  attempt_count = inc64 e.attempt_count;
}

-- CompleteOutbound
unfoldable pub complete_outbound : Bytes → Bytes → ℤ → Time → Act (Unit {0})
complete_outbound id token fence t = update_owned id token fence (completed t)

abbrev pub retried : Time → Bytes → OutboundEvent → OutboundEvent
retried next class e = record e {
  next_attempt_at = some next;
  last_error_class = some class;
  claim_token = none;
  lease_until = none;
  attempt_count = inc64 e.attempt_count;
}

-- RetryOutbound
unfoldable pub retry_outbound : Bytes → Bytes → ℤ → Time → Bytes → Act (Unit {0})
retry_outbound id token fence next class = update_owned id token fence (retried next class)

abbrev pub dead_lettered : Time → Bytes → OutboundEvent → OutboundEvent
dead_lettered t class e = record e {
  delivery_state = DeliveryState.dead_lettered;
  dead_lettered_at = some t;
  next_attempt_at = none;
  claim_token = none;
  lease_until = none;
  last_error_class = some class;
  attempt_count = inc64 e.attempt_count;
}

-- DeadLetterOutbound
unfoldable pub dead_letter_outbound : Bytes → Bytes → ℤ → Time → Bytes → Act (Unit {0})
dead_letter_outbound id token fence t class = update_owned id token fence (dead_lettered t class)

event_audit : Bytes → Bytes → Bytes → Bytes → Bytes → Audit
event_audit audit_id action id actor reason = record {
  audit_id = audit_id;
  action = action;
  target_type = bytes "event";
  target_id = id;
  actor = actor;
  reason = reason;
  metadata = [];
}

abbrev pub abandoned : Time → OutboundEvent → OutboundEvent
abandoned t e = record e {
  delivery_state = DeliveryState.abandoned;
  abandoned_at = some t;
  next_attempt_at = none;
  claim_token = none;
  lease_until = none;
}

-- AbandonOutbound
unfoldable pub abandon_outbound : Bytes → Bytes → Bytes → Time → Act (Unit {0})
unfolding put_outbound event_audit
abandon_outbound id reason actor t = do
  found ← gets (λ m. Table.get m.outbound id)
  e ← or_fail found (of_store not_found)
  fail_if (not (e.delivery_state == DeliveryState.pending)) (of_store conflict)
  modify (put_outbound id (abandoned t e))
  audit_id ← must_token
  insert_audit (event_audit audit_id (bytes "abandon-event") id actor reason)

abbrev pub requeued : Time → OutboundEvent → OutboundEvent
requeued t e = record e {
  delivery_state = DeliveryState.pending;
  next_attempt_at = some t;
  dead_lettered_at = none;
  abandoned_at = none;
  delivered_at = none;
  claim_token = none;
  lease_until = none;
}

-- The state from which RequeueOutbound takes a row.
abbrev pub is_requeueable : OutboundEvent → Bool
is_requeueable e =
    e.delivery_state == DeliveryState.dead_lettered || e.delivery_state == DeliveryState.abandoned

-- RequeueOutbound
unfoldable pub requeue_outbound : Bytes → Bytes → Bytes → Time → Act (Unit {0})
unfolding put_outbound event_audit
requeue_outbound id reason actor t = do
  found ← gets (λ m. Table.get m.outbound id)
  e ← or_fail found (of_store not_found)
  fail_if (not (is_requeueable e)) (of_store conflict)
  modify (put_outbound id (requeued t e))
  audit_id ← must_token
  insert_audit (event_audit audit_id (bytes "requeue-event") id actor reason)

-- The loop of LatestOutbound: `none` while nothing is found.
latest : Bytes → Option OutboundEvent → List OutboundEvent → Option OutboundEvent
latest ref best [] = best
latest ref best (e ∷ es) = latest ref (if e.subscription_ref == ref then newer e best else best) es
  where
    newer : OutboundEvent → Option OutboundEvent → Option OutboundEvent
    newer x none = some x
    newer x (some b) = if ltb_ℤ b.state_version x.state_version then some x else some b

-- LatestOutbound
unfoldable pub latest_outbound : Bytes → Act OutboundEvent
unfolding latest
latest_outbound ref = do
  rows ← gets (λ m. Table.values m.outbound)
  or_fail (latest ref none rows) (of_store not_found)
