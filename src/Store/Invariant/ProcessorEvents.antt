-- ===== src/Store/Invariant/ProcessorEvents.antt =====
-- The provider-event and audit methods leave the five tables of the invariant as they are.
use subscription_bridge.Prelude.{Bytes, inl, inr, Option, ℤ, arith}
use subscription_bridge.Protocol.Clock.{Time, Duration}
use subscription_bridge.Store.Models.{ProcessorEvent, ProcessingState, Family, Audit}
use subscription_bridge.Store.World.{World, now}
use subscription_bridge.Store.Cases.{After}
use subscription_bridge.Store.Invariant.{IsWf}
use subscription_bridge.Store.ProcessorEvents.{
  insert_processor_event, claim_processor_event, finish_processor_event, release_processor_lease,
  put_event, put_lease,
}
use subscription_bridge.Store.ProcessorEvents.Claim.{claim_processor_event_cases}
use subscription_bridge.Store.Audits.{insert_audit}

pub insert_processor_event-IsWf :
    (e : ProcessorEvent) (w : World) → IsWf w.mem → After IsWf (insert_processor_event e) w
unfolding insert_processor_event now
insert_processor_event-IsWf e w v = grind arith

pub claim_processor_event-IsWf :
    (f : Family) (i k : Bytes) (t : Time) (d : Duration) (w : World)
    → IsWf w.mem
    → After IsWf (claim_processor_event f i k t d) w
unfolding put_event put_lease
claim_processor_event-IsWf f i k t d w v = elim (claim_processor_event_cases f i k t d w) [
  | inl (_, _, same, e) ↦ rw (e, same) v
  | inr (_, _, _, _, _, _, e) ↦ rw e (record {
    checkouts = v.checkouts;
    subs = v.subs;
    outbound = v.outbound;
    actions = v.actions;
    attempts = v.attempts;
  })
]

pub finish_processor_event-IsWf :
    (f : Family) (i c : Bytes) (n : ℤ) (s : ProcessingState) (r : Option Bytes) (t : Time)
    (w : World)
    → IsWf w.mem
    → After IsWf (finish_processor_event f i c n s r t) w
unfolding finish_processor_event
finish_processor_event-IsWf f i c n s r t w v = grind arith

pub release_processor_lease-IsWf :
    (k c : Bytes) (n : ℤ) (w : World) → IsWf w.mem → After IsWf (release_processor_lease k c n) w
unfolding release_processor_lease
release_processor_lease-IsWf k c n w v = grind arith

pub insert_audit-IsWf : (a : Audit) (w : World) → IsWf w.mem → After IsWf (insert_audit a) w
unfolding insert_audit
insert_audit-IsWf a w v = grind arith
