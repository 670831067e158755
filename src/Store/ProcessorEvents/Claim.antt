-- ===== src/Store/ProcessorEvents/Claim.antt =====
-- What ClaimProcessorEvent does, case by case.
use subscription_bridge.Prelude.{
  ◌+◌, suc, Bytes, false, some, ◌≡◌, refl, ◌⊎◌, inl, inr, Option-cases, Bool-cases, inc64,
}
use subscription_bridge.Protocol.Errors.{
  Error, ok, err, of_store, not_found, conflict, Result-cases,
}
use subscription_bridge.Protocol.Clock.{Time, Duration}
use subscription_bridge.Store.Models.{ProcessorEvent, ProcessingLease, Family}
use subscription_bridge.Store.Table
use subscription_bridge.Store.World.{Memory, World, new_token}
use subscription_bridge.Store.Outbound.Claim.{bump, fresh_token}
use subscription_bridge.Store.ProcessorEvents.{
  put_event, put_lease, proc_key, claim_processor_event, claimed_event, claimed_lease, is_finished,
  is_held_by_other, or_zero_lease,
}

-- The lease row under a key, or the zero lease.
abbrev pub lease_at : Memory → Bytes → ProcessingLease
lease_at m key = or_zero_lease (Table.get m.leases key)

abbrev pub after_claim : Family → Bytes → Bytes → Bytes → Time → ProcessorEvent → World → World
after_claim family id key token until e w = record w {
  mem =
      put_event (proc_key family id)
        (claimed_event token until (inc64 (lease_at w.mem key).fencing_token) e)
        (put_lease key (claimed_lease key e.processing_action_id token until (lease_at w.mem key))
          w.mem);
  reads = suc w.reads;
}

-- The claim fails and the store stays as it is; or the event is unfinished, no other event holds the
-- lease, and both are claimed under one token and one fence.
pub claim_processor_event_cases :
    (family : Family) (id key : Bytes) (t : Time) (lease : Duration) (w : World)
    → ((e : Error) × (u : World) × (u.mem ≡ w.mem)
        × (claim_processor_event family id key t lease w ≡ (err e, u)))
      ⊎ ((e : ProcessorEvent) × (token : Bytes) × (Table.get w.mem.proc_events (proc_key family id)
            ≡ some e)
          × (is_finished e.processing_state ≡ false)
          × (is_held_by_other (lease_at w.mem key) e.processing_action_id t ≡ false)
          × (fresh_token w ≡ ok token)
          × (claim_processor_event family id key t lease w ≡ (
            ok (
              claimed_event token (t + lease) (inc64 (lease_at w.mem key).fencing_token) e,
              claimed_lease key e.processing_action_id token (t + lease) (lease_at w.mem key),
            ),
            after_claim family id key token (t + lease) e w,
          )))
unfolding claim_processor_event new_token
claim_processor_event_cases family id key t lease w =
    elim (Option-cases (Table.get w.mem.proc_events (proc_key family id))) [
      | inl absent ↦ inl (of_store not_found, w, refl, rw (absent, claim_processor_event))
      | inr (e, row) ↦ elim (Bool-cases (is_finished e.processing_state)) [
        | inl done ↦ inl (of_store conflict, w, refl, rw (row, done, claim_processor_event))
        | inr open_ ↦
            elim (Bool-cases (is_held_by_other (lease_at w.mem key) e.processing_action_id t)) [
              | inl held ↦
                  inl (of_store conflict, w, refl, rw (row, open_, held, claim_processor_event))
              | inr free ↦ elim (Result-cases (fresh_token w)) [
                | inr (x, failed) ↦
                    inl (x, bump w, refl, rw (row, open_, free, failed, claim_processor_event))
                | inl (token, drawn) ↦ inr (
                  e,
                  token,
                  row,
                  open_,
                  free,
                  drawn,
                  rw (row, open_, free, drawn, claim_processor_event),
                )
              ]
            ]
      ]
    ]
