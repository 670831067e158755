-- ===== src/Store/Outbound/Claim.antt =====
-- What ClaimDueOutbound does, case by case.
use subscription_bridge.Prelude.{
  ◌+◌, suc, Bytes, Option, none, some, ◌≡◌, ◌⊎◌, inl, inr, true, least, Option-cases,
}
use subscription_bridge.Protocol.Errors.{Error, Result, ok, err, of_store, not_found, Result-cases}
use subscription_bridge.Protocol.Clock.{Time, Duration}
use subscription_bridge.Protocol.Identifier.{claim_token}
use subscription_bridge.Store.Models.{OutboundEvent}
use subscription_bridge.Store.Table
use subscription_bridge.Store.Table.Index.{IsIndexed, least-get}
use subscription_bridge.Store.World.{Memory, World, new_token}
use subscription_bridge.Store.Invariant.{event_key}
use subscription_bridge.Store.Outbound.{
  put_outbound, claim_due_outbound, claimed, is_claimable, due_before,
}

-- The world after one read of the clock or of randomness.
abbrev pub bump : World → World
bump w = record w { reads = suc w.reads }

-- The row that a claim would take.
abbrev pub next_due : Time → Memory → Option OutboundEvent
next_due t m = least (is_claimable t) due_before none (Table.values m.outbound)

abbrev pub fresh_token : World → Result Bytes
fresh_token w = claim_token (w.entropy w.reads)

abbrev pub after_claim : Bytes → Time → OutboundEvent → World → World
after_claim token until c w = record w {
  mem = put_outbound c.event_id (claimed token until c) w.mem;
  reads = suc w.reads;
}

-- Nothing is due; or a row is, and there is no randomness; or the row is claimed.
pub claim_due_outbound_cases :
    (t : Time) (lease : Duration) (w : World)
    → IsIndexed event_key w.mem.outbound
    → ((next_due t w.mem ≡ none) × (claim_due_outbound t lease w ≡ (err (of_store not_found), w)))
      ⊎ ((c : OutboundEvent) × (e : Error) × (next_due t w.mem ≡ some c)
          × (fresh_token w ≡ err e)
          × (claim_due_outbound t lease w ≡ (err e, bump w)))
      ⊎ ((c : OutboundEvent) × (token : Bytes) × (next_due t w.mem ≡ some c)
          × (Table.get w.mem.outbound c.event_id ≡ some c)
          × (is_claimable t c ≡ true)
          × (fresh_token w ≡ ok token)
          × (claim_due_outbound t lease w
              ≡ (ok (claimed token (t + lease) c), after_claim token (t + lease) c w)))
unfolding claim_due_outbound new_token
claim_due_outbound_cases t lease w indexed = elim (Option-cases (next_due t w.mem)) [
  | inl nothing ↦ inl (nothing, rw (nothing, claim_due_outbound))
  | inr (c, found) ↦
      let (row, due) =
        least-get event_key (is_claimable t) due_before w.mem.outbound c indexed found in
      elim (Result-cases (fresh_token w)) [
        | inl (token, drawn) ↦
            inr (inr (c, token, found, row, due, drawn, rw (found, drawn, row, claim_due_outbound)))
        | inr (e, failed) ↦ inr (inl (c, e, found, failed, rw (found, failed, claim_due_outbound)))
      ]
]
