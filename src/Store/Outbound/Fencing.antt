-- ===== src/Store/Outbound/Fencing.antt =====
-- What a claim of a callback row guards against: a second claim while the lease lasts, and a commit
-- by who does not hold the claim any more.
use subscription_bridge.Prelude.{
  ◌+◌, ◌≤◌, ◌<◌, ltb, Bytes, true, false, Option, none, some, ◌≡◌, ◌≢◌, refl, inl, inr, arith,
  inc64, inc64_ne, int_eq, int_eqb_iff, bytes_eqb_refl,
}
use subscription_bridge.Protocol.Errors.{ok, err, of_store, not_owned}
use subscription_bridge.Protocol.Clock.{Time, Duration}
use subscription_bridge.Store.Models.{OutboundEvent}
use subscription_bridge.Store.Models.Equality.{delivery_eq}
use subscription_bridge.Store.Table
use subscription_bridge.Store.Table.{get-put}
use subscription_bridge.Store.Table.Index.{least-min}
use subscription_bridge.Store.World.{World}
use subscription_bridge.Store.Invariant.{IsWf}
use subscription_bridge.Store.Outbound.{
  put_outbound, claim_due_outbound, complete_outbound, retry_outbound, dead_letter_outbound,
  claimed, owns_outbound, is_claimable, due_before, update_owned,
}
use subscription_bridge.Store.Outbound.Claim.{claim_due_outbound_cases, after_claim, next_due}
use subscription_bridge.Store.Outbound.Owned.{update_owned_lost}

-- The number by which due rows are compared.
abbrev pub due_at : OutboundEvent → Time
due_at x = at x.next_attempt_at
  where
    at : Option Time → Time
    at none = 0
    at (some n) = n

-- What a claim that succeeds has done.
pub record ClaimOf (t : Time) (lease : Duration) (w : World) (e : OutboundEvent) (w' : World)
    : Type 0 where
  pub row : OutboundEvent
  pub token : Bytes
  pub chosen : next_due t w.mem ≡ some row
  pub stored : Table.get w.mem.outbound row.event_id ≡ some row
  pub due : is_claimable t row ≡ true
  pub returned : claimed token (t + lease) row ≡ e
  pub left : after_claim token (t + lease) row w ≡ w'

module _ (t : Time) (lease : Duration) (w : World) (e : OutboundEvent) (w' : World) (v : IsWf w.mem)
    (claim : claim_due_outbound t lease w ≡ (ok e, w')) where
  pub claim_of : ClaimOf t lease w e w'
  claim_of = elim (claim_due_outbound_cases t lease w v.outbound.indexed) [
    | inl (_, f) ↦ absurd (ground arith)
    | inr (inl (_, _, _, _, f)) ↦ absurd (ground arith)
    | inr (inr (c, token, chosen, row, due, _, f)) ↦ record {
      row = c;
      token = token;
      chosen = chosen;
      stored = row;
      due = due;
      returned = ground arith;
      left = ground arith;
    }
  ]

  -- The stored row is the one that the claim returns.
  pub claim-stored : Table.get w'.mem.outbound e.event_id ≡ some e
  unfolding put_outbound
  claim-stored =
      let c = claim_of in
      rw
        (
          ← c.left,
          ← c.returned,
          get-put w.mem.outbound c.row.event_id c.row.event_id (claimed c.token (t + lease) c.row),
          bytes_eqb_refl c.row.event_id,
        )
        refl

  claim-fence : e.fencing_token ≡ inc64 claim_of.row.fencing_token
  claim-fence = rw (← claim_of.returned) refl

  -- Whoever held the row before the claim holds a fence that is no longer the row's.
  stale-owns : (token : Bytes) → owns_outbound e token claim_of.row.fencing_token ≡ false
  stale-owns token = ground (
    arith,
    claim-fence,
    inc64_ne claim_of.row.fencing_token,
    int_eqb_iff e.fencing_token claim_of.row.fencing_token,
  )

  stale-update :
      (token : Bytes) (f : OutboundEvent → OutboundEvent)
      → update_owned e.event_id token claim_of.row.fencing_token f w'
        ≡ (err (of_store not_owned), w')
  stale-update token f =
      update_owned_lost e.event_id token claim_of.row.fencing_token f w' e claim-stored
        (stale-owns token)

  -- A claim in a well-formed store fences off every earlier holder of the row: with the fence that the
  -- row had before, and any token, completion, retry and dead-lettering all answer `not_owned` and
  -- change nothing.
  pub claim-stale :
      (token : Bytes) (at : Time) (class : Bytes)
      → (old : OutboundEvent) × (Table.get w.mem.outbound e.event_id ≡ some old)
        × (complete_outbound e.event_id token old.fencing_token at w'
            ≡ (err (of_store not_owned), w'))
        × (retry_outbound e.event_id token old.fencing_token at class w'
            ≡ (err (of_store not_owned), w'))
        × (dead_letter_outbound e.event_id token old.fencing_token at class w'
            ≡ (err (of_store not_owned), w'))
  unfolding complete_outbound retry_outbound dead_letter_outbound
  claim-stale token at class = (
    claim_of.row,
    rw (← claim_of.returned) claim_of.stored,
    stale-update token _,
    stale-update token _,
    stale-update token _,
  )

  -- While the lease lasts the claimed row is not claimable, so a second claim takes another row.
  claim-busy : (t' : Time) → t' < t + lease → is_claimable t' e ≡ false
  unfolding is_claimable
  claim-busy t' early = rw (← claim_of.returned) (ground arith)

  -- A claim in a well-formed store, and a second one from the store that it leaves, before the
  -- first lease ends: they return different callbacks.
  pub claim-exclusive :
      (t' : Time) (lease' : Duration) (e' : OutboundEvent) (w'' : World)
      → IsWf w'.mem
      → claim_due_outbound t' lease' w' ≡ (ok e', w'')
      → t' < t + lease
      → e'.event_id ≢ e.event_id
  claim-exclusive t' lease' e' w'' v' again early same =
      elim (claim_due_outbound_cases t' lease' w' v'.outbound.indexed) [
        | inl (_, f) ↦ absurd (ground arith)
        | inr (inl (_, _, _, _, f)) ↦ absurd (ground arith)
        | inr (inr (c, token, chosen, row, due, _, f)) ↦
            absurd (ground (arith, claim-busy t' early, claim-stored, row))
      ]

  due_before_agree :
      (a b : OutboundEvent)
      → is_claimable t a ≡ true
      → is_claimable t b ≡ true
      → due_before a b ≡ ltb (due_at a) (due_at b)
  unfolding is_claimable
  due_before_agree a b ha hb = grind arith

  -- A claim in a well-formed store returns a row that was due and under no live lease, with a fresh
  -- fence and a lease that ends after the given time; and no claimable row of the store was due
  -- earlier.
  pub claim-earliest :
      (old : OutboundEvent) × (Table.get w.mem.outbound e.event_id ≡ some old)
      × (is_claimable t old ≡ true)
      × (e.lease_until ≡ some (t + lease))
      × (e.fencing_token ≡ inc64 old.fencing_token)
      × ((k : Bytes) (x : OutboundEvent)
          → Table.get w.mem.outbound k ≡ some x
          → is_claimable t x ≡ true
          → due_at old ≤ due_at x)
  claim-earliest = (
    claim_of.row,
    rw (← claim_of.returned) claim_of.stored,
    claim_of.due,
    rw (← claim_of.returned) refl,
    claim-fence,
    least-min (is_claimable t) due_before due_at w.mem.outbound claim_of.row due_before_agree
        claim_of.chosen,
  )
