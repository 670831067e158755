-- ===== src/Store/ProcessorEvents/Fencing.antt =====
-- What a claim of a provider event guards against: two events of one processing key at once.
use subscription_bridge.Prelude.{
  ◌+◌, ◌<◌, ◌&&◌, Bool-cases, Bytes, Bool, true, false, some, ◌≡◌, ◌≢◌, refl, inl, inr, arith, ℤ,
  inc64, inc64_ne, int_eq, int_eqb_iff, bytes_eqb_refl, bytes_eqb_ne, ◌==◌,
}
use subscription_bridge.Protocol.Errors.{ok, err, of_store, conflict, not_owned}
use subscription_bridge.Protocol.Clock.{Time, Duration}
use subscription_bridge.Store.Models.{ProcessorEvent, ProcessingLease, ProcessingState, Family}
use subscription_bridge.Store.Models.Equality.{processing_eq, lease_status_eq}
use subscription_bridge.Store.Subscriptions.{points_to}
use subscription_bridge.Store.Table
use subscription_bridge.Store.Table.{get-put}
use subscription_bridge.Store.World.{World}
use subscription_bridge.Store.ProcessorEvents.{
  put_event, put_lease, proc_key, claim_processor_event, get_processor_event, claimed_event,
  claimed_lease, is_finished, is_held_by_other, release_processor_lease,
}
use subscription_bridge.Store.ProcessorEvents.Claim.{
  claim_processor_event_cases, lease_at, after_claim,
}

abbrev pub owns_lease : ProcessingLease → Bytes → ℤ → Bool
owns_lease l token fence = points_to l.claim_token token && l.fencing_token == fence

release_lost :
    (key token : Bytes) (fence : ℤ) (w : World) (l : ProcessingLease)
    → Table.get w.mem.leases key ≡ some l
    → owns_lease l token fence ≡ false
    → release_processor_lease key token fence w ≡ (err (of_store not_owned), w)
unfolding release_processor_lease
release_lost key token fence w l row lost = rw (row, lost, release_processor_lease) refl

-- An event is not claimed while another one holds the lease.
claim_refused :
    (family : Family) (id key : Bytes) (t : Time) (lease : Duration) (w : World)
    (e : ProcessorEvent)
    → Table.get w.mem.proc_events (proc_key family id) ≡ some e
    → is_held_by_other (lease_at w.mem key) e.processing_action_id t ≡ true
    → claim_processor_event family id key t lease w ≡ (err (of_store conflict), w)
unfolding claim_processor_event get_processor_event
claim_refused family id key t lease w e row held =
    elim (Bool-cases (is_finished e.processing_state)) [
      | inl done ↦ rw (row, done, claim_processor_event) refl
      | inr open_ ↦ rw (row, open_, held, claim_processor_event) refl
    ]

-- What a claim that succeeds has done.
pub record ClaimOf (family : Family) (id key : Bytes) (t : Time) (lease : Duration) (w : World)
    (e : ProcessorEvent) (l : ProcessingLease) (w' : World) : Type 0 where
  pub old : ProcessorEvent
  pub token : Bytes
  pub stored : Table.get w.mem.proc_events (proc_key family id) ≡ some old
  pub open_ : is_finished old.processing_state ≡ false
  pub free : is_held_by_other (lease_at w.mem key) old.processing_action_id t ≡ false
  pub event : e ≡ claimed_event token (t + lease) (inc64 (lease_at w.mem key).fencing_token) old
  pub held : l ≡ claimed_lease key old.processing_action_id token (t + lease) (lease_at w.mem key)
  pub left : w' ≡ after_claim family id key token (t + lease) old w

module _ (family : Family) (id key : Bytes) (t : Time) (lease : Duration) (w : World)
    (e : ProcessorEvent) (l : ProcessingLease) (w' : World)
    (claim : claim_processor_event family id key t lease w ≡ (ok (e, l), w')) where
  pub claim_of : ClaimOf family id key t lease w e l w'
  claim_of = elim (claim_processor_event_cases family id key t lease w) [
    | inl (_, _, _, f) ↦ absurd (ground arith)
    | inr (old, token, row, open_, free, _, f) ↦ record {
      old = old;
      token = token;
      stored = row;
      open_ = open_;
      free = free;
      event = ground arith;
      held = ground arith;
      left = ground arith;
    }
  ]

  pub lease-stored : Table.get w'.mem.leases key ≡ some l
  unfolding put_event put_lease
  lease-stored =
      let c = claim_of in
      rw
        (
          c.left,
          c.held,
          get-put w.mem.leases key key (
              claimed_lease key c.old.processing_action_id c.token (t + lease)
                (lease_at w.mem key)),
          bytes_eqb_refl key,
        )
        refl

  pub event-stored : Table.get w'.mem.proc_events (proc_key family id) ≡ some e
  unfolding put_event put_lease
  event-stored =
      let c = claim_of in
      rw
        (
          c.left,
          c.event,
          get-put w.mem.proc_events (proc_key family id) (proc_key family id)
              (claimed_event c.token (t + lease) (inc64 (lease_at w.mem key).fencing_token) c.old),
          bytes_eqb_refl (proc_key family id),
        )
        refl

  held_by_other :
      (action_id : Bytes) (t' : Time)
      → action_id ≢ e.processing_action_id
      → t' < t + lease
      → is_held_by_other (lease_at w'.mem key) action_id t' ≡ true
  held_by_other action_id t' other early =
      rw (lease-stored, claim_of.held)
        (ground (
          arith,
          bytes_eqb_ne claim_of.old.processing_action_id action_id
              λ same. other (rw claim_of.event (rw same refl)),
        ))

  stale-lease : (token : Bytes) → owns_lease l token (lease_at w.mem key).fencing_token ≡ false
  stale-lease token = rw claim_of.held (
      ground (
        arith,
        inc64_ne (lease_at w.mem key).fencing_token,
        int_eqb_iff (inc64 (lease_at w.mem key).fencing_token) (lease_at w.mem key).fencing_token,
      ))

  -- A claim of a provider event takes an event that is not finished. It leaves the returned event,
  -- running, and the returned lease in the store, under one token and one fence. From there, until
  -- the lease ends, a claim of an event with another processing action under the same key answers
  -- `conflict` and changes nothing; and a release with the fence that the lease had before, with any
  -- token, answers `not_owned` and changes nothing.
  pub claim_processor_event-exclusive :
      (Table.get w'.mem.proc_events (proc_key family id) ≡ some e)
      × (Table.get w'.mem.leases key ≡ some l)
      × (e.processing_state ≡ ProcessingState.running)
      × (l.claim_token ≡ e.claim_token)
      × (l.fencing_token ≡ e.fencing_token)
      × ((family' : Family) (id' : Bytes) (x : ProcessorEvent) (t' : Time) (lease' : Duration)
          → Table.get w'.mem.proc_events (proc_key family' id') ≡ some x
          → x.processing_action_id ≢ e.processing_action_id
          → t' < t + lease
          → claim_processor_event family' id' key t' lease' w' ≡ (err (of_store conflict), w'))
      × ((token : Bytes)
          → release_processor_lease key token (lease_at w.mem key).fencing_token w'
            ≡ (err (of_store not_owned), w'))
  claim_processor_event-exclusive = (
    event-stored,
    lease-stored,
    rw claim_of.event refl,
    rw (claim_of.held, claim_of.event) refl,
    rw (claim_of.held, claim_of.event) refl,
    λ family' id' x t' lease' row other early.
        claim_refused family' id' key t' lease' w' x row
          (held_by_other x.processing_action_id t' other early),
    λ token.
        release_lost key token (lease_at w.mem key).fencing_token w' l lease-stored
          (stale-lease token),
  )
