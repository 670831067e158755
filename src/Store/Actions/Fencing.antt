-- ===== src/Store/Actions/Fencing.antt =====
-- What a claim of a scheduled action guards against.
use subscription_bridge.Prelude.{
  ◌+◌, ◌<◌, Bytes, true, false, Option, some, ◌≡◌, refl, inl, inr, arith, ℤ, inc64, inc64_ne,
  int_eq, int_eqb_iff, bytes_eqb_refl,
}
use subscription_bridge.Protocol.Errors.{ok, err, of_store, not_owned}
use subscription_bridge.Protocol.Clock.{Time, Duration}
use subscription_bridge.Store.Models.{ScheduledAction, ActionStatus}
use subscription_bridge.Store.Models.Equality.{action_status_eq, action_type_eq}
use subscription_bridge.Store.Table
use subscription_bridge.Store.Table.{get-put}
use subscription_bridge.Store.World.{World}
use subscription_bridge.Store.Invariant.{IsWf}
use subscription_bridge.Store.Actions.{
  put_action, claim_action, finish_action, claimed_action, owns_action, is_takeable, charge_allowed,
}
use subscription_bridge.Store.Actions.Claim.{claim_action_cases, after_claim}

finish_action_lost :
    (id token : Bytes) (fence : ℤ) (s : ActionStatus) (due : Option Time) (class : Option Bytes)
    (w : World) (a : ScheduledAction)
    → Table.get w.mem.actions id ≡ some a
    → owns_action a token fence ≡ false
    → finish_action id token fence s due class w ≡ (err (of_store not_owned), w)
unfolding finish_action
finish_action_lost id token fence s due class w a row lost = rw (row, lost, finish_action) refl

claim_action_lost :
    (id : Bytes) (t : Time) (lease : Duration) (w : World) (a : ScheduledAction)
    → Table.get w.mem.actions id ≡ some a
    → is_takeable a t ≡ false
    → claim_action id t lease w ≡ (err (of_store not_owned), w)
unfolding claim_action
claim_action_lost id t lease w a row busy = rw (row, busy, claim_action) refl

-- What a claim that succeeds has done.
pub record ClaimOf (id : Bytes) (t : Time) (lease : Duration) (w : World) (a : ScheduledAction)
    (w' : World) : Type 0 where
  pub old : ScheduledAction
  pub token : Bytes
  pub stored : Table.get w.mem.actions id ≡ some old
  pub free : is_takeable old t ≡ true
  pub allowed : charge_allowed w.mem old ≡ true
  pub returned : a ≡ claimed_action token (t + lease) old
  pub left : w' ≡ after_claim token (t + lease) id old w

module _ (id : Bytes) (t : Time) (lease : Duration) (w : World) (a : ScheduledAction) (w' : World)
    (v : IsWf w.mem) (claim : claim_action id t lease w ≡ (ok a, w')) where
  pub claim_of : ClaimOf id t lease w a w'
  claim_of = elim (claim_action_cases id t lease w v.actions.indexed) [
    | inl (_, _, _, f) ↦ absurd (ground arith)
    | inr (old, token, row, free, allowed, _, f) ↦ record {
      old = old;
      token = token;
      stored = row;
      free = free;
      allowed = allowed;
      returned = ground arith;
      left = ground arith;
    }
  ]

  pub claimed-stored : Table.get w'.mem.actions id ≡ some a
  unfolding put_action
  claimed-stored =
      let c = claim_of in
      rw
        (
          c.left,
          c.returned,
          get-put w.mem.actions id id (claimed_action c.token (t + lease) c.old),
          bytes_eqb_refl id,
        )
        refl

  stale-owns : (token : Bytes) → owns_action a token claim_of.old.fencing_token ≡ false
  stale-owns token = rw claim_of.returned (
      ground (
        arith,
        inc64_ne claim_of.old.fencing_token,
        int_eqb_iff (inc64 claim_of.old.fencing_token) claim_of.old.fencing_token,
      ))

  claim-busy : (t' : Time) → t' < t + lease → is_takeable a t' ≡ false
  claim-busy t' early = rw claim_of.returned (ground arith)

  -- A claim of an action in a well-formed store takes a row that is pending, uncertain or a run whose
  -- lease is over, and, for a renewal, only where the subscription may be charged. It leaves the
  -- returned row, running, in the store. From there a second claim before the lease ends answers
  -- `not_owned`, and so does a finish with the fence that the row had before, with any token;
  -- neither changes anything.
  pub claim_action-exclusive :
      (old : ScheduledAction) × (Table.get w.mem.actions id ≡ some old)
      × (is_takeable old t ≡ true)
      × (charge_allowed w.mem old ≡ true)
      × (Table.get w'.mem.actions id ≡ some a)
      × (a.status ≡ ActionStatus.running)
      × ((t' : Time) (lease' : Duration)
          → t' < t + lease
          → claim_action id t' lease' w' ≡ (err (of_store not_owned), w'))
      × ((token : Bytes) (s : ActionStatus) (due : Option Time) (class : Option Bytes)
          → finish_action id token old.fencing_token s due class w'
            ≡ (err (of_store not_owned), w'))
  claim_action-exclusive = (
    claim_of.old,
    claim_of.stored,
    claim_of.free,
    claim_of.allowed,
    claimed-stored,
    rw claim_of.returned refl,
    λ t' lease' early. claim_action_lost id t' lease' w' a claimed-stored (claim-busy t' early),
    λ token s due class.
        finish_action_lost id token claim_of.old.fencing_token s due class w' a claimed-stored
          (stale-owns token),
  )
