-- ===== src/Store/Actions/Closed.antt =====
-- A scheduled action that is over, through the methods on scheduled actions.
use subscription_bridge.Prelude.{
  Bytes, bytes_eq, bytes_eqb_iff, true, false, is_some, Option, some, List, ◌≡◌, refl, inl, inr,
  arith, ℤ,
}
use subscription_bridge.Protocol.Clock.{Time, Duration}
use subscription_bridge.Store.Models.{ScheduledAction, ActionStatus, ActionType}
use subscription_bridge.Store.Models.Equality.{action_status_eq}
use subscription_bridge.Store.Table
use subscription_bridge.Store.Table.{get-put, get-update_all, update_all}
use subscription_bridge.Store.World.{Memory, World}
use subscription_bridge.Store.Cases.{After}
use subscription_bridge.Store.Invariant.{IsWf}
use subscription_bridge.Store.Actions.Claim.{claim_action_cases}
use subscription_bridge.Store.Actions.{
  put_action, insert_action, claim_action, claim_due_action, finish_action, force_finish_action,
  lock_due_action, cancel_actions_for_subscription, is_unfinished, canceled_for, is_takeable,
  owns_action,
}

-- Action `id` is `a`.
pub data Stands (id : Bytes) (a : ScheduledAction) (m : Memory) : Type 0 where
  stands : Table.get m.actions id ≡ some a → Stands id a m

module _ (id : Bytes) (a : ScheduledAction) (closed : is_unfinished a.status ≡ false) where
  -- A write to another row, or to one that is not over.
  put_open-Stands :
      (m : Memory) (k : Bytes) (b b' : ScheduledAction)
      → Table.get m.actions k ≡ some b
      → is_unfinished b.status ≡ true
      → Stands id a m
      → Stands id a (put_action k b' m)
  unfolding put_action
  put_open-Stands m k b b' row open_ (Stands.stands h) =
      Stands.stands (rw (get-put m.actions k id b') (ground (arith, bytes_eqb_iff k id)))

  put_new-Stands :
      (m : Memory) (k : Bytes) (b' : ScheduledAction)
      → is_some (Table.get m.actions k) ≡ false
      → Stands id a m
      → Stands id a (put_action k b' m)
  unfolding put_action
  put_new-Stands m k b' absent (Stands.stands h) =
      Stands.stands (rw (get-put m.actions k id b') (ground (arith, bytes_eqb_iff k id)))

  pub same_actions-Stands :
      (m m' : Memory) → m'.actions ≡ m.actions → Stands id a m → Stands id a m'
  same_actions-Stands m m' same (Stands.stands h) = Stands.stands (rw same h)

  open_if_takeable :
      (b : ScheduledAction) (t : Time) → is_takeable b t ≡ true → is_unfinished b.status ≡ true
  open_if_takeable b t h = grind arith

  open_if_owned :
      (b : ScheduledAction) (token : Bytes) (n : ℤ)
      → owns_action b token n ≡ true
      → is_unfinished b.status ≡ true
  open_if_owned b token n h = grind arith

  pub insert_action-Stands :
      (b : ScheduledAction) (w : World)
      → Stands id a w.mem
      → After (Stands id a) (insert_action b) w
  unfolding insert_action
  insert_action-Stands b w h = grind (arith, put_new-Stands)

  pub claim_action-Stands :
      (k : Bytes) (t : Time) (d : Duration) (w : World)
      → IsWf w.mem
      → Stands id a w.mem
      → After (Stands id a) (claim_action k t d) w
  claim_action-Stands k t d w v h = elim (claim_action_cases k t d w v.actions.indexed) [
    | inl (_, u, same, e) ↦ rw (e, same) h
    | inr (b, token, row, free, _, _, e) ↦
        rw e (put_open-Stands w.mem k b _ row (open_if_takeable b t free) h)
  ]

  pub claim_due_action-Stands :
      (t : Time) (d : Duration) (s : ActionStatus) (ks : List ActionType) (w : World)
      → IsWf w.mem
      → Stands id a w.mem
      → After (Stands id a) (claim_due_action t d s ks) w
  unfolding claim_due_action lock_due_action
  claim_due_action-Stands t d s ks w v h = grind (arith, claim_action-Stands)

  pub finish_action-Stands :
      (i c : Bytes) (n : ℤ) (s : ActionStatus) (t : Option Time) (x : Option Bytes) (w : World)
      → Stands id a w.mem
      → After (Stands id a) (finish_action i c n s t x) w
  unfolding finish_action
  finish_action-Stands i c n s t x w h = grind (arith, put_open-Stands, open_if_owned)

  pub force_finish_action-Stands :
      (i : Bytes) (s : ActionStatus) (t : Option Time) (x : Option Bytes) (w : World)
      → Stands id a w.mem
      → After (Stands id a) (force_finish_action i s t x) w
  unfolding force_finish_action
  force_finish_action-Stands i s t x w h = grind (arith, put_open-Stands)

  pub cancel_actions-Stands :
      (r k : Bytes) (w : World)
      → Stands id a w.mem
      → After (Stands id a) (cancel_actions_for_subscription r k) w
  unfolding cancel_actions_for_subscription
  cancel_actions-Stands r k w (Stands.stands h) =
      Stands.stands
        (rw (get-update_all (canceled_for r k) w.mem.actions id, h) (ap_some (kept r k)))
    where
      ap_some : {x y : ScheduledAction} → x ≡ y → Option.some x ≡ some y
      ap_some e = rw e refl

      kept : (r k : Bytes) → canceled_for r k a ≡ a
      kept r k = grind arith
