-- ===== src/Store/Invariant/Actions.antt =====
-- The scheduled-action methods keep the invariant.
use subscription_bridge.Prelude.{
  Bytes, true, false, Option, some, List, ◌≡◌, refl, ◌∙◌, arith, ℤ, any, bytes_eq, int_eq, nat_eq,
  bytes_eqb_iff, Option-cases, Bool-cases, inl, inr,
}
use subscription_bridge.Protocol.Clock.{Time, Duration}
use subscription_bridge.Store.Models.{ScheduledAction, ActionStatus, ActionType, ScheduledAction}
use subscription_bridge.Store.Table
use subscription_bridge.Store.Table.{get-update_all, update_all}
use subscription_bridge.Store.Table.Index.{
  IsIndexed-put, IsUnique-put_same, IsUnique-put_new, IsIndexed-update_all, IsUnique-update_all,
}
use subscription_bridge.Store.World.{Memory, World}
use subscription_bridge.Store.Cases.{After}
use subscription_bridge.Store.Invariant.{IsWf, action_key, stable_key}
use subscription_bridge.Store.Actions.{
  put_action, insert_action, same_key, finish_action, force_finish_action, claim_action,
  claim_due_action, cancel_actions_for_subscription, canceled_for, lock_due_action,
}
use subscription_bridge.Store.Actions.Claim.{claim_action_cases}

-- A row that keeps its identifier and what is unique to it.
put_action-IsWf :
    (m : Memory) (id : Bytes) (e e' : ScheduledAction)
    → Table.get m.actions id ≡ some e
    → action_key e' ≡ action_key e
    → stable_key e' ≡ stable_key e
    → IsWf m
    → IsWf (put_action id e' m)
unfolding put_action
put_action-IsWf m id e e' old same_id same_one_per_key v = record {
  checkouts = v.checkouts;
  subs = v.subs;
  outbound = v.outbound;
  actions = record {
    indexed =
        IsIndexed-put action_key m.actions id e' (rw same_id (v.actions.indexed.keyed id e old))
          v.actions.indexed;
    one_per_key =
        IsUnique-put_same stable_key m.actions id e' e old same_one_per_key v.actions.one_per_key;
  };
  attempts = v.attempts;
}

same_key-one_per_key : (a w : ScheduledAction) → stable_key w ≡ stable_key a → same_key a w ≡ true
same_key-one_per_key a w same = (bytes_eqb_iff w.action_key a.action_key).1 same

-- A new row, with which no row of the table clashes.
put_action_new-IsWf :
    (m : Memory) (a e : ScheduledAction)
    → action_key e ≡ action_key a
    → stable_key e ≡ stable_key a
    → any (same_key a) (Table.values m.actions) ≡ false
    → IsWf m
    → IsWf (put_action (action_key a) e m)
unfolding put_action
put_action_new-IsWf m a e same_id same_one_per_key free v = record {
  checkouts = v.checkouts;
  subs = v.subs;
  outbound = v.outbound;
  actions = record {
    indexed = IsIndexed-put action_key m.actions (action_key a) e same_id v.actions.indexed;
    one_per_key =
        IsUnique-put_new stable_key (same_key a) m.actions (action_key a) e
          (λ w same. same_key-one_per_key a w (same ∙ same_one_per_key)) free v.actions.one_per_key;
  };
  attempts = v.attempts;
}

pub insert_action-IsWf :
    (e : ScheduledAction) (w : World) → IsWf w.mem → After IsWf (insert_action e) w
unfolding insert_action
insert_action-IsWf e w v = elim (Option-cases (Table.get w.mem.actions (action_key e))) [
  | inr (x, there) ↦ rw (there, insert_action) v
  | inl absent ↦ elim (Bool-cases (any (same_key e) (Table.values w.mem.actions))) [
    | inl taken ↦ rw (absent, taken, insert_action) v
    | inr free ↦ rw (absent, free, insert_action) (put_action_new-IsWf w.mem e _ refl refl free v)
  ]
]

pub finish_action-IsWf :
    (id token : Bytes) (fence : ℤ) (status : ActionStatus) (due : Option Time)
    (class : Option Bytes) (w : World)
    → IsWf w.mem
    → After IsWf (finish_action id token fence status due class) w
unfolding finish_action
finish_action-IsWf id token fence status due class w v = grind (arith, put_action-IsWf)

pub force_finish_action-IsWf :
    (id : Bytes) (status : ActionStatus) (due : Option Time) (class : Option Bytes) (w : World)
    → IsWf w.mem
    → After IsWf (force_finish_action id status due class) w
unfolding force_finish_action
force_finish_action-IsWf id status due class w v = grind (arith, put_action-IsWf)

pub claim_action-IsWf :
    (id : Bytes) (t : Time) (lease : Duration) (w : World)
    → IsWf w.mem
    → After IsWf (claim_action id t lease) w
claim_action-IsWf id t lease w v = elim (claim_action_cases id t lease w v.actions.indexed) [
  | inl (_, u, same, e) ↦ rw (e, same) v
  | inr (a, token, row, _, _, _, e) ↦ rw e (put_action-IsWf w.mem id a _ row refl refl v)
]

pub claim_due_action-IsWf :
    (t : Time) (lease : Duration) (status : ActionStatus) (kinds : List ActionType) (w : World)
    → IsWf w.mem
    → After IsWf (claim_due_action t lease status kinds) w
unfolding claim_due_action lock_due_action
claim_due_action-IsWf t lease status kinds w v = grind (arith, claim_action-IsWf)

pub cancel_actions_for_subscription-IsWf :
    (ref except : Bytes) (w : World)
    → IsWf w.mem
    → After IsWf (cancel_actions_for_subscription ref except) w
unfolding cancel_actions_for_subscription
cancel_actions_for_subscription-IsWf ref except w v = record {
  checkouts = v.checkouts;
  subs = v.subs;
  outbound = v.outbound;
  actions = record {
    indexed =
        IsIndexed-update_all action_key (canceled_for ref except) w.mem.actions (λ a. ground arith)
          v.actions.indexed;
    one_per_key =
        IsUnique-update_all stable_key (canceled_for ref except) w.mem.actions (λ a. ground arith)
          v.actions.one_per_key;
  };
  attempts = v.attempts;
}
