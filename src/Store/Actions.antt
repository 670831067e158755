-- ===== src/Store/Actions.antt =====
-- The scheduled-action methods of `memTx` (internal/store/memory.go).
pub mod Claim
pub mod Fencing
pub mod Closed
use subscription_bridge.Prelude.{
  ◌+◌, Bytes, Bool, true, false, ◌&&◌, ◌||◌, not, List, [], ◌∷◌, Option, none, some, any, find?,
  least, sort, is_some, limited, ◌==◌, bytes_eq, int_eq, if◌then◌else◌, ℤ, inc64,
}
use subscription_bridge.Protocol.Errors.{
  of_store, of_protocol, not_found, conflict, not_owned, automatic_charge_blocked,
}
use subscription_bridge.Protocol.Clock.{Time, Duration, is_after, is_before}
use subscription_bridge.Store.Models.{ScheduledAction, ActionType, ActionStatus, Subscription}
use subscription_bridge.Store.Models.Equality.{action_type_eq, action_status_eq}
use subscription_bridge.Store.Table
use subscription_bridge.Store.Subscriptions.{points_to}
use subscription_bridge.Store.Outbound.{is_live}
use subscription_bridge.Store.World.{
  Memory, Act, pure, gets, or_fail, fail_if, modify, new_token, ◌>>=◌, ◌>>◌,
}

unfoldable pub put_action : Bytes → ScheduledAction → Memory → Memory
put_action id a m = record m { actions = Table.put m.actions id a }

-- The test of the loop of InsertAction.
abbrev pub same_key : ScheduledAction → ScheduledAction → Bool
same_key a e = e.action_key == a.action_key

-- InsertAction
unfoldable pub insert_action : ScheduledAction → Act (Unit {0})
unfolding put_action
insert_action a = do
  old ← gets (λ m. Table.get m.actions a.action_id)
  fail_if (is_some old) (of_store conflict)
  rows ← gets (λ m. Table.values m.actions)
  fail_if (any (same_key a) rows) (of_store conflict)
  modify (put_action a.action_id a)

-- GetAction
unfoldable pub get_action : Bytes → Act ScheduledAction
get_action id = do found ← gets (λ m. Table.get m.actions id); or_fail found (of_store not_found)

-- GetActionByKey
unfoldable pub get_action_by_key : Bytes → Act ScheduledAction
get_action_by_key key = do
  rows ← gets (λ m. Table.values m.actions)
  or_fail (find? (λ (a : ScheduledAction). a.action_key == key) rows) (of_store not_found)

-- kindAllowed
unfoldable pub kind_allowed : List ActionType → ActionType → Bool
kind_allowed [] type = true
kind_allowed (k ∷ ks) type = any (λ k'. k' == type) (k ∷ ks)

-- The subscription of a renewal lets it be charged: it exists, and charging is not blocked.
abbrev pub may_charge : Option Subscription → Bool
may_charge none = false
may_charge (some s) = not s.automatic_charging_blocked

abbrev pub charge_allowed : Memory → ScheduledAction → Bool
charge_allowed m a =
    not (a.action_type == ActionType.renew) || may_charge (Table.get m.subs a.subscription_ref)

-- The switch on the row's status in actionDue.
abbrev pub status_due : ScheduledAction → Time → ActionStatus → Bool
status_due a t status =
    if a.status == status
    then true
    else if a.status == ActionStatus.running
    then (status == ActionStatus.pending || status == ActionStatus.uncertain)
      && not (is_live a.lease_until t)
    else false

-- actionDue
unfoldable pub action_due : Memory → ScheduledAction → Time → ActionStatus → Bool
action_due m a t status =
    status_due a t status
    && not (is_after a.due_at t && not (a.status == ActionStatus.running))
    && not (not (a.status == ActionStatus.running) && is_live a.lease_until t)
    && charge_allowed m a

-- LockDueAction
unfoldable pub lock_due_action : Time → ActionStatus → List ActionType → Act ScheduledAction
lock_due_action t status kinds = do
  rows ← gets (λ m. Table.values m.actions)
  due ←
      gets
        (λ m. λ (a : ScheduledAction). action_due m a t status && kind_allowed kinds a.action_type)
  or_fail (least due (λ a b. is_before a.due_at b.due_at) none rows) (of_store not_found)

-- The statuses from which ClaimAction takes a row, and a run whose lease is over.
abbrev pub is_takeable : ScheduledAction → Time → Bool
is_takeable a t =
    a.status == ActionStatus.pending
    || a.status == ActionStatus.uncertain
    || (a.status == ActionStatus.running && not (is_live a.lease_until t))

abbrev pub claimed_action : Bytes → Time → ScheduledAction → ScheduledAction
claimed_action token until a = record a {
  status = ActionStatus.running;
  claim_token = some token;
  fencing_token = inc64 a.fencing_token;
  lease_until = some until;
}

-- ClaimAction
unfoldable pub claim_action : Bytes → Time → Duration → Act ScheduledAction
unfolding put_action
claim_action id t lease = do
  found ← gets (λ m. Table.get m.actions id)
  a ← or_fail found (of_store not_found)
  fail_if (not (is_takeable a t)) (of_store not_owned)
  allowed ← gets (λ m. charge_allowed m a)
  fail_if (not allowed) (of_protocol automatic_charge_blocked)
  token ← new_token
  let a' = claimed_action token (t + lease) a
  modify (put_action a'.action_id a')
  pure a'

-- ClaimDueAction
unfoldable pub claim_due_action :
    Time → Duration → ActionStatus → List ActionType → Act ScheduledAction
claim_due_action t lease status kinds = do
  a ← lock_due_action t status kinds
  claim_action a.action_id t lease

abbrev pub owns_action : ScheduledAction → Bytes → ℤ → Bool
owns_action a token fence =
    a.status == ActionStatus.running && points_to a.claim_token token && a.fencing_token == fence

abbrev pub or_kept {ℓ} : {A : Type ℓ} → Option A → A → A
or_kept none a = a
or_kept (some b) a = b

-- FinishAction
unfoldable pub finish_action :
    Bytes → Bytes → ℤ → ActionStatus → Option Time → Option Bytes → Act (Unit {0})
unfolding put_action
finish_action id token fence status due class = do
  found ← gets (λ m. Table.get m.actions id)
  a ← or_fail found (of_store not_found)
  fail_if (not (owns_action a token fence)) (of_store not_owned)
  modify (
      put_action id (record a {
        status = status;
        last_error_class = class;
        due_at = or_kept due a.due_at;
        claim_token = if status == ActionStatus.running then a.claim_token else none;
        lease_until = if status == ActionStatus.running then a.lease_until else none;
      }))

-- The statuses that ForceFinishAction finishes; a row in any other is left alone.
abbrev pub is_unfinished : ActionStatus → Bool
is_unfinished ActionStatus.pending = true
is_unfinished ActionStatus.running = true
is_unfinished ActionStatus.uncertain = true
is_unfinished _ = false

-- ForceFinishAction
unfoldable pub force_finish_action :
    Bytes → ActionStatus → Option Time → Option Bytes → Act (Unit {0})
unfolding put_action
force_finish_action id status due class = do
  found ← gets (λ m. Table.get m.actions id)
  a ← or_fail found (of_store not_found)
  if not (is_unfinished a.status)
      then pure tt
      else modify (
          put_action id (record a {
            status = status;
            last_error_class = class;
            due_at = or_kept due a.due_at;
            claim_token = none;
            lease_until = none;
          }))

-- The test and the change of the loop of CancelActionsForSubscription.
abbrev pub is_cancelable : Bytes → Bytes → ScheduledAction → Bool
is_cancelable ref except a =
    a.subscription_ref == ref
    && not (a.action_key == except)
    && (a.status == ActionStatus.pending || a.status == ActionStatus.uncertain)

abbrev pub canceled_for : Bytes → Bytes → ScheduledAction → ScheduledAction
canceled_for ref except a =
    if is_cancelable ref except a
    then record a { status = ActionStatus.canceled; claim_token = none; lease_until = none }
    else a

-- CancelActionsForSubscription
unfoldable pub cancel_actions_for_subscription : Bytes → Bytes → Act (Unit {0})
cancel_actions_for_subscription ref except =
    modify (λ m. record m { actions = Table.update_all (canceled_for ref except) m.actions })

-- ListActions
unfoldable pub list_actions : ℤ → Act (List ScheduledAction)
list_actions limit = do
  rows ← gets (λ m. Table.values m.actions)
  pure (limited limit (sort (λ a b. is_before a.due_at b.due_at) rows))
