-- ===== src/Tests/System.antt =====
-- Histories of requests, and single requests, with a sample engine.
use subscription_bridge.Prelude.{
  ℕ, zero, suc, negsuc, ◌<◌, subst, ◌+◌, ◌*◌, ◌≤◌, ◌≢◌, ◌⊎◌, bytes, [], ◌∷◌, List, Option, none,
  some, pos, false, ◌≡◌, refl, arith, bytes_eqb, bytes_eq, inc64,
}
use subscription_bridge.Protocol.Errors.{ok}
use subscription_bridge.Protocol.Status.{Status, EventType, validate_event_status}
use subscription_bridge.Protocol.Civil.{plus, minus, normal_month}
use subscription_bridge.Protocol.Civil.Months.{normal_month-total}
use subscription_bridge.Protocol.Clock.{second, hour, truncate_utc}
use subscription_bridge.Protocol.Identifier.{
  validate_opaque_id, validate_event_id, validate_checkout_id, validate_subscription_ref,
  has_prefix, drop, is_suffix_byte, new_opaque_id, stamp, format_uuid, hex, claim_token,
}
use subscription_bridge.Protocol.Callback.{
  snapshot_from_callback, validate_snapshot, new_callback, Callback, format_utc, validate_callback,
  validate_fields, validate_envelope, validate_plan_id, parse_utc, ends_with_z, action_key,
}
use subscription_bridge.Store.Models.{Subscription, ChargeAttempt}
use subscription_bridge.Store.Models.Equality.{family_eq}
use subscription_bridge.Store.Table
use subscription_bridge.Store.Table.{Table}
use subscription_bridge.Store.World.{World, now, in_tx, settle, new_token}
use subscription_bridge.Store.Invariant.{IsWf}
use subscription_bridge.Store.Invariant.Subscriptions
use subscription_bridge.Store.Invariant.Attempts
use subscription_bridge.Store.Calls.Invariant.{empty_memory-IsWf}
use subscription_bridge.Store.Subscriptions.{
  insert_subscription, put_subscription, get_subscription, update_subscription,
}
use subscription_bridge.Store.Outbound.{insert_outbound, put_outbound}
use subscription_bridge.Store.Actions.{cancel_actions_for_subscription, insert_action, put_action}
use subscription_bridge.Store.Attempts.{insert_attempt, put_attempt}
use subscription_bridge.Envelope.{Sealed, seal, open_box, aad, new_nonce, seal-open_box}
use subscription_bridge.Engine.Env.{Engine, commit, apply_decision}
use subscription_bridge.Engine.Transition
use subscription_bridge.Engine.Transition.{decide, dispatch, expire}
use subscription_bridge.Engine.Commit.{
  commit_change, marshal_callback, new_event_id, plan_actions, plan_action, unless_conflict,
}
use subscription_bridge.Engine.Operators.{
  snapshot_from, expire_now, observe_now, observe_at, cancel_at_period_end,
}
use subscription_bridge.Engine.Operators.Queries.{snapshot_from-callback}
use subscription_bridge.Engine.Operators.Settled.{expire_now-expired, cancel_at_period_end-canceled}
use subscription_bridge.Engine.Safe.Commits.{AllTame}
use subscription_bridge.Notify.{base_delay, next_attempt}
use subscription_bridge.Notify.Backoff.{next_attempt-bounds}
use subscription_bridge.System.{Request, run}
use subscription_bridge.System.Safe.{
  run-IsWf, run-subscription, run-attempt, busy, busy-IsTame, AllTameRequests,
}
use subscription_bridge.Tests.Samples.{start, noon}
use subscription_bridge.Tests.Transitions.{subscribed}
use subscription_bridge.Tests.Commits.{sample}
use subscription_bridge.Tests.Engines.{
  IsTameIfAny, quiet, quiet-IsTame, plain_gcm, plain_aead, engine, claims, charge,
}

-- An engine whose provider, while it is asked, lets the checkouts be swept.
abbrev shared_engine : Engine
shared_engine = record engine { adapters = λ f. some (busy (Request.sweep ∷ []) quiet) }

shared_engine-AllTame : AllTame shared_engine
shared_engine-AllTame f a h =
    subst IsTameIfAny h (busy-IsTame (Request.sweep ∷ []) quiet (tt, tt) quiet-IsTame)

abbrev requests : List Request
requests =
    Request.start shared_engine claims []
    ∷ Request.expire engine (bytes "sub_1")
    ∷ Request.sweep
    ∷ []

requests-tame : AllTameRequests requests
requests-tame = (shared_engine-AllTame, (tt, (tt, tt)))

run-IsWf_example : IsWf (run requests start).mem
run-IsWf_example = run-IsWf requests start refl requests-tame

-- A store with a subscription.
abbrev stocked : World
stocked = (insert_subscription subscribed start).1

abbrev stored : Subscription
stored = record subscribed { created_at = noon; updated_at = noon }

stocked-IsWf : IsWf stocked.mem
stocked-IsWf = Subscriptions.insert_subscription-IsWf subscribed start empty_memory-IsWf

stocked-row : Table.get stocked.mem.subs (bytes "sub_1") ≡ some stored
unfolding insert_subscription put_subscription Table.get Table.find Table.put Table.store
    Table.values Table.empty now truncate_utc bytes_eqb
stocked-row = refl

run-subscription_example :
    (s : Subscription) × (Table.get (run requests stocked).mem.subs (bytes "sub_1") ≡ some s)
    × (s.subscription_ref ≡ bytes "sub_1")
    × (s.checkout_id ≡ bytes "subchk_1")
run-subscription_example =
    run-subscription requests stocked (bytes "sub_1") stored requests-tame stocked-IsWf stocked-row

-- A store with an attempt.
abbrev charged : World
charged = (insert_attempt charge start).1

charged-IsWf : IsWf charged.mem
charged-IsWf = Attempts.insert_attempt-IsWf charge start empty_memory-IsWf

charged-row : Table.get charged.mem.attempts (bytes "att_1") ≡ some charge
unfolding insert_attempt put_attempt Table.get Table.find Table.put Table.store Table.values
    Table.empty bytes_eqb
charged-row = refl

run-attempt_example :
    (a : ChargeAttempt) × (Table.get (run requests charged).mem.attempts (bytes "att_1") ≡ some a)
    × (a.attempt_reference ≡ bytes "ref_1")
    × (a.idempotency_key ≡ bytes "key_1")
    × (a.subscription_ref ≡ bytes "sub_1")
    × (a.period_start ≡ 5 * second)
    × (a.attempt_number ≡ pos 1)
run-attempt_example =
    run-attempt requests charged (bytes "att_1") charge requests-tame charged-IsWf charged-row

normal_month-total_example :
    (left k j : ℕ) × (normal_month (pos 2026) (negsuc 29) ≡ (minus (plus (pos 2026) k) j, pos left))
    × (1 ≤ left)
    × (left ≤ 12)
    × (plus (negsuc 29) (12 * j) ≡ pos (left + 12 * k))
normal_month-total_example = normal_month-total (pos 2026) (negsuc 29)

-- A draw of the largest number below the bound; it fails for a bound of 0.
abbrev largest : ℕ → Option ℕ
largest zero = none
largest (suc n) = some n

largest-below : (bound n : ℕ) → largest bound ≡ some n → n < bound
largest-below zero n h = absurd (ground arith)
largest-below (suc b) n h = ground arith

next_attempt-bounds_example :
    (noon ≤ next_attempt largest (pos 2) noon)
    × (next_attempt largest (pos 2) noon ≤ noon + base_delay (pos 2))
    × (next_attempt largest (pos 2) noon ≤ noon + 6 * hour)
next_attempt-bounds_example = next_attempt-bounds largest (pos 2) noon largest-below

abbrev sealed : Sealed
sealed = record {
  ciphertext = bytes "secret";
  nonce = 1 ∷ 2 ∷ 3 ∷ 4 ∷ 5 ∷ 6 ∷ 7 ∷ 8 ∷ 9 ∷ 10 ∷ 11 ∷ 12 ∷ [];
  key_version = bytes "k1";
}

abbrev sealed_world : World
sealed_world = record start { reads = 1 }

sealing :
    seal plain_aead
      (record { key = []; version = bytes "k1" })
      (bytes "secret")
      (aad (bytes "p") (bytes "r"))
      start
    ≡ (ok sealed, sealed_world)
unfolding seal new_nonce
sealing = refl

seal-open_box_example :
    open_box plain_aead
      (record { key = []; version = bytes "k1" })
      (bytes "secret")
      (1 ∷ 2 ∷ 3 ∷ 4 ∷ 5 ∷ 6 ∷ 7 ∷ 8 ∷ 9 ∷ 10 ∷ 11 ∷ 12 ∷ [])
      (aad (bytes "p") (bytes "r"))
      (bytes "k1")
      start
    ≡ (ok (bytes "secret"), start)
seal-open_box_example =
    seal-open_box plain_aead plain_gcm (record { key = []; version = bytes "k1" }) (bytes "secret")
      (bytes "p") (bytes "r") sealed start sealed_world start refl (λ n p d. refl) sealing

-- The message of a callback of the stored subscription.
abbrev told : Callback
told = record {
  protocol = bytes "subscription-bridge";
  version = pos 1;
  event_id = bytes "evt_1";
  event_type = EventType.renewed;
  checkout_id = bytes "subchk_1";
  subscription_ref = bytes "sub_1";
  plan_id = bytes "basic";
  state_version = pos 3;
  status = Status.active;
  current_period_start = 5000000000 ∷ b'Z' ∷ [];
  current_period_end = 9000000000 ∷ b'Z' ∷ [];
  cancel_at_period_end = false;
  state_changed_at = 0 ∷ b'Z' ∷ [];
}

told_made :
    new_callback sample
      (bytes "evt_1")
      EventType.renewed
      (bytes "subchk_1")
      (bytes "sub_1")
      (bytes "basic")
      (pos 3)
      Status.active
      (5 * second)
      (9 * second)
      0
      false
    ≡ ok told
unfolding new_callback format_utc truncate_utc validate_callback validate_fields validate_envelope
    validate_event_id validate_checkout_id validate_subscription_ref validate_opaque_id has_prefix
    drop is_suffix_byte validate_plan_id parse_utc ends_with_z validate_event_status bytes_eqb
told_made = refl

snapshot_from-callback_example :
    (snapshot_from sample subscribed ≡ snapshot_from_callback told)
    × (validate_snapshot sample (snapshot_from sample subscribed) ≡ ok tt)
snapshot_from-callback_example =
    snapshot_from-callback sample subscribed (bytes "evt_1") EventType.renewed told told_made

named : bytes "sub_1" ≢ []
named h = absurd (ground arith)

abbrev expired_world : World
expired_world = (expire_now engine (bytes "sub_1") stocked).1

expiring : expire_now engine (bytes "sub_1") stocked ≡ (ok tt, expired_world)
unfolding expire_now observe_now observe_at in_tx settle get_subscription now truncate_utc commit
    apply_decision decide dispatch expire commit_change marshal_callback new_event_id new_opaque_id
    new_callback plan_actions plan_action insert_subscription put_subscription update_subscription
    insert_outbound put_outbound format_utc cancel_actions_for_subscription validate_callback
    validate_fields validate_envelope validate_event_id validate_checkout_id
    validate_subscription_ref validate_opaque_id has_prefix drop is_suffix_byte validate_plan_id
    parse_utc ends_with_z validate_event_status bytes_eqb inc64 stamp format_uuid hex Table.get
    Table.find Table.put Table.store Table.values Table.empty
expiring = refl

expire_now-expired_example :
    (s : Subscription) × (Table.get expired_world.mem.subs (bytes "sub_1") ≡ some s)
    × (s.status ≡ Status.expired)
expire_now-expired_example =
    expire_now-expired engine (bytes "sub_1") stocked expired_world stocked-IsWf named expiring

abbrev canceled_world : World
canceled_world = (cancel_at_period_end engine (bytes "sub_1") stocked).1

canceling : cancel_at_period_end engine (bytes "sub_1") stocked ≡ (ok tt, canceled_world)
unfolding cancel_at_period_end observe_now observe_at in_tx settle get_subscription now truncate_utc
    commit apply_decision decide dispatch Transition.cancel_at_period_end commit_change
    marshal_callback new_event_id new_opaque_id new_callback plan_actions plan_action
    insert_subscription put_subscription update_subscription insert_outbound put_outbound format_utc
    cancel_actions_for_subscription insert_action put_action action_key validate_callback
    validate_fields validate_envelope validate_event_id validate_checkout_id
    validate_subscription_ref validate_opaque_id has_prefix drop is_suffix_byte validate_plan_id
    parse_utc ends_with_z validate_event_status bytes_eqb inc64 stamp format_uuid hex Table.get
    Table.find Table.put Table.store Table.values Table.empty Table.update_all new_token claim_token
    unless_conflict
canceling = refl

cancel_at_period_end-canceled_example :
    (s : Subscription) × (Table.get canceled_world.mem.subs (bytes "sub_1") ≡ some s)
    × ((s.status ≡ Status.canceled) ⊎ (s.status ≡ Status.expired))
cancel_at_period_end-canceled_example =
    cancel_at_period_end-canceled engine (bytes "sub_1") stocked canceled_world stocked-IsWf named
      canceling
