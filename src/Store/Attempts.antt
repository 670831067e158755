-- ===== src/Store/Attempts.antt =====
-- The charge-attempt methods of `memTx` (internal/store/memory.go).
use subscription_bridge.Prelude.{
  ◌+◌, ◌*◌, Bytes, Bool, true, ◌&&◌, ◌||◌, not, List, [], ◌∷◌, none, some, any, find?, keep, sort,
  is_some, limited, ◌==◌, bytes_eq, int_eq, nat_eq, if◌then◌else◌, ℤ, ltb_ℤ,
}
use subscription_bridge.Protocol.Errors.{of_store, not_found, conflict, not_owned}
use subscription_bridge.Protocol.Clock.{Time, Duration, hour, is_equal, is_zero, truncate_utc}
use subscription_bridge.Store.Models.{ScheduledAction, ChargeAttempt, AttemptStatus}
use subscription_bridge.Store.Models.Equality.{attempt_status_eq}
use subscription_bridge.Store.Table
use subscription_bridge.Store.Actions.{owns_action}
use subscription_bridge.Store.World.{Memory, Act, pure, gets, or_fail, fail_if, modify, ◌>>=◌, ◌>>◌}

unfoldable pub put_attempt : Bytes → ChargeAttempt → Memory → Memory
put_attempt id a m = record m { attempts = Table.put m.attempts id a }

-- The two tests of the loop of InsertAttempt.
abbrev pub clashes : ChargeAttempt → ChargeAttempt → Bool
clashes a e =
    (e.attempt_reference == a.attempt_reference || e.idempotency_key == a.idempotency_key)
    || (e.subscription_ref == a.subscription_ref
        && is_equal e.period_start a.period_start
        && e.attempt_number == a.attempt_number)

-- InsertAttempt
unfoldable pub insert_attempt : ChargeAttempt → Act (Unit {0})
unfolding put_attempt
insert_attempt a = do
  old ← gets (λ m. Table.get m.attempts a.attempt_id)
  fail_if (is_some old) (of_store conflict)
  rows ← gets (λ m. Table.values m.attempts)
  fail_if (any (clashes a) rows) (of_store conflict)
  modify (put_attempt a.attempt_id a)

-- GetAttempt
unfoldable pub get_attempt : Bytes → Act ChargeAttempt
get_attempt id = do found ← gets (λ m. Table.get m.attempts id); or_fail found (of_store not_found)

-- GetAttemptByReference
unfoldable pub get_attempt_by_reference : Bytes → Act ChargeAttempt
get_attempt_by_reference ref = do
  rows ← gets (λ m. Table.values m.attempts)
  or_fail (find? (λ (a : ChargeAttempt). a.attempt_reference == ref) rows) (of_store not_found)

-- The order by aNum.
abbrev pub numbered_before : ChargeAttempt → ChargeAttempt → Bool
numbered_before a b = ltb_ℤ a.attempt_number b.attempt_number

-- GetAttemptsForAction
unfoldable pub get_attempts_for_action : Bytes → Act (List ChargeAttempt)
get_attempts_for_action action_id = do
  rows ← gets (λ m. Table.values m.attempts)
  pure (sort numbered_before (keep (λ (a : ChargeAttempt). a.action_id == action_id) rows))

-- ListAttempts
unfoldable pub list_attempts : List AttemptStatus → ℤ → Act (List ChargeAttempt)
list_attempts statuses limit = do
  rows ← gets (λ m. Table.values m.attempts)
  pure (limited limit (sort numbered_before (keep (allowed statuses) rows)))
  where
    allowed : List AttemptStatus → ChargeAttempt → Bool
    allowed [] a = true
    allowed (s ∷ ss) a = any (λ s'. s' == a.status) (s ∷ ss)

-- UpdateAttempt
unfoldable pub update_attempt : ChargeAttempt → Act (Unit {0})
unfolding put_attempt
update_attempt a = do
  old ← gets (λ m. Table.get m.attempts a.attempt_id)
  _ ← or_fail old (of_store not_found)
  modify (put_attempt a.attempt_id a)

-- The first submission of an attempt sets its time and its resolution deadline, six days later where
-- none is given.
abbrev pub submitted : Time → Time → ChargeAttempt → ChargeAttempt
submitted t deadline a = elim a.first_submitted_at [
  | some _ ↦ a
  | none ↦ record a {
    first_submitted_at = some (truncate_utc t);
    resolution_deadline = some (
        if is_zero (truncate_utc deadline)
        then truncate_utc t + 144 * hour
        else truncate_utc deadline);
  }
]

-- ClaimAttemptWithAction
unfoldable pub claim_attempt_with_action :
    Bytes → Bytes → Bytes → ℤ → Time → Duration → Time → Act (ScheduledAction × ChargeAttempt)
unfolding put_attempt
claim_attempt_with_action action_id attempt_id token fence t lease deadline = do
  found ← gets (λ m. Table.get m.actions action_id)
  a ← or_fail found (of_store not_found)
  fail_if (not (owns_action a token fence)) (of_store not_owned)
  found' ← gets (λ m. Table.get m.attempts attempt_id)
  att ← or_fail found' (of_store not_found)
  let att' = submitted t deadline (record att {
    status = AttemptStatus.running;
    claim_token = some token;
    fencing_token = fence;
    lease_until = some (t + lease);
  })
  modify (put_attempt attempt_id att')
  pure (a, att')
