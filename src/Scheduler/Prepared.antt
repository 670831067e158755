-- ===== src/Scheduler/Prepared.antt =====
-- What runRenew prepares to charge.
use subscription_bridge.Prelude.{true, ◌≡◌, bytes_eq, int_eq}
use subscription_bridge.Protocol.Errors.{Error}
use subscription_bridge.Store.Models.{ScheduledAction, ChargeAttempt}
use subscription_bridge.Store.Table
use subscription_bridge.Store.Table.{get-put}
use subscription_bridge.Store.World.{World}
use subscription_bridge.Store.Attempts.{get_attempts_for_action}
use subscription_bridge.Scheduler.Charges.{Scheduler, is_open_attempt}
use subscription_bridge.Store.Models.Equality.{attempt_status_eq}
use subscription_bridge.Store.Attempts.{get_attempts_for_action}
use subscription_bridge.Protocol.Errors.{Error}

-- An attempt of the action that is not finished.
abbrev pub IsOpenFor : ScheduledAction → ChargeAttempt → Type 0
IsOpenFor action a = (a.action_id ≡ action.action_id) × (is_open_attempt a ≡ true)
