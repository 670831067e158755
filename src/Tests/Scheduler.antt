-- ===== src/Tests/Scheduler.antt =====
-- Rounds of the scheduler at sample rows.
use subscription_bridge.Prelude.{
  ◌+◌, false, ◌≡◌, refl, arith, bytes, [], ◌∷◌, some, none, pos, inc64, bytes_eqb,
}
use subscription_bridge.Protocol.Errors.{ok}
use subscription_bridge.Protocol.Clock.{truncate_utc}
use subscription_bridge.Protocol.Identifier.{claim_token, stamp, format_uuid, hex}
use subscription_bridge.Store.Models.{
  Subscription, ScheduledAction, ChargeAttempt, ActionType, ActionStatus, AttemptStatus,
}
use subscription_bridge.Store.Table
use subscription_bridge.Store.World.{World, empty_memory, in_tx, settle, new_token}
use subscription_bridge.Store.Actions.{put_action, claim_action}
use subscription_bridge.Store.Attempts.{put_attempt, claim_attempt_with_action, submitted}
use subscription_bridge.Scheduler.{prepare_due}
use subscription_bridge.Scheduler.Charges.{
  Scheduler, claim_both, claim_with, lease, resolution_deadline,
}
use subscription_bridge.Scheduler.Outcomes.{store_outcome}
use subscription_bridge.Scheduler.Overtaken.{store_outcome-overtaken}
use subscription_bridge.Tests.Samples.{start, noon}
use subscription_bridge.Tests.Stores.{token}
use subscription_bridge.Tests.Transitions.{subscribed}
use subscription_bridge.Tests.Engines.{quiet, engine, charge}

abbrev scheduler : Scheduler
scheduler = record {
  engine = engine;
  adyen = quiet;
  payments_url = [];
  set_lease = 0;
  json_string = λ s. s;
  upper = λ s. s;
}

abbrev renewal : ScheduledAction
renewal = record {
  action_id = bytes "a1";
  action_key = bytes "act_1";
  subscription_ref = bytes "sub_1";
  action_type = ActionType.renew;
  target_at = 5;
  due_at = 5;
  status = ActionStatus.pending;
  claim_token = none;
  fencing_token = pos 0;
  lease_until = none;
  last_error_class = none;
}

-- A store with a renewal that is due, an attempt for it and the subscription.
abbrev stocked : Subscription → World
stocked sub = record start {
  mem = record empty_memory {
    subs = record { rows = (bytes "sub_1", sub) ∷ [] };
    actions = record { rows = (bytes "a1", renewal) ∷ [] };
    attempts = record { rows = (bytes "att_1", charge) ∷ [] };
  };
}

abbrev claimed_world : World
claimed_world = (claim_both scheduler renewal charge noon (stocked subscribed)).1

abbrev taken : ScheduledAction
taken = record renewal {
  status = ActionStatus.running;
  claim_token = some token;
  fencing_token = pos 1;
  lease_until = some (noon + 120000000000);
}

abbrev running : ChargeAttempt
running = submitted noon (noon + 518400000000000) (record charge {
  status = AttemptStatus.running;
  claim_token = some token;
  fencing_token = pos 1;
  lease_until = some (noon + 120000000000);
})

claiming :
    claim_both scheduler renewal charge noon (stocked subscribed)
    ≡ (ok (taken, running), claimed_world)
unfolding claim_both claim_with claim_action claim_attempt_with_action put_action put_attempt lease
    resolution_deadline in_tx settle new_token claim_token stamp format_uuid hex truncate_utc inc64
    bytes_eqb Table.get Table.find Table.put Table.store Table.values
claiming = refl

store_outcome-overtaken_example :
    store_outcome scheduler renewal charge
      (ok (record {
        status = AttemptStatus.authorized;
        processor_payment_id = bytes "psp_1";
        refusal_code = [];
        is_uncertain = false;
      }))
      noon
      claimed_world
    ≡ (ok tt, claimed_world)
store_outcome-overtaken_example =
    store_outcome-overtaken scheduler scheduler renewal renewal charge
      (ok (record {
        status = AttemptStatus.authorized;
        processor_payment_id = bytes "psp_1";
        refusal_code = [];
        is_uncertain = false;
      }))
      noon noon (stocked subscribed) claimed_world taken running claiming
      (λ h. absurd (ground arith))

abbrev prepared_world : World
prepared_world = (prepare_due scheduler (stocked subscribed)).1
