-- ===== src/Scheduler/Overtaken.antt =====
-- Two rounds of the scheduler about the same charge.
use subscription_bridge.Prelude.{
  ◌+◌, Bytes, false, ◌&&◌, Option, none, some, ◌≡◌, ◌≢◌, refl, sym, arith, ◌==◌, bytes_eq, int_eq,
  int_eqb_iff, ℤ, Option-cases, Bool-cases, inl, inr, bytes_eqb_refl,
}
use subscription_bridge.Protocol.Errors.{Result, ok}
use subscription_bridge.Protocol.Clock.{Time, Duration}
use subscription_bridge.Store.Models.{ScheduledAction, ChargeAttempt, AttemptStatus}
use subscription_bridge.Store.Table
use subscription_bridge.Store.Table.{get-put}
use subscription_bridge.Store.World.{World, ◌>>=◌}
use subscription_bridge.Store.Keeps.{bind-ok, in_tx-ok}
use subscription_bridge.Store.Actions.{claim_action, owns_action}
use subscription_bridge.Store.Attempts.{
  claim_attempt_with_action, put_attempt, submitted, get_attempt,
}
use subscription_bridge.Store.Subscriptions.{points_to}
use subscription_bridge.Adapters.{RenewalResult}
use subscription_bridge.Scheduler.Charges.{
  Scheduler, claim_both, claim_with, lease, resolution_deadline, or_empty,
}
use subscription_bridge.Scheduler.Outcomes.{store_outcome}

submitted-fence :
    (t deadline : Time) (a : ChargeAttempt)
    → (submitted t deadline a).fencing_token ≡ a.fencing_token
submitted-fence t deadline a = elim (Option-cases a.first_submitted_at) [
  | inl first ↦ rw first refl
  | inr (before, again) ↦ rw again refl
]

-- What a claim of an attempt stores.
claim_attempt-fence :
    (i j token : Bytes) (fence : ℤ) (t deadline : Time) (d : Duration) (w w' : World)
    (a : ScheduledAction) (att : ChargeAttempt)
    → claim_attempt_with_action i j token fence t d deadline w ≡ (ok (a, att), w')
    → (Table.get w'.mem.attempts j ≡ some att)
      × (att.fencing_token ≡ fence)
      × (a.fencing_token ≡ fence)
unfolding claim_attempt_with_action put_attempt
claim_attempt-fence i j token fence t deadline d w w' a att h =
    elim (Option-cases (Table.get w.mem.actions i)) [
      | inl absent ↦ absurd (ground (arith, rw (absent, claim_attempt_with_action) at h))
      | inr (x, there) ↦ elim (Bool-cases (owns_action x token fence)) [
        | inr other ↦ absurd (ground (arith, rw (there, other, claim_attempt_with_action) at h))
        | inl ours ↦ elim (Option-cases (Table.get w.mem.attempts j)) [
          | inl missing ↦
              absurd (ground (arith, rw (there, ours, missing, claim_attempt_with_action) at h))
          | inr (old, stored) ↦
              let row = record old {
                status = AttemptStatus.running;
                claim_token = some token;
                fencing_token = fence;
                lease_until = some (t + d);
              } in
              let made : ◌≡◌ {A = Result (ScheduledAction × ChargeAttempt) × World}
                  (
                    ok (x, submitted t deadline row),
                    record w { mem = put_attempt j (submitted t deadline row) w.mem },
                  )
                  (ok (a, att), w') =
                rw (there, ours, stored, claim_attempt_with_action) at h in
              let returned : att ≡ submitted t deadline row = ground arith in
              let left : w' ≡ record w { mem = put_attempt j (submitted t deadline row) w.mem } =
                ground arith in
              (
                rw
                    (
                      left,
                      returned,
                      get-put w.mem.attempts j j (submitted t deadline row),
                      bytes_eqb_refl j,
                    )
                    refl,
                rw returned (submitted-fence t deadline row),
                ground (arith, int_eqb_iff x.fencing_token fence),
              )
        ]
      ]
    ]

claim_with-fence :
    (s : Scheduler) (x : ScheduledAction) (attempt : ChargeAttempt) (t : Time) (o : Option Bytes)
    (w w' : World) (a : ScheduledAction) (att : ChargeAttempt)
    → claim_with s x attempt t o w ≡ (ok (a, att), w')
    → (Table.get w'.mem.attempts attempt.attempt_id ≡ some att)
      × (att.fencing_token ≡ a.fencing_token)
unfolding claim_with
claim_with-fence s x attempt t none w w' a att h = absurd (ground arith)
claim_with-fence s x attempt t (some token) w w' a att h =
    let (stored, fence, fence') =
      claim_attempt-fence x.action_id attempt.attempt_id token x.fencing_token t
        (resolution_deadline s t) (lease s) w w' a att h in
    (stored, rw fence (sym fence'))

-- A charge that is claimed again: the answer to the earlier submission, which was claimed with another
-- fence, changes nothing when it arrives, whatever it says.
pub store_outcome-overtaken :
    (s s' : Scheduler) (action late : ScheduledAction) (attempt : ChargeAttempt)
    (answer : Result RenewalResult) (t t' : Time) (w w' : World) (a : ScheduledAction)
    (att : ChargeAttempt)
    → claim_both s action attempt t w ≡ (ok (a, att), w')
    → a.fencing_token ≢ late.fencing_token
    → store_outcome s' late attempt answer t' w' ≡ (ok tt, w')
unfolding claim_both store_outcome get_attempt
store_outcome-overtaken s s' action late attempt answer t t' w w' a att h other =
    let inside =
      in_tx-ok
        (claim_action action.action_id t (lease s) >>= λ claimed.
          claim_with s claimed attempt t claimed.claim_token)
        w (a, att) w' h in
    let (claimed, u, first, second) =
      bind-ok (claim_action action.action_id t (lease s)) _ w (a, att) w' inside in
    let (stored, same) =
      claim_with-fence s claimed attempt t claimed.claim_token u w' a att second in
    let lost : (points_to att.claim_token (or_empty late.claim_token)
          && att.fencing_token == late.fencing_token)
        ≡ false =
      rw same (ground (arith, int_eqb_iff a.fencing_token late.fencing_token)) in
    rw (stored, lost) refl
