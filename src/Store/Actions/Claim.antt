-- ===== src/Store/Actions/Claim.antt =====
-- What ClaimAction does, case by case.
use subscription_bridge.Prelude.{
  ◌+◌, suc, Bytes, true, some, ◌≡◌, refl, ◌⊎◌, inl, inr, Option-cases, Bool-cases,
}
use subscription_bridge.Protocol.Errors.{
  Error, ok, err, of_store, of_protocol, not_found, not_owned, automatic_charge_blocked,
  Result-cases,
}
use subscription_bridge.Protocol.Clock.{Time, Duration}
use subscription_bridge.Store.Models.{ScheduledAction}
use subscription_bridge.Store.Table
use subscription_bridge.Store.Table.Index.{IsIndexed}
use subscription_bridge.Store.World.{World, new_token}
use subscription_bridge.Store.Invariant.{action_key}
use subscription_bridge.Store.Outbound.Claim.{bump, fresh_token}
use subscription_bridge.Store.Actions.{
  put_action, claim_action, claimed_action, is_takeable, charge_allowed,
}

abbrev pub after_claim : Bytes → Time → Bytes → ScheduledAction → World → World
after_claim token until id a w = record w {
  mem = put_action id (claimed_action token until a) w.mem;
  reads = suc w.reads;
}

-- The claim fails and the store stays as it is; or the row under `id` may be taken and charged, and
-- is claimed.
pub claim_action_cases :
    (id : Bytes) (t : Time) (lease : Duration) (w : World)
    → IsIndexed action_key w.mem.actions
    → ((e : Error) × (u : World) × (u.mem ≡ w.mem) × (claim_action id t lease w ≡ (err e, u)))
      ⊎ ((a : ScheduledAction) × (token : Bytes) × (Table.get w.mem.actions id ≡ some a)
          × (is_takeable a t ≡ true)
          × (charge_allowed w.mem a ≡ true)
          × (fresh_token w ≡ ok token)
          × (claim_action id t lease w
              ≡ (ok (claimed_action token (t + lease) a), after_claim token (t + lease) id a w)))
unfolding claim_action new_token
claim_action_cases id t lease w indexed = elim (Option-cases (Table.get w.mem.actions id)) [
  | inl absent ↦ inl (of_store not_found, w, refl, rw (absent, claim_action))
  | inr (a, row) ↦ elim (Bool-cases (is_takeable a t)) [
    | inr busy ↦ inl (of_store not_owned, w, refl, rw (row, busy, claim_action))
    | inl free ↦ elim (Bool-cases (charge_allowed w.mem a)) [
      | inr blocked ↦
          inl (of_protocol automatic_charge_blocked, w, refl, rw (row, free, blocked, claim_action))
      | inl allowed ↦ elim (Result-cases (fresh_token w)) [
        | inr (e, failed) ↦ inl (e, bump w, refl, rw (row, free, allowed, failed, claim_action))
        | inl (token, drawn) ↦ inr (
          a,
          token,
          row,
          free,
          allowed,
          drawn,
          rw (row, free, allowed, drawn, indexed.keyed id a row, claim_action),
        )
      ]
    ]
  ]
]
