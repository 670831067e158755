-- ===== src/Tests/Stores.antt =====
-- Histories of the store and claims in it, at sample rows.
use subscription_bridge.Prelude.{
  least, inc64, bytes_eqb, ◌+◌, ◌≡◌, ◌≢◌, refl, Bytes, bytes, [], ◌∷◌, List, some, ℤ, pos, arith,
  true, ◌≤◌,
}
use subscription_bridge.Protocol.Errors.{ok, err, of_store, not_owned}
use subscription_bridge.Protocol.Clock.{truncate_utc}
use subscription_bridge.Protocol.Identifier.{claim_token, stamp, format_uuid, hex}
use subscription_bridge.Store.Models.{OutboundEvent}
use subscription_bridge.Store.Table
use subscription_bridge.Store.World.{World, in_tx, settle, now, new_token}
use subscription_bridge.Store.Cases.{After}
use subscription_bridge.Store.Invariant.{IsWf}
use subscription_bridge.Store.Calls.{Call, perform, perform_all, serve}
use subscription_bridge.Store.Calls.Invariant.{serve-IsWf, empty_memory-IsWf}
use subscription_bridge.Store.Calls.Callbacks.{IsKept, serve-IsKept, perform-IsLater}
use subscription_bridge.Store.Outbound.{
  put_outbound, update_owned, owned_outbound, insert_outbound, claim_due_outbound,
  complete_outbound, retry_outbound, dead_letter_outbound, is_claimable, claimed, owns_outbound,
}
use subscription_bridge.Store.Outbound.Evolution.{IsLater}
use subscription_bridge.Store.Outbound.Fencing.{
  claim-stale, claim-exclusive, claim-earliest, due_at,
}
use subscription_bridge.Store.Outbound.Commit.{Finish, finish, finished, finish-once}
use subscription_bridge.Store.Invariant.Outbound.{claim_due_outbound-IsWf}
use subscription_bridge.Tests.Samples.{start, callback, later_callback, noon}

-- Two callbacks are stored; one of them once more, which fails.
abbrev history : List (List Call)
history =
    (Call.insert_outbound callback ∷ Call.insert_outbound later_callback ∷ [])
    ∷ (Call.claim_due_outbound noon 1000 ∷ Call.insert_outbound callback ∷ [])
    ∷ []

serve-IsWf_example : IsWf (serve history start).mem
serve-IsWf_example =
    serve-IsWf history start ((tt, (tt, tt)), ((tt, (tt, tt)), tt)) empty_memory-IsWf

-- The store after that history.
abbrev pub stocked : World
stocked = serve history start

serve-IsKept_example : IsKept (bytes "evt_1") stocked.mem (serve history stocked).mem
serve-IsKept_example =
    serve-IsKept (bytes "evt_1") history stocked ((tt, (tt, tt)), ((tt, (tt, tt)), tt))
      (serve-IsWf history start ((tt, (tt, tt)), ((tt, (tt, tt)), tt)) empty_memory-IsWf)

pub stocked-IsWf : IsWf stocked.mem
stocked-IsWf = serve-IsWf history start ((tt, (tt, tt)), ((tt, (tt, tt)), tt)) empty_memory-IsWf

perform-IsLater_example :
    After
      (IsLater (bytes "evt_1") stocked.mem)
      (perform (Call.claim_due_outbound noon 1000))
      stocked
perform-IsLater_example =
    perform-IsLater (bytes "evt_1") stocked (Call.claim_due_outbound noon 1000) stocked-IsWf

abbrev pub token : Bytes
token = bytes "01020304-0506-4708-890a-0b0c0d0e0fff"

abbrev pub held : OutboundEvent
held = claimed token (noon + 1000) (record callback { created_at = noon })

abbrev held_world : World
held_world = (claim_due_outbound noon 1000 stocked).1

first_claim : claim_due_outbound noon 1000 stocked ≡ (ok held, held_world)
unfolding claim_due_outbound least Table.values serve in_tx settle perform_all perform
    insert_outbound Table.get Table.empty Table.put Table.find Table.store put_outbound now
    new_token claim_token stamp format_uuid hex truncate_utc is_claimable inc64 bytes_eqb
first_claim = refl

claim-stale_example :
    (old : OutboundEvent) × (Table.get stocked.mem.outbound (bytes "evt_1") ≡ some old)
    × (complete_outbound (bytes "evt_1") (bytes "t") old.fencing_token noon held_world
        ≡ (err (of_store not_owned), held_world))
    × (retry_outbound (bytes "evt_1") (bytes "t") old.fencing_token noon (bytes "x") held_world
        ≡ (err (of_store not_owned), held_world))
    × (dead_letter_outbound
          (bytes "evt_1")
          (bytes "t")
          old.fencing_token
          noon
          (bytes "x")
          held_world
        ≡ (err (of_store not_owned), held_world))
claim-stale_example =
    claim-stale noon 1000 stocked held held_world stocked-IsWf first_claim (bytes "t") noon
      (bytes "x")

abbrev held_too : OutboundEvent
held_too = claimed token (noon + 1010) (record later_callback { created_at = noon })

abbrev world_too : World
world_too = (claim_due_outbound (noon + 10) 1000 held_world).1

second_claim : claim_due_outbound (noon + 10) 1000 held_world ≡ (ok held_too, world_too)
unfolding claim_due_outbound least Table.values serve in_tx settle perform_all perform
    insert_outbound Table.get Table.empty Table.put Table.find Table.store put_outbound now
    new_token claim_token stamp format_uuid hex truncate_utc is_claimable inc64 bytes_eqb
second_claim = refl

held_world-IsWf : IsWf held_world.mem
held_world-IsWf = claim_due_outbound-IsWf noon 1000 stocked stocked-IsWf

claim-exclusive_example : bytes "evt_2" ≢ bytes "evt_1"
claim-exclusive_example =
    claim-exclusive noon 1000 stocked held held_world stocked-IsWf first_claim (noon + 10) 1000
      held_too world_too held_world-IsWf second_claim (omega arith)

claim-earliest_example :
    (old : OutboundEvent) × (Table.get stocked.mem.outbound (bytes "evt_1") ≡ some old)
    × (is_claimable noon old ≡ true)
    × (held.lease_until ≡ some (noon + 1000))
    × (held.fencing_token ≡ inc64 old.fencing_token)
    × ((k : Bytes) (x : OutboundEvent)
        → Table.get stocked.mem.outbound k ≡ some x
        → is_claimable noon x ≡ true
        → due_at old ≤ due_at x)
claim-earliest_example = claim-earliest noon 1000 stocked held held_world stocked-IsWf first_claim

abbrev done_world : World
done_world = (complete_outbound (bytes "evt_1") token (pos 1) noon held_world).1

finish_done :
    finish (Finish.complete noon) (bytes "evt_1") token (pos 1) held_world ≡ (ok tt, done_world)
unfolding claim_due_outbound least Table.values serve in_tx settle perform_all perform
    insert_outbound Table.get Table.empty Table.put Table.find Table.store put_outbound now
    new_token claim_token stamp format_uuid hex truncate_utc is_claimable inc64 bytes_eqb finish
    complete_outbound update_owned owned_outbound
finish_done = refl

finish-once_example :
    (e : OutboundEvent) × (Table.get held_world.mem.outbound (bytes "evt_1") ≡ some e)
    × (owns_outbound e token (pos 1) ≡ true)
    × (Table.get done_world.mem.outbound (bytes "evt_1") ≡ some (finished (Finish.complete noon) e))
    × ((finished (Finish.complete noon) e).attempt_count ≡ inc64 e.attempt_count)
    × ((k' : Finish) (token' : Bytes) (fence' : ℤ)
        → finish k' (bytes "evt_1") token' fence' done_world
          ≡ (err (of_store not_owned), done_world))
finish-once_example =
    finish-once (Finish.complete noon) (bytes "evt_1") token (pos 1) held_world done_world
      finish_done
