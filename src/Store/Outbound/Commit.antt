-- ===== src/Store/Outbound/Commit.antt =====
-- A claim of a callback row is used up by the first commit.
use subscription_bridge.Prelude.{
  Bytes, true, false, some, ◌≡◌, refl, inl, inr, arith, ℤ, inc64, int_eq, bytes_eqb_refl,
}
use subscription_bridge.Protocol.Errors.{Result, ok, err, of_store, not_owned}
use subscription_bridge.Protocol.Clock.{Time}
use subscription_bridge.Store.Models.{OutboundEvent}
use subscription_bridge.Store.Models.Equality.{delivery_eq}
use subscription_bridge.Store.Table
use subscription_bridge.Store.Table.{get-put}
use subscription_bridge.Store.World.{World}
use subscription_bridge.Store.Outbound.{
  put_outbound, complete_outbound, retry_outbound, dead_letter_outbound, owns_outbound,
  update_owned, completed, retried, dead_lettered,
}
use subscription_bridge.Store.Outbound.Owned.{update_owned_cases, update_owned_lost}

-- The three ways to finish a claim, with the time and the error class that they are given.
pub data Finish : Type 0 where
  complete : Time → Finish
  retry : Time → Bytes → Finish
  dead_letter : Time → Bytes → Finish

unfoldable pub finish : Finish → Bytes → Bytes → ℤ → World → Result (Unit {0}) × World
finish (Finish.complete t) id token fence = complete_outbound id token fence t
finish (Finish.retry t class) id token fence = retry_outbound id token fence t class
finish (Finish.dead_letter t class) id token fence = dead_letter_outbound id token fence t class

-- The row that is written.
abbrev pub finished : Finish → OutboundEvent → OutboundEvent
finished (Finish.complete t) = completed t
finished (Finish.retry t class) = retried t class
finished (Finish.dead_letter t class) = dead_lettered t class

finish-update :
    (k : Finish) (id token : Bytes) (fence : ℤ) (w : World)
    → finish k id token fence w ≡ update_owned id token fence (finished k) w
unfolding finish complete_outbound retry_outbound dead_letter_outbound
finish-update (Finish.complete t) id token fence w = refl
finish-update (Finish.retry t class) id token fence w = refl
finish-update (Finish.dead_letter t class) id token fence w = refl

-- A finished row has no holder.
finished-unowned :
    (k : Finish) (e : OutboundEvent) (token : Bytes) (fence : ℤ)
    → owns_outbound (finished k e) token fence ≡ false
finished-unowned (Finish.complete t) e token fence = ground arith
finished-unowned (Finish.retry t class) e token fence = ground arith
finished-unowned (Finish.dead_letter t class) e token fence = ground arith

-- A commit that succeeds was made by the holder of the pending row, by token and by fence, and it
-- counts one attempt and frees the row; after it every commit on this row, whatever its kind, token
-- and fence, answers `not_owned` and changes nothing.
pub finish-once :
    (k : Finish) (id token : Bytes) (fence : ℤ) (w w' : World)
    → finish k id token fence w ≡ (ok tt, w')
    → (e : OutboundEvent) × (Table.get w.mem.outbound id ≡ some e)
      × (owns_outbound e token fence ≡ true)
      × (Table.get w'.mem.outbound id ≡ some (finished k e))
      × ((finished k e).attempt_count ≡ inc64 e.attempt_count)
      × ((k' : Finish) (token' : Bytes) (fence' : ℤ)
          → finish k' id token' fence' w' ≡ (err (of_store not_owned), w'))
unfolding put_outbound
finish-once k id token fence w w' done = elim (update_owned_cases id token fence (finished k) w) [
  | inl (x, f) ↦ absurd (ground (arith, finish-update k id token fence w))
  | inr (e, row, owned, f) ↦
      let left : record w { mem = put_outbound id (finished k e) w.mem } ≡ w' =
        ground (arith, finish-update k id token fence w) in
      let now : Table.get w'.mem.outbound id ≡ some (finished k e) =
        rw (← left, get-put w.mem.outbound id id (finished k e), bytes_eqb_refl id) refl in
      (
        e,
        row,
        owned,
        now,
        counts k e,
        λ k' token' fence'. rw (finish-update k' id token' fence' w') (
            update_owned_lost id token' fence' (finished k') w' (finished k e) now
              (finished-unowned k e token' fence')),
      )
]
  where
    counts : (k : Finish) (e : OutboundEvent) → (finished k e).attempt_count ≡ inc64 e.attempt_count
    counts (Finish.complete t) e = refl
    counts (Finish.retry t class) e = refl
    counts (Finish.dead_letter t class) e = refl
