-- ===== src/Store/Outbound/Evolution.antt =====
-- How a callback row may change from one method to the next.
use subscription_bridge.Prelude.{
  Bytes, true, false, Option, none, some, ◌≡◌, refl, ◌⊎◌, inl, inr, arith, ℤ, inc64, Bool-cases,
  bytes_eqb, bytes_eqb_iff, ◌==◌, is_some,
}
use subscription_bridge.Protocol.Clock.{Time, Duration}
use subscription_bridge.Store.Models.{OutboundEvent, DeliveryState}
use subscription_bridge.Store.Models.Equality.{delivery_eq}
use subscription_bridge.Store.Table
use subscription_bridge.Store.Table.{get-put}
use subscription_bridge.Store.World.{Memory, World, now}
use subscription_bridge.Store.Cases.{After}
use subscription_bridge.Store.Invariant.{IsWf}
use subscription_bridge.Store.Outbound.Claim.{claim_due_outbound_cases}
use subscription_bridge.Store.Outbound.{
  put_outbound, insert_outbound, claim_due_outbound, complete_outbound, retry_outbound,
  dead_letter_outbound, abandon_outbound, requeue_outbound, update_owned, owns_outbound,
  is_claimable, claimed, completed, retried, dead_lettered, abandoned, requeued, is_requeueable,
}
use subscription_bridge.Store.Outbound.Owned.{
  update_owned_cases, abandon_outbound_cases, requeue_outbound_cases,
}

-- The content of a callback is fixed, its fence goes up by one or stays, and a delivered callback
-- does not change at all.
pub record Evolves (e e' : OutboundEvent) : Type 0 where
  pub same_id : e'.event_id ≡ e.event_id
  pub same_type : e'.event_type ≡ e.event_type
  pub same_ref : e'.subscription_ref ≡ e.subscription_ref
  pub same_version : e'.state_version ≡ e.state_version
  pub same_body : e'.payload_body ≡ e.payload_body
  pub fence : (e'.fencing_token ≡ e.fencing_token) ⊎ (e'.fencing_token ≡ inc64 e.fencing_token)
  pub final : e.delivery_state ≡ DeliveryState.delivered → e' ≡ e

pub Evolves-refl : (e : OutboundEvent) → Evolves e e
Evolves-refl e = record {
  same_id = refl;
  same_type = refl;
  same_ref = refl;
  same_version = refl;
  same_body = refl;
  fence = inl refl;
  final = λ _. refl;
}

-- A row that is there stays there, and evolves.
abbrev pub Later : Option OutboundEvent → Option OutboundEvent → Type 0
Later none o = Unit {0}
Later (some e) none = ⊥
Later (some e) (some e') = Evolves e e'

Later-refl : (o : Option OutboundEvent) → Later o o
Later-refl none = tt
Later-refl (some e) = Evolves-refl e

pub data IsLater (id : Bytes) (m m' : Memory) : Type 0 where
  later : Later (Table.get m.outbound id) (Table.get m'.outbound id) → IsLater id m m'

put_outbound-IsLater :
    (id : Bytes) (m : Memory) (k : Bytes) (e e' : OutboundEvent)
    → Table.get m.outbound k ≡ some e
    → Evolves e e'
    → IsLater id m (put_outbound k e' m)
unfolding put_outbound
put_outbound-IsLater id m k e e' row step = elim (Bool-cases (bytes_eqb k id)) [
  | inl same ↦
      IsLater.later (rw (get-put m.outbound k id e', same, ← (bytes_eqb_iff k id).0 same, row) step)
  | inr other ↦ IsLater.later (rw (get-put m.outbound k id e', other) (Later-refl _))
]

put_new-IsLater :
    (id : Bytes) (m : Memory) (k : Bytes) (e' : OutboundEvent)
    → is_some (Table.get m.outbound k) ≡ false
    → IsLater id m (put_outbound k e' m)
unfolding put_outbound
put_new-IsLater id m k e' absent = elim (Bool-cases (bytes_eqb k id)) [
  | inl same ↦ IsLater.later (
      rw (get-put m.outbound k id e', same, ← (bytes_eqb_iff k id).0 same)
        (go (Table.get m.outbound k) absent))
  | inr other ↦ IsLater.later (rw (get-put m.outbound k id e', other) (Later-refl _))
]
  where
    go : (o : Option OutboundEvent) → is_some o ≡ false → Later o (some e')
    go none h = tt
    go (some e) h = absurd (ground arith)

pub same_outbound-IsLater :
    (id : Bytes) (m m' : Memory) → m'.outbound ≡ m.outbound → IsLater id m m'
same_outbound-IsLater id m m' same = IsLater.later (rw same (Later-refl _))

-- The change that each method makes to its row.
claimed-Evolves :
    (token : Bytes) (until t : Time) (e : OutboundEvent)
    → is_claimable t e ≡ true
    → Evolves e (claimed token until e)
unfolding is_claimable
claimed-Evolves token until t e due = grind arith

completed-Evolves :
    (token : Bytes) (n : ℤ) (t : Time) (e : OutboundEvent)
    → owns_outbound e token n ≡ true
    → Evolves e (completed t e)
completed-Evolves token n t e owned = grind arith

retried-Evolves :
    (token : Bytes) (n : ℤ) (t : Time) (class : Bytes) (e : OutboundEvent)
    → owns_outbound e token n ≡ true
    → Evolves e (retried t class e)
retried-Evolves token n t class e owned = grind arith

dead_lettered-Evolves :
    (token : Bytes) (n : ℤ) (t : Time) (class : Bytes) (e : OutboundEvent)
    → owns_outbound e token n ≡ true
    → Evolves e (dead_lettered t class e)
dead_lettered-Evolves token n t class e owned = grind arith

abandoned-Evolves :
    (t : Time) (e : OutboundEvent)
    → (e.delivery_state == DeliveryState.pending) ≡ true
    → Evolves e (abandoned t e)
abandoned-Evolves t e pending = grind arith

requeued-Evolves :
    (t : Time) (e : OutboundEvent) → is_requeueable e ≡ true → Evolves e (requeued t e)
requeued-Evolves t e closed = grind arith

module _ (id : Bytes) (w : World) where
  same-IsLater : IsLater id w.mem w.mem
  same-IsLater = IsLater.later (Later-refl _)

  pub insert_outbound-IsLater : (e : OutboundEvent) → After (IsLater id w.mem) (insert_outbound e) w
  unfolding insert_outbound now
  insert_outbound-IsLater e = search (put_new-IsLater, same-IsLater, arith)

  pub claim_due_outbound-IsLater :
      (t : Time) (lease : Duration)
      → IsWf w.mem
      → After (IsLater id w.mem) (claim_due_outbound t lease) w
  claim_due_outbound-IsLater t lease v =
      elim (claim_due_outbound_cases t lease w v.outbound.indexed) [
        | inl (_, e) ↦ rw e same-IsLater
        | inr (inl (_, _, _, _, e)) ↦ rw e same-IsLater
        | inr (inr (c, token, _, row, due, _, e)) ↦
            rw e
              (put_outbound-IsLater id w.mem c.event_id c _ row (claimed-Evolves token _ t c due))
      ]

  pub update_owned-IsLater :
      (k token : Bytes) (n : ℤ) (f : OutboundEvent → OutboundEvent)
      → ((e : OutboundEvent) → owns_outbound e token n ≡ true → Evolves e (f e))
      → After (IsLater id w.mem) (update_owned k token n f) w
  update_owned-IsLater k token n f step = elim (update_owned_cases k token n f w) [
    | inl (_, e) ↦ rw e same-IsLater
    | inr (old, row, owned, e) ↦
        rw e (put_outbound-IsLater id w.mem k old (f old) row (step old owned))
  ]

  pub complete_outbound-IsLater :
      (k token : Bytes) (n : ℤ) (t : Time)
      → After (IsLater id w.mem) (complete_outbound k token n t) w
  unfolding complete_outbound
  complete_outbound-IsLater k token n t =
      update_owned-IsLater k token n (completed t) (completed-Evolves token n t)

  pub retry_outbound-IsLater :
      (k token : Bytes) (n : ℤ) (t : Time) (class : Bytes)
      → After (IsLater id w.mem) (retry_outbound k token n t class) w
  unfolding retry_outbound
  retry_outbound-IsLater k token n t class =
      update_owned-IsLater k token n (retried t class) (retried-Evolves token n t class)

  pub dead_letter_outbound-IsLater :
      (k token : Bytes) (n : ℤ) (t : Time) (class : Bytes)
      → After (IsLater id w.mem) (dead_letter_outbound k token n t class) w
  unfolding dead_letter_outbound
  dead_letter_outbound-IsLater k token n t class =
      update_owned-IsLater k token n (dead_lettered t class) (dead_lettered-Evolves token n t class)

  same_table : (m m' : Memory) → m.outbound ≡ m'.outbound → IsLater id w.mem m' → IsLater id w.mem m
  same_table m m' same (IsLater.later h) = IsLater.later (rw same h)

  pub abandon_outbound-IsLater :
      (k reason actor : Bytes) (t : Time)
      → After (IsLater id w.mem) (abandon_outbound k reason actor t) w
  abandon_outbound-IsLater k reason actor t = elim (abandon_outbound_cases k reason actor t w) [
    | inl same ↦ same_outbound-IsLater id w.mem _ same
    | inr (e, row, pending, same) ↦
        same_table _ _ same
          (put_outbound-IsLater id w.mem k e (abandoned t e) row (abandoned-Evolves t e pending))
  ]

  pub requeue_outbound-IsLater :
      (k reason actor : Bytes) (t : Time)
      → After (IsLater id w.mem) (requeue_outbound k reason actor t) w
  requeue_outbound-IsLater k reason actor t = elim (requeue_outbound_cases k reason actor t w) [
    | inl same ↦ same_outbound-IsLater id w.mem _ same
    | inr (e, row, closed, same) ↦
        same_table _ _ same
          (put_outbound-IsLater id w.mem k e (requeued t e) row (requeued-Evolves t e closed))
  ]
