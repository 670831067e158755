-- ===== src/Store/Safe/Rows.antt =====
-- A row that was read, written back while others use the store: its key and what is unique to it are
-- those of a stored row, then and later.
use subscription_bridge.Prelude.{
  Bytes, Bool, List, Option, none, some, ◌≡◌, refl, sym, ◌∙◌, find?, keep, Every, Every-map,
  Every-sort, Every-keep, ◌==◌, bytes_eq,
}
use subscription_bridge.Protocol.Errors.{Error, of_store, not_found}
use subscription_bridge.Store.Models.{Checkout, Subscription, ChargeAttempt, Family}
use subscription_bridge.Store.Table
use subscription_bridge.Store.Table.{Table}
use subscription_bridge.Store.Table.Index.{IsIndexed, find?-get, values-Every}
use subscription_bridge.Store.World.{Memory, World, gets, or_fail}
use subscription_bridge.Store.Invariant.{
  IsWf, checkout_key, sub_key, attempt_key, idempotency_of, checkout_of,
}
use subscription_bridge.Store.Checkouts.{get_checkout}
use subscription_bridge.Store.Subscriptions.{
  get_subscription, get_subscription_by_checkout, get_subscription_by_processor,
  get_subscription_by_initial_payment, get_subscription_by_charge_payment, points_to,
}
use subscription_bridge.Store.Attempts.{
  get_attempt, get_attempt_by_reference, get_attempts_for_action, numbered_before,
}
use subscription_bridge.Store.Safe.Growth.{Persists, charge_of}
use subscription_bridge.Store.Safe.{Leads, Any, Step, Step-refl, bind-Leads}

-- Under the key of `v` stands a row with the same field `f`.
abbrev pub Has : {V X : Type 0} → (V → Bytes) → (V → X) → Table V → V → Type 0
Has {V = V} key f t v = (w : V) × (Table.get t (key v) ≡ some w) × (f v ≡ f w)

pub record HasCheckout (c : Checkout) (m : Memory) : Type 0 where
  pub row : Has checkout_key idempotency_of m.checkouts c

pub record HasSub (s : Subscription) (m : Memory) : Type 0 where
  pub row : Has sub_key checkout_of m.subs s

pub record HasAttempt (a : ChargeAttempt) (m : Memory) : Type 0 where
  pub row : Has attempt_key charge_of m.attempts a

module _ {V X : Type 0} (key : V → Bytes) (f : V → X) where
  Has-later : (t t' : Table V) (v : V) → Persists f t t' → Has key f t v → Has key f t' v
  Has-later t t' v p (w, there, same) =
      let (w', there', same') = p (key v) w there in (w', there', same ∙ sym same')

  Has-get :
      (t : Table V) (k : Bytes) (v : V) → IsIndexed key t → Table.get t k ≡ some v → Has key f t v
  Has-get t k v i there = (v, rw (i.keyed k v there) there, refl)

pub HasCheckout-later :
    (c : Checkout) (w u : World) → Step w u → HasCheckout c w.mem → HasCheckout c u.mem
HasCheckout-later c w u s h = record {
  row =
      Has-later checkout_key idempotency_of w.mem.checkouts u.mem.checkouts c s.grows.checkouts
        h.row;
}

pub HasSub-later : (s : Subscription) (w u : World) → Step w u → HasSub s w.mem → HasSub s u.mem
HasSub-later x w u s h = record {
  row = Has-later sub_key checkout_of w.mem.subs u.mem.subs x s.grows.subs h.row;
}

pub HasAttempt-later :
    (a : ChargeAttempt) (w u : World) → Step w u → HasAttempt a w.mem → HasAttempt a u.mem
HasAttempt-later a w u s h = record {
  row = Has-later attempt_key charge_of w.mem.attempts u.mem.attempts a s.grows.attempts h.row;
}

-- A change that keeps the key and the field.
pub HasSub-same :
    (s n : Subscription) (m : Memory)
    → sub_key n ≡ sub_key s
    → checkout_of n ≡ checkout_of s
    → HasSub s m
    → HasSub n m
HasSub-same s n m key same h =
    let (w, there, e) = h.row in record { row = (w, rw key there, same ∙ e) }

-- A query by key, or by a test of the rows.
or_fail-Leads :
    {V : Type 0} (Q : V → Memory → Type 0) (found : Option V) (e : Error) (w : World)
    → IsWf w.mem
    → ((v : V) → found ≡ some v → Q v w.mem)
    → Leads Q (or_fail found e) w
or_fail-Leads Q none e w v q = record { ends = Step-refl w v }
or_fail-Leads Q (some a) e w v q = record { ends = (Step-refl w v, q a refl) }

gets-Leads : {V : Type 0} (f : Memory → V) (w : World) → IsWf w.mem → Leads Any (gets f) w
gets-Leads f w v = record { ends = (Step-refl w v, tt) }

pub get_checkout-Leads :
    (id : Bytes) (w : World) → IsWf w.mem → Leads HasCheckout (get_checkout id) w
unfolding get_checkout
get_checkout-Leads id w v = record {
  ends =
      (or_fail-Leads HasCheckout (Table.get w.mem.checkouts id) (of_store not_found) w v (λ c there.
        record {
          row = Has-get checkout_key idempotency_of w.mem.checkouts id c v.checkouts.indexed there;
        })).ends;
}

pub get_subscription-Leads :
    (ref : Bytes) (w : World) → IsWf w.mem → Leads HasSub (get_subscription ref) w
unfolding get_subscription
get_subscription-Leads ref w v = record {
  ends =
      (or_fail-Leads HasSub (Table.get w.mem.subs ref) (of_store not_found) w v (λ s there. record {
        row = Has-get sub_key checkout_of w.mem.subs ref s v.subs.indexed there;
      })).ends;
}

pub get_attempt-Leads : (id : Bytes) (w : World) → IsWf w.mem → Leads HasAttempt (get_attempt id) w
unfolding get_attempt
get_attempt-Leads id w v = record {
  ends =
      (or_fail-Leads HasAttempt (Table.get w.mem.attempts id) (of_store not_found) w v (λ a there.
        record {
          row = Has-get attempt_key charge_of w.mem.attempts id a v.attempts.indexed there;
        })).ends;
}

find_sub-Leads :
    (p : Subscription → Bool) (w : World)
    → IsWf w.mem
    → Leads HasSub (or_fail (find? p (Table.values w.mem.subs)) (of_store not_found)) w
find_sub-Leads p w v =
    or_fail-Leads HasSub (find? p (Table.values w.mem.subs)) (of_store not_found) w v (λ s there.
      record { row = (s, (find?-get sub_key p w.mem.subs s v.subs.indexed there).0, refl) })

pub get_subscription_by_checkout-Leads :
    (id : Bytes) (w : World) → IsWf w.mem → Leads HasSub (get_subscription_by_checkout id) w
unfolding get_subscription_by_checkout
get_subscription_by_checkout-Leads id w v = record {
  ends = (find_sub-Leads (λ s. s.checkout_id == id) w v).ends;
}

pub get_subscription_by_processor-Leads :
    (f : Family) (id : Bytes) (w : World)
    → IsWf w.mem
    → Leads HasSub (get_subscription_by_processor f id) w
unfolding get_subscription_by_processor
get_subscription_by_processor-Leads f id w v = record { ends = (find_sub-Leads _ w v).ends }

pub get_subscription_by_initial_payment-Leads :
    (f : Family) (id : Bytes) (w : World)
    → IsWf w.mem
    → Leads HasSub (get_subscription_by_initial_payment f id) w
unfolding get_subscription_by_initial_payment
get_subscription_by_initial_payment-Leads f id w v = record { ends = (find_sub-Leads _ w v).ends }

pub get_attempt_by_reference-Leads :
    (ref : Bytes) (w : World) → IsWf w.mem → Leads HasAttempt (get_attempt_by_reference ref) w
unfolding get_attempt_by_reference
get_attempt_by_reference-Leads ref w v = record {
  ends =
      (or_fail-Leads HasAttempt
        (find? (λ (a : ChargeAttempt). a.attempt_reference == ref) (Table.values w.mem.attempts))
        (of_store not_found) w v
        (λ a there. record {
          row = (a, (find?-get attempt_key _ w.mem.attempts a v.attempts.indexed there).0, refl);
        })).ends;
}

pub get_subscription_by_charge_payment-Leads :
    (id : Bytes) (w : World) → IsWf w.mem → Leads HasSub (get_subscription_by_charge_payment id) w
unfolding get_subscription_by_charge_payment
get_subscription_by_charge_payment-Leads id w v =
    bind-Leads {Q = Any} (gets-Leads (λ m. Table.values m.attempts) w v) (λ rows u s q.
      bind-Leads {Q = Any}
        (or_fail-Leads Any (find? (λ (a : ChargeAttempt). points_to a.processor_payment_id id) rows)
          (of_store not_found) u s.wf (λ a there. tt))
        (λ a x t q'. get_subscription-Leads a.subscription_ref x t.wf))

-- The attempts of an action are stored attempts.
abbrev pub HasAll : List ChargeAttempt → Memory → Type 0
HasAll xs m = Every (λ a. HasAttempt a m) xs

pub get_attempts_for_action-Leads :
    (id : Bytes) (w : World) → IsWf w.mem → Leads HasAll (get_attempts_for_action id) w
unfolding get_attempts_for_action
get_attempts_for_action-Leads id w v =
    let mine : ChargeAttempt → Bool = λ a. a.action_id == id in
    let held : HasAll (Table.values w.mem.attempts) w.mem =
      Every-map (Table.values w.mem.attempts) (λ a there. record { row = (a, there, refl) })
        (values-Every attempt_key w.mem.attempts v.attempts.indexed) in
    record {
      ends = (
        Step-refl w v,
        Every-sort (λ a. HasAttempt a w.mem) numbered_before
            (keep mine (Table.values w.mem.attempts))
            (Every-keep (λ a. HasAttempt a w.mem) mine (Table.values w.mem.attempts) held),
      );
    }
