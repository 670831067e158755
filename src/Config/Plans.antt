-- ===== src/Config/Plans.antt =====
-- What a validated catalog promises to the handlers.
use subscription_bridge.Prelude.{
  Bytes, true, false, ◌&&◌, ◌||◌, not, List, [], ◌∷◌, some, ◌≡◌, refl, arith, ◌==◌, bytes_eq,
  bytes_eqb_iff, subst, if◌then◌else◌, pos, ltb_ℤ, ◌⊎◌, inl, inr, Bool-cases,
}
use subscription_bridge.Protocol.Errors.{Result, ok, err, ◌>>=◌, ◌>>◌}
use subscription_bridge.Protocol.Callback.{Platform}
use subscription_bridge.Store.Models.{Family}
use subscription_bridge.Store.Models.Equality.{family_eq}
use subscription_bridge.Store.Table
use subscription_bridge.Store.Table.{Table, find, get-put, get-empty}
use subscription_bridge.Store.Table.Index.Rows.{Distinct, find-tail, find-head}
use subscription_bridge.Config.{
  Plan, Config, Selected, or_family, is_no_family, is_trusted, validate_plan, validate_each,
  validate_plans, resolve_plan, price_map, stripe_price_map, reject_if,
}

-- The first of two checks passed, and so did the second.
both-ok :
    {A : Type 0} (r : Result (Unit {0})) (s : Result A) (a : A)
    → (r >> s) ≡ ok a
    → (r ≡ ok tt) × (s ≡ ok a)
both-ok (ok tt) s a h = (refl, h)
both-ok (err e) s a h = absurd (ground arith)

bind-ok :
    {A B : Type 0} (r : Result A) (f : A → Result B) (b : B)
    → (r >>= f) ≡ ok b
    → (a : A) × (r ≡ ok a) × (f a ≡ ok b)
bind-ok (ok a) f b h = (a, refl, h)
bind-ok (err e) f b h = absurd (ground arith)

-- The plan's processor is selected.
abbrev with_plan : Family → Selected → Plan → Selected
with_plan def s p = record s {
  stripe = s.stripe || or_family p.processor def == Family.stripe;
  adyen = s.adyen || or_family p.processor def == Family.adyen;
}

-- What a plan needs to be sold by a processor.
pub record IsSound (family : Family) (plan : Plan) : Type 0 where
  pub trusted : is_trusted family ≡ true
  pub amount : ltb_ℤ (pos 0) plan.amount_minor ≡ true
  pub currency : (plan.currency == []) ≡ false
  pub price : (family == Family.stripe && plan.stripe_price_id == []) ≡ false
  pub merchant : (family == Family.adyen && plan.merchant_account == []) ≡ false

module _ (os : Platform) where
  validate_plan-IsSound :
      (def : Family) (id : Bytes) (plan : Plan)
      → validate_plan os def id plan ≡ ok tt
      → IsSound (or_family plan.processor def) plan
  unfolding validate_plan
  validate_plan-IsSound def id plan h = record {
    trusted = ground arith;
    amount = ground arith;
    currency = ground arith;
    price = ground arith;
    merchant = ground arith;
  }

  validate_each-plan :
      (def : Family) (s s' : Selected) (rows : List (Bytes × Plan)) (id : Bytes) (plan : Plan)
      → validate_each os def s rows ≡ ok s'
      → find rows id ≡ some plan
      → (key : Bytes) × (validate_plan os def key plan ≡ ok tt)
  unfolding validate_each find
  validate_each-plan def s s' [] id plan h there = absurd (ground arith)
  validate_each-plan def s s' ((k, p) ∷ rest) id plan h there =
      let (first, others) = both-ok (validate_plan os def k p) _ s' h in
      elim (Bool-cases (k == id)) [
        | inl found ↦ (k, subst (λ q. validate_plan os def k q ≡ ok tt) (head found there) first)
        | inr missed ↦
            validate_each-plan def (with_plan def s p) s' rest id plan others (rw missed at there)
      ]
    where
      head : (k == id) ≡ true → (if k == id then some p else find rest id) ≡ some plan → p ≡ plan
      head found there = ground arith

  -- The plans that start-up accepted: whichever of them a token or a subscription names, ResolvePlan
  -- finds it with a processor that the program trusts, a positive amount, a currency, and the price or
  -- the merchant account that this processor needs.
  pub validate_plans-resolve :
      (c : Config) (id : Bytes) (plan : Plan)
      → validate_plans os c ≡ ok tt
      → Table.get c.catalog.plans id ≡ some plan
      → (plan' : Plan) × (family : Family) × (resolve_plan c id ≡ ok (plan', family))
        × (plan'.processor ≡ family)
        × IsSound family plan'
  unfolding validate_plans resolve_plan Table.get
  validate_plans-resolve c id plan valid there =
      let def = or_family c.default_processor c.catalog.default_processor in
      let (named, h₁) = both-ok (reject_if (is_no_family def) _) _ tt valid in
      let (trusted, h₂) = both-ok (reject_if (not (is_trusted def)) _) _ tt h₁ in
      let (s', each, h₃) = bind-ok (validate_each os def _ c.catalog.plans.rows) _ tt h₂ in
      let (key, sound) = validate_each-plan def _ s' c.catalog.plans.rows id plan each there in
      let i = validate_plan-IsSound def key plan sound in
      (
        record plan { processor = or_family plan.processor def },
        or_family plan.processor def,
        rw there refl,
        refl,
        record {
          trusted = i.trusted;
          amount = i.amount;
          currency = i.currency;
          price = i.price;
          merchant = i.merchant;
        },
      )

-- A plan of the rows with the price.
abbrev Priced : List (Bytes × Plan) → Bytes → Bytes → Type 0
Priced rows price id = (plan : Plan) × (find rows id ≡ some plan) × (plan.stripe_price_id ≡ price)

price_map-Priced :
    (rows : List (Bytes × Plan)) (out : Table Bytes) (price id : Bytes)
    → Distinct rows
    → Table.get (price_map out rows) price ≡ some id
    → (Table.get out price ≡ some id) ⊎ Priced rows price id
unfolding price_map
price_map-Priced [] out price id d h = inl h
price_map-Priced ((k, p) ∷ rest) out price id (absent, d) h =
    elim (price_map-Priced rest
      (if p.stripe_price_id == [] then out else Table.put out p.stripe_price_id k) price id d h) [
        | inr (q, there, same) ↦ inr (q, find-tail k id p q rest absent there, same)
        | inl earlier ↦ elim (Bool-cases (p.stripe_price_id == [])) [
          | inl unpriced ↦ inl (rw unpriced at earlier)
          | inr priced ↦
              added (Bool-cases (p.stripe_price_id == price))
                (rw (priced, get-put out p.stripe_price_id price k) at earlier)
        ]
      ]
  where
    key :
        (p.stripe_price_id == price) ≡ true
        → (if p.stripe_price_id == price then some k else Table.get out price) ≡ some id
        → k ≡ id
    key same e = ground arith

    added :
        ((p.stripe_price_id == price) ≡ true) ⊎ ((p.stripe_price_id == price) ≡ false)
        → (if p.stripe_price_id == price then some k else Table.get out price) ≡ some id
        → (Table.get out price ≡ some id) ⊎ Priced ((k, p) ∷ rest) price id
    added (inl same) e = inr (
      p,
      subst (λ j. find ((k, p) ∷ rest) j ≡ some p) (key same e) (find-head k p rest),
      (bytes_eqb_iff p.stripe_price_id price).0 same,
    )
    added (inr other) e = inl (ground arith)

-- Where no two plans of the catalog have the same name: a price that Stripe reports is taken for a
-- plan only if the catalog has that plan under that name with that price.
pub stripe_price_map-plan :
    (c : Config) (price id : Bytes)
    → Distinct c.catalog.plans.rows
    → Table.get (stripe_price_map c) price ≡ some id
    → (plan : Plan) × (Table.get c.catalog.plans id ≡ some plan) × (plan.stripe_price_id ≡ price)
unfolding stripe_price_map Table.get
stripe_price_map-plan c price id d h =
    elim (price_map-Priced c.catalog.plans.rows Table.empty price id d h) [
      | inl nowhere ↦ absurd (ground (arith, rw (get-empty {V = Bytes} price) at nowhere))
      | inr found ↦ found
    ]
