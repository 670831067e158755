-- ===== src/Store/Models/Equality.antt =====
-- Go's `==` on the status strings that the rows hold.
use subscription_bridge.Prelude.{
  Bool, true, false, ◌==◌, bytes_eq, Eq, ◌↔◌, ◌≡◌, arith, bytes_eqb_iff,
}
use subscription_bridge.Store.Models.{
  CheckoutStatus, DeliveryState, ActionType, ActionStatus, AttemptStatus, ProcessingState,
  LeaseStatus, Family,
}

abbrev pub delivery_eqb : DeliveryState → DeliveryState → Bool
delivery_eqb DeliveryState.pending DeliveryState.pending = true
delivery_eqb DeliveryState.delivered DeliveryState.delivered = true
delivery_eqb DeliveryState.dead_lettered DeliveryState.dead_lettered = true
delivery_eqb DeliveryState.abandoned DeliveryState.abandoned = true
delivery_eqb (DeliveryState.other a) (DeliveryState.other b) = a == b
delivery_eqb _ _ = false

pub delivery_eqb_iff : (a b : DeliveryState) → (delivery_eqb a b ≡ true) ↔ (a ≡ b)
delivery_eqb_iff (DeliveryState.other a) (DeliveryState.other b) = ground (arith, bytes_eqb_iff a b)
delivery_eqb_iff a b = ground arith

instance abbrev pub delivery_eq : Eq DeliveryState
delivery_eq = record { equals = delivery_eqb; equals_iff = delivery_eqb_iff }

abbrev pub action_type_eqb : ActionType → ActionType → Bool
action_type_eqb ActionType.renew ActionType.renew = true
action_type_eqb ActionType.expire ActionType.expire = true
action_type_eqb (ActionType.other a) (ActionType.other b) = a == b
action_type_eqb _ _ = false

pub action_type_eqb_iff : (a b : ActionType) → (action_type_eqb a b ≡ true) ↔ (a ≡ b)
action_type_eqb_iff (ActionType.other a) (ActionType.other b) = ground (arith, bytes_eqb_iff a b)
action_type_eqb_iff a b = ground arith

instance abbrev pub action_type_eq : Eq ActionType
action_type_eq = record { equals = action_type_eqb; equals_iff = action_type_eqb_iff }

abbrev pub action_status_eqb : ActionStatus → ActionStatus → Bool
action_status_eqb ActionStatus.pending ActionStatus.pending = true
action_status_eqb ActionStatus.running ActionStatus.running = true
action_status_eqb ActionStatus.uncertain ActionStatus.uncertain = true
action_status_eqb ActionStatus.completed ActionStatus.completed = true
action_status_eqb ActionStatus.canceled ActionStatus.canceled = true
action_status_eqb ActionStatus.manual_review ActionStatus.manual_review = true
action_status_eqb (ActionStatus.other a) (ActionStatus.other b) = a == b
action_status_eqb _ _ = false

pub action_status_eqb_iff : (a b : ActionStatus) → (action_status_eqb a b ≡ true) ↔ (a ≡ b)
action_status_eqb_iff (ActionStatus.other a) (ActionStatus.other b) =
    ground (arith, bytes_eqb_iff a b)
action_status_eqb_iff a b = ground arith

instance abbrev pub action_status_eq : Eq ActionStatus
action_status_eq = record { equals = action_status_eqb; equals_iff = action_status_eqb_iff }

abbrev pub attempt_status_eqb : AttemptStatus → AttemptStatus → Bool
attempt_status_eqb AttemptStatus.prepared AttemptStatus.prepared = true
attempt_status_eqb AttemptStatus.running AttemptStatus.running = true
attempt_status_eqb AttemptStatus.uncertain AttemptStatus.uncertain = true
attempt_status_eqb AttemptStatus.authorized AttemptStatus.authorized = true
attempt_status_eqb AttemptStatus.refused AttemptStatus.refused = true
attempt_status_eqb AttemptStatus.canceled AttemptStatus.canceled = true
attempt_status_eqb AttemptStatus.manual_review AttemptStatus.manual_review = true
attempt_status_eqb (AttemptStatus.other a) (AttemptStatus.other b) = a == b
attempt_status_eqb _ _ = false

pub attempt_status_eqb_iff : (a b : AttemptStatus) → (attempt_status_eqb a b ≡ true) ↔ (a ≡ b)
attempt_status_eqb_iff (AttemptStatus.other a) (AttemptStatus.other b) =
    ground (arith, bytes_eqb_iff a b)
attempt_status_eqb_iff a b = ground arith

instance abbrev pub attempt_status_eq : Eq AttemptStatus
attempt_status_eq = record { equals = attempt_status_eqb; equals_iff = attempt_status_eqb_iff }

abbrev pub processing_eqb : ProcessingState → ProcessingState → Bool
processing_eqb ProcessingState.pending ProcessingState.pending = true
processing_eqb ProcessingState.running ProcessingState.running = true
processing_eqb ProcessingState.processed ProcessingState.processed = true
processing_eqb ProcessingState.quarantined ProcessingState.quarantined = true
processing_eqb ProcessingState.manual_review ProcessingState.manual_review = true
processing_eqb (ProcessingState.other a) (ProcessingState.other b) = a == b
processing_eqb _ _ = false

pub processing_eqb_iff : (a b : ProcessingState) → (processing_eqb a b ≡ true) ↔ (a ≡ b)
processing_eqb_iff (ProcessingState.other a) (ProcessingState.other b) =
    ground (arith, bytes_eqb_iff a b)
processing_eqb_iff a b = ground arith

instance abbrev pub processing_eq : Eq ProcessingState
processing_eq = record { equals = processing_eqb; equals_iff = processing_eqb_iff }

abbrev pub lease_status_eqb : LeaseStatus → LeaseStatus → Bool
lease_status_eqb LeaseStatus.running LeaseStatus.running = true
lease_status_eqb LeaseStatus.idle LeaseStatus.idle = true
lease_status_eqb (LeaseStatus.other a) (LeaseStatus.other b) = a == b
lease_status_eqb _ _ = false

pub lease_status_eqb_iff : (a b : LeaseStatus) → (lease_status_eqb a b ≡ true) ↔ (a ≡ b)
lease_status_eqb_iff (LeaseStatus.other a) (LeaseStatus.other b) = ground (arith, bytes_eqb_iff a b)
lease_status_eqb_iff a b = ground arith

instance abbrev pub lease_status_eq : Eq LeaseStatus
lease_status_eq = record { equals = lease_status_eqb; equals_iff = lease_status_eqb_iff }

abbrev pub checkout_status_eqb : CheckoutStatus → CheckoutStatus → Bool
checkout_status_eqb CheckoutStatus.creating CheckoutStatus.creating = true
checkout_status_eqb CheckoutStatus.pending CheckoutStatus.pending = true
checkout_status_eqb CheckoutStatus.completed CheckoutStatus.completed = true
checkout_status_eqb CheckoutStatus.expired CheckoutStatus.expired = true
checkout_status_eqb CheckoutStatus.canceled CheckoutStatus.canceled = true
checkout_status_eqb (CheckoutStatus.other a) (CheckoutStatus.other b) = a == b
checkout_status_eqb _ _ = false

pub checkout_status_eqb_iff : (a b : CheckoutStatus) → (checkout_status_eqb a b ≡ true) ↔ (a ≡ b)
checkout_status_eqb_iff (CheckoutStatus.other a) (CheckoutStatus.other b) =
    ground (arith, bytes_eqb_iff a b)
checkout_status_eqb_iff a b = ground arith

instance abbrev pub checkout_status_eq : Eq CheckoutStatus
checkout_status_eq = record { equals = checkout_status_eqb; equals_iff = checkout_status_eqb_iff }

abbrev pub family_eqb : Family → Family → Bool
family_eqb Family.stripe Family.stripe = true
family_eqb Family.adyen Family.adyen = true
family_eqb (Family.other a) (Family.other b) = a == b
family_eqb _ _ = false

pub family_eqb_iff : (a b : Family) → (family_eqb a b ≡ true) ↔ (a ≡ b)
family_eqb_iff (Family.other a) (Family.other b) = ground (arith, bytes_eqb_iff a b)
family_eqb_iff a b = ground arith

instance abbrev pub family_eq : Eq Family
family_eq = record { equals = family_eqb; equals_iff = family_eqb_iff }
