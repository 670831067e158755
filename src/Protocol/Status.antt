-- ===== src/Protocol/Status.antt =====
-- The statuses and event types of internal/protocol/const.go, and ValidateStatusFlags and
-- ValidateEventStatus of internal/protocol/types.go. The source keeps a status and an event type as
-- strings, and compares them with its constants only: `other s` is a string `s` that is none of
-- them, the empty string of a zero record among these.
pub mod Pairs
use subscription_bridge.Prelude.{
  Bytes, Bool, true, false, [], ◌||◌, ◌==◌, bytes_eq, Eq, ◌↔◌, ◌≡◌, arith, bytes_eqb_iff,
  if◌then◌else◌, not,
}
use subscription_bridge.Protocol.Errors.{
  Result, ok, err, of_protocol, invalid_event_status, invalid_status, invalid_event_type,
  cancel_flag_mismatch, ◌>>=◌, ◌>>◌,
}

pub data Status : Type 0 where
  active trialing past_due canceled expired : Status
  other : Bytes → Status

pub data EventType : Type 0 where
  activated renewed past_due canceled expired plan_changed sync : EventType
  other : Bytes → EventType

abbrev pub status_eqb : Status → Status → Bool
status_eqb Status.active Status.active = true
status_eqb Status.trialing Status.trialing = true
status_eqb Status.past_due Status.past_due = true
status_eqb Status.canceled Status.canceled = true
status_eqb Status.expired Status.expired = true
status_eqb (Status.other a) (Status.other b) = a == b
status_eqb _ _ = false

pub status_eqb_iff : (a b : Status) → (status_eqb a b ≡ true) ↔ (a ≡ b)
status_eqb_iff (Status.other a) (Status.other b) = ground (arith, bytes_eqb_iff a b)
status_eqb_iff a b = ground arith

instance abbrev pub status_eq : Eq Status
status_eq = record { equals = status_eqb; equals_iff = status_eqb_iff }

-- `status == ""`
abbrev pub is_unset : Status → Bool
is_unset (Status.other []) = true
is_unset _ = false

abbrev pub event_eqb : EventType → EventType → Bool
event_eqb EventType.activated EventType.activated = true
event_eqb EventType.renewed EventType.renewed = true
event_eqb EventType.past_due EventType.past_due = true
event_eqb EventType.canceled EventType.canceled = true
event_eqb EventType.expired EventType.expired = true
event_eqb EventType.plan_changed EventType.plan_changed = true
event_eqb EventType.sync EventType.sync = true
event_eqb (EventType.other a) (EventType.other b) = a == b
event_eqb _ _ = false

pub event_eqb_iff : (a b : EventType) → (event_eqb a b ≡ true) ↔ (a ≡ b)
event_eqb_iff (EventType.other a) (EventType.other b) = ground (arith, bytes_eqb_iff a b)
event_eqb_iff a b = ground arith

instance abbrev pub event_eq : Eq EventType
event_eq = record { equals = event_eqb; equals_iff = event_eqb_iff }

-- ValidateStatusFlags
unfoldable pub validate_status_flags : Status → Bool → Result (Unit {0})
validate_status_flags Status.active cancel =
    if cancel then err (of_protocol cancel_flag_mismatch) else ok tt
validate_status_flags Status.trialing cancel =
    if cancel then err (of_protocol cancel_flag_mismatch) else ok tt
validate_status_flags Status.past_due cancel =
    if cancel then err (of_protocol cancel_flag_mismatch) else ok tt
validate_status_flags Status.canceled cancel =
    if not cancel then err (of_protocol cancel_flag_mismatch) else ok tt
validate_status_flags Status.expired cancel =
    if cancel then err (of_protocol cancel_flag_mismatch) else ok tt
validate_status_flags (Status.other s) cancel = err (of_protocol invalid_status)

-- The switch on the event type: the status that the event may carry, or an error.
event_allows : EventType → Status → Result Bool
event_allows EventType.activated status = ok (status == Status.active || status == Status.trialing)
event_allows EventType.renewed status = ok (status == Status.active)
event_allows EventType.past_due status = ok (status == Status.past_due)
event_allows EventType.canceled status = ok (status == Status.canceled)
event_allows EventType.expired status = ok (status == Status.expired)
event_allows EventType.plan_changed status = ok (status == Status.active)
event_allows EventType.sync status = err (of_protocol invalid_event_status)
event_allows (EventType.other e) status = err (of_protocol invalid_event_type)

-- ValidateEventStatus
unfoldable pub validate_event_status : EventType → Status → Bool → Result (Unit {0})
unfolding validate_status_flags event_allows
validate_event_status event status cancel = do
  validate_status_flags status cancel
  allowed ← event_allows event status
  if not allowed then err (of_protocol invalid_event_status) else ok tt
