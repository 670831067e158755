-- ===== src/Protocol/Callback.antt =====
-- Callbacks: NewCallback and Callback.Validate of internal/protocol/types.go, ValidatePlanID of
-- internal/protocol/identifiers.go and ActionKey of internal/protocol/ids.go. RFC 3339 text, UTF-8,
-- Unicode white space, SHA-256 and JSON are parameters.
use subscription_bridge.Prelude.{
  ◌%◌, nat_eq, Option, none, some, ◌≡◌, arith, Bytes, bytes, Bool, false, ◌||◌, not, [], ◌∷◌, ◌++◌,
  ℤ, pos, ltb_ℤ, ltb, length, ◌==◌, bytes_eq, int_eq, if◌then◌else◌,
}
use subscription_bridge.Protocol.Errors.{
  ProtocolError, Result, ok, err, of_protocol, invalid_timestamp, invalid_protocol,
  unsupported_version, invalid_json, invalid_plan_id, unordered_period, ◌>>=◌, ◌>>◌,
}
use subscription_bridge.Protocol.Status.{
  Status, EventType, validate_event_status, validate_status_flags,
}
use subscription_bridge.Protocol.Clock.{Time, is_after, truncate_utc, second}
use subscription_bridge.Protocol.Identifier.{
  validate_event_id, validate_checkout_id, validate_subscription_ref, hex_all,
}

pub record Callback : Type 0 where
  pub protocol : Bytes
  pub version : ℤ
  pub event_id : Bytes
  pub event_type : EventType
  pub checkout_id : Bytes
  pub subscription_ref : Bytes
  pub plan_id : Bytes
  pub state_version : ℤ
  pub status : Status
  pub current_period_start : Bytes
  pub current_period_end : Bytes
  pub cancel_at_period_end : Bool
  pub state_changed_at : Bytes

pub record Snapshot : Type 0 where
  pub protocol : Bytes
  pub version : ℤ
  pub checkout_id : Bytes
  pub subscription_ref : Bytes
  pub plan_id : Bytes
  pub state_version : ℤ
  pub status : Status
  pub current_period_start : Bytes
  pub current_period_end : Bytes
  pub cancel_at_period_end : Bool
  pub state_changed_at : Bytes

-- What the program takes from Go's library. `format_time` is `Format(time.RFC3339)` of a time in UTC;
-- `parse_time` is `time.Parse` with it, `none` its error; `is_utf8` is `utf8.ValidString`; `is_blank`
-- tells a string that TrimFunc with unicode.IsSpace empties; `sha256` is `sha256.Sum256`; `marshal`
-- is `json.Marshal` of a callback.
pub record Platform : Type 0 where
  pub format_time : Time → Bytes
  pub parse_time : Bytes → Option Time
  pub is_utf8 : Bytes → Bool
  pub is_blank : Bytes → Bool
  pub sha256 : Bytes → Bytes
  pub marshal : Callback → Result Bytes

-- strings.HasSuffix(value, "Z")
unfoldable pub ends_with_z : Bytes → Bool
ends_with_z [] = false
ends_with_z (c ∷ []) = c == b'Z'
ends_with_z (c ∷ d ∷ s) = ends_with_z (d ∷ s)

module _ (os : Platform) where
  -- FormatUTC
  unfoldable pub format_utc : Time → Bytes
  format_utc t = os.format_time (truncate_utc t)

  -- ParseUTC
  unfoldable pub parse_utc : Bytes → Result Time
  parse_utc value =
      if value == [] then err (of_protocol invalid_timestamp) else canonical (os.parse_time value)
    where
      canonical : Option Time → Result Time
      canonical none = err (of_protocol invalid_timestamp)
      canonical (some t) =
          if not (ends_with_z value)
          then err (of_protocol invalid_timestamp)
          else if not (t % second == 0)
          then err (of_protocol invalid_timestamp)
          else if not (value == os.format_time t)
          then err (of_protocol invalid_timestamp)
          else ok t

  -- ValidatePlanID
  unfoldable pub validate_plan_id : Bytes → Result (Unit {0})
  validate_plan_id id =
      if id == [] || not (os.is_utf8 id)
      then err (of_protocol invalid_plan_id)
      else if os.is_blank id
      then err (of_protocol invalid_plan_id)
      else if ltb 128 (length id)
      then err (of_protocol invalid_plan_id)
      else ok tt

  -- The fields that a callback and a snapshot share, from the checkout to the time of change.
  unfoldable pub validate_fields :
      Bytes → Bytes → Bytes → ℤ → Bytes → Bytes → Bytes → Result (Unit {0})
  validate_fields checkout ref plan version from to changed = do
    validate_checkout_id checkout
    validate_subscription_ref ref
    validate_plan_id plan
    reject_if (ltb_ℤ version (pos 1)) invalid_json
    start ← parse_utc from
    end ← parse_utc to
    reject_if (not (is_after end start)) unordered_period
    _ ← parse_utc changed
    ok tt
    where
      reject_if : Bool → ProtocolError → Result (Unit {0})
      reject_if b e = if b then err (of_protocol e) else ok tt

  -- The test of the protocol's name and version.
  unfoldable pub validate_envelope : Bytes → ℤ → Result (Unit {0})
  validate_envelope name version =
      if not (name == bytes "subscription-bridge")
      then err (of_protocol invalid_protocol)
      else if not (version == pos 1)
      then err (of_protocol unsupported_version)
      else ok tt

  -- Callback.Validate
  unfoldable pub validate_callback : Callback → Result (Unit {0})
  validate_callback c = do
    validate_envelope c.protocol c.version
    validate_event_id c.event_id
    validate_fields c.checkout_id c.subscription_ref c.plan_id c.state_version
        c.current_period_start c.current_period_end c.state_changed_at
    validate_event_status c.event_type c.status c.cancel_at_period_end

  -- Snapshot.Validate
  unfoldable pub validate_snapshot : Snapshot → Result (Unit {0})
  validate_snapshot s = do
    validate_envelope s.protocol s.version
    validate_fields s.checkout_id s.subscription_ref s.plan_id s.state_version
        s.current_period_start s.current_period_end s.state_changed_at
    validate_status_flags s.status s.cancel_at_period_end

  -- NewCallback
  unfoldable pub new_callback :
      Bytes
      → EventType
      → Bytes
      → Bytes
      → Bytes
      → ℤ
      → Status
      → Time
      → Time
      → Time
      → Bool
      → Result Callback
  new_callback event_id event checkout ref plan version status from to changed cancel =
      let c : Callback = record {
        protocol = bytes "subscription-bridge";
        version = pos 1;
        event_id = event_id;
        event_type = event;
        checkout_id = checkout;
        subscription_ref = ref;
        plan_id = plan;
        state_version = version;
        status = status;
        current_period_start = format_utc from;
        current_period_end = format_utc to;
        cancel_at_period_end = cancel;
        state_changed_at = format_utc changed;
      } in
      validate_callback c >> ok c

  -- ActionKey
  unfoldable pub action_key : Bytes → Bytes → Time → Bytes
  action_key ref type target =
      bytes "act_"
      ++ hex_all (
          os.sha256 (
            bytes "subscription-bridge/v1/action"
            ++ 10 ∷ ref
            ++ 10 ∷ type
            ++ 10 ∷ os.format_time (truncate_utc target)))

-- SnapshotFromCallback
unfoldable pub snapshot_from_callback : Callback → Snapshot
snapshot_from_callback c = record {
  protocol = c.protocol;
  version = c.version;
  checkout_id = c.checkout_id;
  subscription_ref = c.subscription_ref;
  plan_id = c.plan_id;
  state_version = c.state_version;
  status = c.status;
  current_period_start = c.current_period_start;
  current_period_end = c.current_period_end;
  cancel_at_period_end = c.cancel_at_period_end;
  state_changed_at = c.state_changed_at;
}

flags_of_event :
    (e : EventType) (s : Status) (b : Bool)
    → validate_event_status e s b ≡ ok tt
    → validate_status_flags s b ≡ ok tt
unfolding validate_event_status
flags_of_event e s b h = ground arith

-- A callback that validates projects to a snapshot that validates.
pub snapshot-validate :
    (os : Platform) (c : Callback)
    → validate_callback os c ≡ ok tt
    → validate_snapshot os (snapshot_from_callback c) ≡ ok tt
unfolding validate_callback validate_snapshot snapshot_from_callback
snapshot-validate os c h =
    ground (arith, flags_of_event c.event_type c.status c.cancel_at_period_end)
