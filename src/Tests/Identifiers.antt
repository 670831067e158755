-- ===== src/Tests/Identifiers.antt =====
-- Identifiers at a sample block of randomness.
use subscription_bridge.Prelude.{◌≡◌, refl, bytes, ◌++◌, some, arith}
use subscription_bridge.Protocol.Errors.{ok}
use subscription_bridge.Protocol.Identifier.{
  event_prefix, validate_opaque_id, new_opaque_id, format_uuid, stamp, is_suffix_byte,
}
use subscription_bridge.Protocol.Identifier.Opaque.{IsBlock, validate-append, new_opaque_id-eq-ok}
use subscription_bridge.Tests.Samples.{block}

validate-append_example : validate_opaque_id (bytes "evt_A-9") event_prefix ≡ ok tt
unfolding is_suffix_byte
validate-append_example =
    validate-append event_prefix (bytes "A-9") refl (omega arith) (omega arith) refl

block-IsBlock : IsBlock block
block-IsBlock = omega arith

new_opaque_id-eq-ok_example :
    (new_opaque_id (some block) event_prefix ≡ ok (event_prefix ++ format_uuid (stamp block)))
    × (validate_opaque_id (event_prefix ++ format_uuid (stamp block)) event_prefix ≡ ok tt)
new_opaque_id-eq-ok_example =
    new_opaque_id-eq-ok block event_prefix block-IsBlock refl (omega arith)
