-- ===== src/Tests/Payloads.antt =====
-- The theorems on payloads and events, applied to small values.
use action_lineage.Base.{◌+◌, ◌≤◌, ◌≡◌, ◌↔◌, refl, true, leb, if◌then◌else◌, ok, err, arith, ℤ}
use action_lineage.Domain.Value.{
  Value, null, int, seq, map, plain, frozen, nil, cons, end, field, text, Limits, too_deep,
  validate_json_value, freeze_json_value, thaw_json_value,
}
use action_lineage.Domain.Value.Spec.{is_json, depth}
use action_lineage.Domain.Value.Validate.{validate_iff}
use action_lineage.Domain.Value.Freeze.{freeze-validated}
use action_lineage.Domain.Value.Thaw.{freeze-thaw}
use action_lineage.Domain.Event.{
  validate_event, check_texts, require_aware_utc, require_json_payload, validate_causality,
  event_to_dict, model_json,
}
use action_lineage.Domain.Event.Serialize.{event_to_dict-validated}
use action_lineage.Domain.Event.Copy.{validate_event-dumped}
use action_lineage.Tests.Decode.{strokes}
use action_lineage.Tests.Records.{start}

abbrev small : Limits
small = record { max_depth = 2; max_members = 2; max_items = 2 }

abbrev payload : Value
payload = map plain (field (text "k") (seq plain (cons (int (ℤ.pos 1)) (cons null nil))) end)

abbrev payload_frozen : Value
payload_frozen =
    map frozen (field (text "k") (seq frozen (cons (int (ℤ.pos 1)) (cons null nil))) end)

payload-valid : validate_json_value small 0 payload ≡ ok tt
unfolding validate_json_value
payload-valid = refl

payload-frozen : freeze_json_value 3 payload ≡ ok payload_frozen
unfolding freeze_json_value
payload-frozen = refl

start-valid : validate_event start ≡ ok start
unfolding validate_event check_texts require_aware_utc require_json_payload validate_causality
    validate_json_value freeze_json_value
start-valid = refl

validate_iff_example :
    (validate_json_value small 0 payload ≡ ok tt)
    ↔ ((is_json small payload ≡ true) × (0 + depth payload ≤ 2))
validate_iff_example = validate_iff small 0 payload

freeze-validated_example :
    (w : Value) × (freeze_json_value 3 payload ≡ ok w)
    × (freeze_json_value 3 w ≡ ok w)
    × (validate_json_value small 0 w ≡ ok tt)
    × (thaw_json_value w ≡ thaw_json_value payload)
freeze-validated_example = freeze-validated small 3 payload payload-valid (omega arith)

freeze-thaw_example :
    (validate_json_value small 0 (thaw_json_value payload_frozen) ≡ ok tt)
    × (freeze_json_value 3 (thaw_json_value payload_frozen) ≡ ok payload_frozen)
freeze-thaw_example =
    freeze-thaw small 3 payload payload_frozen payload-valid (omega arith) payload-frozen

event_to_dict-validated_example :
    event_to_dict strokes start
    ≡ (if leb (depth start.payload) 63 then ok (model_json strokes start) else err too_deep)
event_to_dict-validated_example = event_to_dict-validated strokes start start start-valid

validate_event-dumped_example :
    validate_event (record start { payload = thaw_json_value start.payload }) ≡ ok start
validate_event-dumped_example = validate_event-dumped start start start-valid
