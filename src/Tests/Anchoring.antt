-- ===== src/Tests/Anchoring.antt =====
-- Anchors of a journal of one record: src/actionlineage/journal/anchors.py.
use action_lineage.Base.{◌≡◌, ◌⊎◌, refl, true, none, some, [], ◌∷◌, ok, String, Option, false}
use action_lineage.Domain.Value.{
  aware, thaw_json_value, validate_json_value, is_finite, freeze_json_value, normalize_json,
  canonical_timestamp,
}
use action_lineage.Domain.Event.{
  event_with_integrity, event_to_dict, validate_event, check_texts, require_aware_utc,
  require_json_payload, validate_causality,
}
use action_lineage.Domain.Event.Names.{principal_type_text, sensitivity_text, trust_text}
use action_lineage.Journal.Bytes.{
  bytes_eq, split_lines, ends_with_newline, rstrip_newlines, take, join_lines,
}
use action_lineage.Journal.Hashing.{
  Bytes, require_supported_persisted_event_canonicalization,
  is_supported_persisted_event_canonicalization, serialize_event, compute_event_hash, sha256_digest,
}
use action_lineage.Journal.Snapshot.{
  verified_journal_snapshot, scan, check_record, check_event, conclude,
}
use action_lineage.Journal.Verified.{clean_snapshot}
use action_lineage.Journal.Tamper.{Collision}
use action_lineage.Anchors.{
  JournalAnchor, AnchorVerification, create_journal_anchor, verify_journal_anchor, sign_anchor,
  anchor_signature, unsigned_dict, anchor_as_dict, timestamp, signature_issues,
  export_verified_prefix,
}
use action_lineage.Anchors.Pins.{anchor-pins_bytes}
use action_lineage.Anchors.Signed.{create-verify, verify-signature}
use action_lineage.Anchors.Export.{IsPrefix, export-IsPrefix}
use action_lineage.Tests.Values.{value_eq, bool_eq, int_eq, list_eq, time_eq, container_eq, key_eq}
use action_lineage.Tests.Decode.{strokes, count_strokes}
use action_lineage.Base.{text_le}
use action_lineage.Domain.Value.Members.{get}
use action_lineage.Domain.Value.Sorted.{is_sorted, is_behind}
use action_lineage.Tests.Sorting.{sort_keys, sort_payload, sort_member, insert}
use action_lineage.Tests.Place.{place, place-IsPlatform, byte_eq, load}
use action_lineage.Tests.Records.{start_persisted}
use action_lineage.Tests.Runs.{one_file, one_snapshot, metadata, one_verifies}

-- A digest that is the same for all keys and texts.
abbrev hmac : Bytes place → Bytes place → String
hmac key message = "0"

abbrev key : Option (Bytes place)
key = some (none ∷ [])

abbrev pub anchor : JournalAnchor
anchor = record {
  journal_path = "journal";
  record_count = 1;
  last_event_hash = some "sha256:1";
  created_at = aware 7;
  version = "actionlineage.dev/journal-anchor-v1";
  signature_algorithm = some "hmac-sha256";
  signature = some "hmac-sha256:0";
}

abbrev verification : AnchorVerification
verification = record { ok_flag = true; journal = one_snapshot; issues = [] }

made : create_journal_anchor place hmac "journal" (some one_file) key (aware 7) ≡ ok anchor
unfolding create_journal_anchor sign_anchor anchor_signature unsigned_dict anchor_as_dict timestamp
    verified_journal_snapshot scan check_record check_event conclude
    require_supported_persisted_event_canonicalization is_supported_persisted_event_canonicalization
    serialize_event compute_event_hash sha256_digest event_with_integrity event_to_dict
    validate_event check_texts require_aware_utc require_json_payload validate_causality
    validate_json_value is_finite freeze_json_value thaw_json_value normalize_json
    canonical_timestamp principal_type_text sensitivity_text trust_text bytes_eq split_lines
    ends_with_newline rstrip_newlines take strokes count_strokes byte_eq load sort_payload
    sort_member get sort_keys insert text_le is_sorted is_behind value_eq bool_eq int_eq list_eq
    time_eq container_eq key_eq join_lines
made = refl

checked : verify_journal_anchor place hmac (some one_file) anchor key ≡ ok verification
unfolding verify_journal_anchor signature_issues anchor_signature unsigned_dict anchor_as_dict
    timestamp verified_journal_snapshot scan check_record check_event conclude
    require_supported_persisted_event_canonicalization is_supported_persisted_event_canonicalization
    serialize_event compute_event_hash sha256_digest event_with_integrity event_to_dict
    validate_event check_texts require_aware_utc require_json_payload validate_causality
    validate_json_value is_finite freeze_json_value thaw_json_value normalize_json
    canonical_timestamp principal_type_text sensitivity_text trust_text bytes_eq split_lines
    ends_with_newline rstrip_newlines take strokes count_strokes byte_eq load sort_payload
    sort_member get sort_keys insert text_le is_sorted is_behind value_eq bool_eq int_eq list_eq
    time_eq container_eq key_eq join_lines
checked = refl

anchor-pins_bytes_example : (one_file.content ≡ one_file.content) ⊎ Collision place
anchor-pins_bytes_example =
    anchor-pins_bytes place place-IsPlatform hmac "journal" one_file one_file key key (aware 7)
      anchor verification made checked refl

create-verify_example :
    (v : AnchorVerification) × (verify_journal_anchor place hmac (some one_file) anchor key ≡ ok v)
    × (v.ok_flag ≡ true)
    × (v.issues ≡ [])
create-verify_example =
    create-verify place place-IsPlatform hmac "journal" one_file one_file key (aware 7) anchor made
      refl refl

verify-signature_example :
    (k : Bytes place) × (key ≡ some k) × (anchor_signature place hmac anchor k ≡ ok "hmac-sha256:0")
verify-signature_example =
    verify-signature place hmac (some one_file) anchor key "hmac-sha256:0" verification refl checked
      refl

export-IsPrefix_example :
    (content : Bytes place) × (export_verified_prefix place false none none (some one_file)
      ≡ ok (one_snapshot, content))
    × IsPrefix place one_file one_snapshot content
    × (verified_journal_snapshot place none none
          (some (record { content = content; before = metadata; after = metadata }))
        ≡ ok (
            clean_snapshot place
              (record { content = content; before = metadata; after = metadata })
              (start_persisted ∷ [])
              (some "sha256:1")))
export-IsPrefix_example =
    export-IsPrefix place place-IsPlatform none none one_file one_snapshot metadata metadata
      one_verifies refl
