-- ===== src/Tests/Runs.antt =====
-- The theorems on the journal, applied to a journal of one record.
use action_lineage.Base.{◌≡◌, ◌⊎◌, refl, true, none, some, [], ◌∷◌, ◌++◌, ok, err, inr, arith}
use action_lineage.Domain.Value.{
  thaw_json_value, validate_json_value, is_finite, freeze_json_value, normalize_json,
  canonical_timestamp,
}
use action_lineage.Domain.Event.{
  Event, model_json, event_with_integrity, event_to_dict, validate_event, check_texts,
  require_aware_utc, require_json_payload, validate_causality,
}
use action_lineage.Domain.Event.Names.{principal_type_text, sensitivity_text, trust_text}
use action_lineage.Journal.Bytes.{
  bytes_eq, split_lines, ends_with_newline, rstrip_newlines, take, join_lines,
}
use action_lineage.Journal.Hashing.{
  Bytes, prepare_event_for_append, require_supported_persisted_event_canonicalization,
  is_supported_persisted_event_canonicalization, serialize_event_for_persistence, serialize_event,
  compute_event_hash, sha256_digest,
}
use action_lineage.Journal.Snapshot.{
  Snapshot, FileRead, JournalFileMetadata, verified_journal_snapshot, scan, check_record,
  check_event, conclude,
}
use action_lineage.Journal.Append.{
  Attempt, private_directory, complete, torn, append_event, append_line, check_append, write_failed,
  unverified,
}
use action_lineage.Journal.Verified.{
  Holds, IsVerified, snapshot_sound, snapshot_complete, clean_snapshot,
}
use action_lineage.Journal.Tamper.{Collision, snapshot-pins_bytes}
use action_lineage.Journal.Extend.{Extends, append-Extends}
use action_lineage.Journal.Torn.{torn_snapshot, torn-append}
use action_lineage.Tests.Values.{value_eq, bool_eq, int_eq, list_eq, time_eq, container_eq, key_eq}
use action_lineage.Tests.Decode.{strokes, count_strokes}
use action_lineage.Domain.Value.Members.{get}
use action_lineage.Domain.Value.Sorted.{is_behind, is_sorted}
use action_lineage.Base.{text_le}
use action_lineage.Redaction.{
  apply, redact_value, capture_budget, is_sensitive_path, is_sensitive_field,
  is_capture_exempt_path, path_eq, redacted_marker, redact_text, record_bytes, redact_string,
}
use action_lineage.Tests.Sorting.{sort_keys, sort_payload, sort_member, insert}
use action_lineage.Redaction.Defaults.{default_policy}
use action_lineage.Redaction.Place.{apply-SamePlace}
use action_lineage.Journal.Prepare.{IsDigest, SamePlace}
use action_lineage.Tests.Place.{dumps, place, place-IsPlatform, byte_eq, load}
use action_lineage.Tests.Records.{
  event_numbered, same_names, one_token, redacting-LeavesPlace, redacting, redacting-KeepsPlace,
  start, start_persisted, step, step_persisted,
}

abbrev pub line_of : Event → Bytes place
line_of e = dumps (model_json place.isoformat e)

abbrev pub metadata : JournalFileMetadata
metadata = record { device = 1; inode = 2; size = 3; modified_ns = 4 }

abbrev pub attempt : Attempt
attempt = record {
  directory = private_directory;
  lock_acquired = true;
  readable = true;
  before = metadata;
  after = metadata;
  write = complete;
}

abbrev pub one_line : Bytes place
one_line = line_of start_persisted ++ none ∷ []

abbrev pub one_file : FileRead place
one_file = record { content = one_line; before = metadata; after = metadata }

abbrev pub one_snapshot : Snapshot
one_snapshot = clean_snapshot place one_file (start_persisted ∷ []) (some "sha256:1")

first_append : append_event place attempt redacting start none ≡ (ok start_persisted, some one_line)
unfolding append_event append_line check_append verified_journal_snapshot scan check_record
    check_event conclude prepare_event_for_append require_supported_persisted_event_canonicalization
    is_supported_persisted_event_canonicalization serialize_event_for_persistence serialize_event
    compute_event_hash sha256_digest event_with_integrity event_to_dict validate_event check_texts
    require_aware_utc require_json_payload validate_causality validate_json_value is_finite
    freeze_json_value thaw_json_value normalize_json canonical_timestamp principal_type_text
    sensitivity_text trust_text bytes_eq split_lines ends_with_newline rstrip_newlines take strokes
    count_strokes byte_eq load value_eq bool_eq int_eq list_eq time_eq container_eq key_eq
    join_lines is_behind is_sorted sort_keys sort_payload sort_member insert text_le get apply
    redact_value capture_budget is_sensitive_path is_sensitive_field is_capture_exempt_path path_eq
    redacted_marker redact_text record_bytes redact_string
first_append = refl

pub one_verifies : verified_journal_snapshot place none none (some one_file) ≡ ok one_snapshot
unfolding append_event append_line check_append verified_journal_snapshot scan check_record
    check_event conclude prepare_event_for_append require_supported_persisted_event_canonicalization
    is_supported_persisted_event_canonicalization serialize_event_for_persistence serialize_event
    compute_event_hash sha256_digest event_with_integrity event_to_dict validate_event check_texts
    require_aware_utc require_json_payload validate_causality validate_json_value is_finite
    freeze_json_value thaw_json_value normalize_json canonical_timestamp principal_type_text
    sensitivity_text trust_text bytes_eq split_lines ends_with_newline rstrip_newlines take strokes
    count_strokes byte_eq load value_eq bool_eq int_eq list_eq time_eq container_eq key_eq
    join_lines is_behind is_sorted sort_keys sort_payload sort_member insert text_le get apply
    redact_value capture_budget is_sensitive_path is_sensitive_field is_capture_exempt_path path_eq
    redacted_marker redact_text record_bytes redact_string
one_verifies = refl

step_checks :
    check_append place (record attempt { write = torn 1 }) redacting step (some one_line)
    ≡ ok (step_persisted, line_of step_persisted)
unfolding append_event append_line check_append verified_journal_snapshot scan check_record
    check_event conclude prepare_event_for_append require_supported_persisted_event_canonicalization
    is_supported_persisted_event_canonicalization serialize_event_for_persistence serialize_event
    compute_event_hash sha256_digest event_with_integrity event_to_dict validate_event check_texts
    require_aware_utc require_json_payload validate_causality validate_json_value is_finite
    freeze_json_value thaw_json_value normalize_json canonical_timestamp principal_type_text
    sensitivity_text trust_text bytes_eq split_lines ends_with_newline rstrip_newlines take strokes
    count_strokes byte_eq load value_eq bool_eq int_eq list_eq time_eq container_eq key_eq
    join_lines is_behind is_sorted sort_keys sort_payload sort_member insert text_le get apply
    redact_value capture_budget is_sensitive_path is_sensitive_field is_capture_exempt_path path_eq
    redacted_marker redact_text record_bytes redact_string
step_checks = refl

one-Holds : Holds place one_line (start_persisted ∷ []) (some "sha256:1")
one-Holds =
    (snapshot_sound place place-IsPlatform none none one_file one_snapshot one_verifies refl).holds

snapshot_sound_example : IsVerified place none none one_file one_snapshot
snapshot_sound_example =
    snapshot_sound place place-IsPlatform none none one_file one_snapshot one_verifies refl

snapshot_complete_example :
    verified_journal_snapshot place (some 1) none (some one_file) ≡ ok one_snapshot
snapshot_complete_example =
    snapshot_complete place place-IsPlatform (some 1) none (start_persisted ∷ []) (some "sha256:1")
      one_file one-Holds refl refl tt

snapshot-pins_bytes_example : (one_line ≡ one_line) ⊎ Collision place
snapshot-pins_bytes_example =
    snapshot-pins_bytes place place-IsPlatform one_file one_file one_snapshot one_snapshot
      one_verifies one_verifies refl refl refl refl

append-Extends_example : Extends place none (some one_line) start_persisted
append-Extends_example =
    append-Extends place place-IsPlatform redacting redacting-KeepsPlace attempt start
      start_persisted none (some one_line) first_append

torn-append_example :
    (piece : Bytes place) × (append_event place
        (record attempt { write = torn 1 })
        redacting
        step
        (some one_line)
      ≡ (err write_failed, some (one_line ++ piece)))
    × (verified_journal_snapshot place none none
          (some (record { content = one_line ++ piece; before = metadata; after = metadata }))
        ≡ ok (torn_snapshot (start_persisted ∷ []) (some "sha256:1")))
    × (append_event place attempt redacting step (some (one_line ++ piece))
        ≡ (err unverified, some (one_line ++ piece)))
torn-append_example =
    torn-append place place-IsPlatform (record attempt { write = torn 1 }) attempt redacting
      redacting step step_persisted step one_line (line_of step_persisted) (start_persisted ∷ [])
      (some "sha256:1") 1 metadata one-Holds step_checks refl (omega arith) (omega arith) refl refl
      refl

-- The second event on its way to the journal, with the hash before it.
abbrev linked_step : Event
linked_step = event_numbered 1 "e1" (some "e0") (some "sha256:1") none

step_persisted_bytes :
    serialize_event_for_persistence place redacting linked_step
    ≡ ok (dumps (model_json strokes linked_step))
unfolding append_event append_line check_append verified_journal_snapshot scan check_record
    check_event conclude prepare_event_for_append require_supported_persisted_event_canonicalization
    is_supported_persisted_event_canonicalization serialize_event_for_persistence serialize_event
    compute_event_hash sha256_digest event_with_integrity event_to_dict validate_event check_texts
    require_aware_utc require_json_payload validate_causality validate_json_value is_finite
    freeze_json_value thaw_json_value normalize_json canonical_timestamp principal_type_text
    sensitivity_text trust_text bytes_eq split_lines ends_with_newline rstrip_newlines take strokes
    count_strokes byte_eq load value_eq bool_eq int_eq list_eq time_eq container_eq key_eq
    join_lines is_behind is_sorted sort_keys sort_payload sort_member insert text_le get apply
    redact_value capture_budget is_sensitive_path is_sensitive_field is_capture_exempt_path path_eq
    redacted_marker redact_text record_bytes redact_string
step_persisted_bytes = refl

step_validates : validate_event linked_step ≡ ok linked_step
unfolding append_event append_line check_append verified_journal_snapshot scan check_record
    check_event conclude prepare_event_for_append require_supported_persisted_event_canonicalization
    is_supported_persisted_event_canonicalization serialize_event_for_persistence serialize_event
    compute_event_hash sha256_digest event_with_integrity event_to_dict validate_event check_texts
    require_aware_utc require_json_payload validate_causality validate_json_value is_finite
    freeze_json_value thaw_json_value normalize_json canonical_timestamp principal_type_text
    sensitivity_text trust_text bytes_eq split_lines ends_with_newline rstrip_newlines take strokes
    count_strokes byte_eq load value_eq bool_eq int_eq list_eq time_eq container_eq key_eq
    join_lines is_behind is_sorted sort_keys sort_payload sort_member insert text_le get apply
    redact_value capture_budget is_sensitive_path is_sensitive_field is_capture_exempt_path path_eq
    redacted_marker redact_text record_bytes redact_string
step_validates = refl

step_loads : load (dumps (model_json strokes linked_step)) ≡ some linked_step
unfolding append_event append_line check_append verified_journal_snapshot scan check_record
    check_event conclude prepare_event_for_append require_supported_persisted_event_canonicalization
    is_supported_persisted_event_canonicalization serialize_event_for_persistence serialize_event
    compute_event_hash sha256_digest event_with_integrity event_to_dict validate_event check_texts
    require_aware_utc require_json_payload validate_causality validate_json_value is_finite
    freeze_json_value thaw_json_value normalize_json canonical_timestamp principal_type_text
    sensitivity_text trust_text bytes_eq split_lines ends_with_newline rstrip_newlines take strokes
    count_strokes byte_eq load value_eq bool_eq int_eq list_eq time_eq container_eq key_eq
    join_lines is_behind is_sorted sort_keys sort_payload sort_member insert text_le get apply
    redact_value capture_budget is_sensitive_path is_sensitive_field is_capture_exempt_path path_eq
    redacted_marker redact_text record_bytes redact_string
step_loads = refl

first-IsDigest : IsDigest place (some "sha256:1")
unfolding sha256_digest
first-IsDigest = inr (none ∷ [], refl)

apply-SamePlace_example : SamePlace linked_step linked_step
apply-SamePlace_example =
    apply-SamePlace place same_names (default_policy (one_token ∷ [])) redacting-LeavesPlace
      place-IsPlatform linked_step linked_step linked_step (dumps (model_json strokes linked_step))
      step_validates first-IsDigest step_persisted_bytes step_loads
