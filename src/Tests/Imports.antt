-- ===== src/Tests/Imports.antt =====
-- The normalizer, and an import of two records with one key behind a journal of one record.
use action_lineage.Base.{
  text_le, insert_by, sort_by, ◌≡◌, ◌≢◌, refl, none, some, [], ◌∷◌, ok, ℕ, String, List, All,
  if◌then◌else◌, ◌==◌, Outcome,
}
use action_lineage.Domain.Value.{
  Value, map, plain, end, aware, thaw_json_value, validate_json_value, is_finite, freeze_json_value,
  normalize_json, canonical_timestamp,
}
use action_lineage.Domain.Value.Members.{get, put, pop}
use action_lineage.Domain.Event.{
  event_with_integrity, event_to_dict, validate_event, check_texts, require_aware_utc,
  require_json_payload, validate_causality,
}
use action_lineage.Domain.Event.Names.{principal_type_text, sensitivity_text, trust_text}
use action_lineage.Journal.Bytes.{
  bytes_eq, split_lines, ends_with_newline, rstrip_newlines, take, join_lines,
}
use action_lineage.Journal.Hashing.{
  RedactionBoundary, Bytes, prepare_event_for_append,
  require_supported_persisted_event_canonicalization, is_supported_persisted_event_canonicalization,
  serialize_event_for_persistence, serialize_event, compute_event_hash, sha256_digest,
}
use action_lineage.Journal.Snapshot.{
  verified_journal_snapshot, scan, check_record, check_event, conclude,
}
use action_lineage.Journal.Append.{complete, append_line}
use action_lineage.Journal.Verified.{Holds}
use action_lineage.Evidence.{
  Context, Normalizer, Entry, record_all, record_event, make_event, resolve_root_event_id,
  rebase_initial_sequence,
}
use action_lineage.Evidence.Timeline.{IsRun, record_all-IsTimeline}
use action_lineage.Ingest.Order.{comes_first, sorted}
use action_lineage.Ingest.Fingerprint.{
  is_service_ingestion_provenance, fingerprint_payload, fingerprint_preimage,
}
use action_lineage.Ingest.Exceptions.{Exception, exception_of}
use action_lineage.Ingest.{
  EvidenceRecord, EvidenceSourceKind, IngestOutcome, imported, duplicate, find_known,
  payload_with_ingest_metadata, idempotency_key_from_ingest, idempotency_fingerprint_from_ingest,
  existing_idempotency_entries, matched_idempotency_outcome, source_kind_text,
  event_idempotency_key,
}
use action_lineage.Ingest.Batch.{
  Turn, append_event_inside_lock, record_idempotency_fingerprint, import_record, import_records,
  prepare_import, import_evidence_batch_atomically, caught,
}
use action_lineage.Ingest.Batch.Kept.{Kept, import-Kept}
use action_lineage.Ingest.Batch.TurnKeys.{AreDistinct, imported_keys}
use action_lineage.Ingest.Batch.Keys.{import-AreDistinct}
use action_lineage.Tests.Values.{value_eq, bool_eq, int_eq, list_eq, time_eq, container_eq, key_eq}
use action_lineage.Tests.Decode.{strokes, count_strokes}
use action_lineage.Domain.Value.Members.{get}
use action_lineage.Domain.Value.Sorted.{is_behind, is_sorted}
use action_lineage.Base.{text_le}
use action_lineage.Tests.Sorting.{sort_keys, sort_payload, sort_member, insert}
use action_lineage.Tests.Place.{dumps, place, place-IsPlatform, byte_eq, load}
use action_lineage.Tests.Records.{keep, redacting, redacting-KeepsPlace, start, start_persisted}
use action_lineage.Tests.Runs.{attempt, one_line, one_snapshot}

abbrev context : Context
context = record {
  correlation = start.correlation;
  source = start.source;
  principal = start.principal;
  classification = start.classification;
}

abbrev fresh : Normalizer
fresh = record {
  context = context;
  initial_sequence = 0;
  sequence = 0;
  root_event_id = none;
  last_event_id = none;
}

abbrev call : String → Entry
call id = record {
  event_id = id;
  occurred_at = aware 2;
  observed_at = aware 3;
  event_type = "agent.run.started";
  payload = map plain end;
  source = none;
  principal = none;
  classification = none;
  parent_event_id = none;
  root_event_id = none;
}

-- The second call raises: an identifier is not empty.
record_all-IsTimeline_example : IsRun fresh (record_all fresh (call "a" ∷ call "" ∷ call "b" ∷ []))
record_all-IsTimeline_example =
    record_all-IsTimeline fresh (call "a" ∷ call "" ∷ call "b" ∷ [])
      ((refl, refl), ((refl, refl), ((refl, refl), tt)))

abbrev evidence : EvidenceRecord
evidence = record {
  idempotency_key = "k";
  event_type = "agent.run.started";
  payload = end;
  source_kind = EvidenceSourceKind.file;
  sort_key = "";
  source = none;
  principal = none;
  classification = none;
}

abbrev turns : ℕ → Turn
turns k = record {
  event_id = if k == 0 then "e1" else "e2";
  occurred_at = aware 5;
  observed_at = aware 6;
  write = complete;
}

abbrev encode : Value → Outcome Exception (Bytes place)
encode v = ok (dumps v)

abbrev outcomes : List IngestOutcome
outcomes =
    record { idempotency_key = "k"; status = imported; event_id = some "e1"; error = none }
    ∷ record { idempotency_key = "k"; status = duplicate; event_id = some "e1"; error = none }
    ∷ []

begun :
    (redact : RedactionBoundary)
    → prepare_import place redact encode attempt fresh (some one_line)
      ≡ ok (one_snapshot, record fresh { initial_sequence = 1; sequence = 1 })
unfolding prepare_import rebase_initial_sequence verified_journal_snapshot scan check_record
    check_event conclude require_supported_persisted_event_canonicalization
    is_supported_persisted_event_canonicalization serialize_event compute_event_hash sha256_digest
    event_with_integrity event_to_dict validate_event check_texts require_aware_utc
    require_json_payload validate_causality validate_json_value is_finite freeze_json_value
    thaw_json_value normalize_json canonical_timestamp principal_type_text sensitivity_text
    trust_text bytes_eq split_lines ends_with_newline rstrip_newlines take strokes count_strokes
    byte_eq load value_eq bool_eq int_eq list_eq time_eq container_eq key_eq join_lines sort_payload
    sort_member get sort_keys insert is_sorted is_behind
begun redact = refl

done :
    (import_evidence_batch_atomically place keep encode attempt turns fresh
      (some one_line)
      (evidence ∷ evidence ∷ [])).0
    ≡ ok outcomes
unfolding prepare_import rebase_initial_sequence verified_journal_snapshot scan check_record
    check_event conclude require_supported_persisted_event_canonicalization
    is_supported_persisted_event_canonicalization serialize_event compute_event_hash sha256_digest
    event_with_integrity event_to_dict validate_event check_texts require_aware_utc
    require_json_payload validate_causality validate_json_value is_finite freeze_json_value
    thaw_json_value normalize_json canonical_timestamp principal_type_text sensitivity_text
    trust_text bytes_eq split_lines ends_with_newline rstrip_newlines take strokes count_strokes
    byte_eq load value_eq bool_eq int_eq list_eq time_eq container_eq key_eq join_lines sort_payload
    sort_member sort_keys insert is_sorted is_behind import_evidence_batch_atomically import_records
    import_record append_event_inside_lock record_idempotency_fingerprint caught exception_of
    append_line prepare_event_for_append serialize_event_for_persistence record_event make_event
    resolve_root_event_id find_known sorted insert_by sort_by comes_first text_le
    payload_with_ingest_metadata put get pop idempotency_key_from_ingest
    idempotency_fingerprint_from_ingest existing_idempotency_entries matched_idempotency_outcome
    is_service_ingestion_provenance fingerprint_payload fingerprint_preimage source_kind_text
done = refl

import-Kept_example :
    Holds place one_line (start_persisted ∷ []) (some "sha256:1")
    × Kept place place-IsPlatform redacting redacting-KeepsPlace encode
        (start_persisted ∷ [])
        (import_evidence_batch_atomically place redacting encode attempt turns fresh
          (some one_line)
          (evidence ∷ evidence ∷ [])).0
        (import_evidence_batch_atomically place redacting encode attempt turns fresh
          (some one_line)
          (evidence ∷ evidence ∷ [])).1
import-Kept_example =
    import-Kept place place-IsPlatform redacting redacting-KeepsPlace encode attempt turns fresh _
      (some one_line) (evidence ∷ evidence ∷ []) one_snapshot (begun redacting)

import-AreDistinct_example :
    AreDistinct (imported_keys outcomes)
    × All
        (λ key. All (λ e. event_idempotency_key e ≢ some key) (start_persisted ∷ []))
        (imported_keys outcomes)
import-AreDistinct_example =
    import-AreDistinct place keep encode attempt turns fresh _ (some one_line)
      (evidence ∷ evidence ∷ []) one_snapshot outcomes (begun keep) done
