-- ===== src/Ingest/Fingerprint.antt =====
-- The fingerprint of a record: `_record_idempotency_fingerprint` of
-- src/actionlineage/evidence/ingestion.py, up to the bytes that are hashed.
use action_lineage.Base.{Bool, false, if◌then◌else◌, str_eq}
use action_lineage.Domain.Value.{Value, str, map, plain, Fields, end, thaw_fields}
use action_lineage.Domain.Value.Members.{get, pop}
use action_lineage.Domain.Event.{
  Source, Correlation, Principal, Classification, entry, text_or_null,
}
use action_lineage.Domain.Event.Names.{principal_type_text, sensitivity_text, trust_text}
use action_lineage.Evidence.{Normalizer, given_or}
use action_lineage.Ingest.{
  EvidenceRecord, source_kind_text, fingerprint_version, provenance_version,
}

abbrev source_json : Source → Value
source_json s = map plain (
    entry "component" (str s.component)
      (entry "instance_id" (str s.instance_id) (entry "version" (str s.version) end)))

abbrev correlation_json : Correlation → Value
correlation_json c = map plain (
    entry "trace_id" (str c.trace_id) (
      entry "run_id" (str c.run_id) (
        entry "span_id" (text_or_null c.span_id)
          (entry "session_id" (text_or_null c.session_id) end))))

abbrev principal_json : Principal → Value
principal_json p = map plain (
    entry "principal_id" (str p.principal_id) (
      entry "principal_type" (str (principal_type_text p.principal_type)) (
        entry "on_behalf_of" (text_or_null p.on_behalf_of) (
          entry "model_id" (text_or_null p.model_id)
            (entry "credential_id" (text_or_null p.credential_id) end)))))

abbrev classification_json : Classification → Value
classification_json c = map plain (
    entry "sensitivity" (str (sensitivity_text c.sensitivity))
      (entry "trust" (str (trust_text c.trust)) end))

unfoldable pub is_service_ingestion_provenance : Value → Bool
is_service_ingestion_provenance (map _ fs) = elim (get "schema_version" fs) [
  | str s ↦ str_eq s provenance_version
  | _ ↦ false
]
is_service_ingestion_provenance _ = false

-- The payload without what the service and an earlier import add to it.
unfoldable pub fingerprint_payload : Fields → Fields
fingerprint_payload payload =
    let thawed = thaw_fields payload in
    pop "ingest" (
      if is_service_ingestion_provenance (get "ingested_by" thawed)
      then pop "ingested_by" thawed
      else thawed)

-- What is hashed for a record's fingerprint.
unfoldable pub fingerprint_preimage : EvidenceRecord → Normalizer → Value
fingerprint_preimage r n = map plain (
    entry "classification"
      (classification_json (given_or r.classification n.context.classification))
      (entry "correlation" (correlation_json n.context.correlation) (
        entry "event_type" (str r.event_type) (
          entry "idempotency_key" (str r.idempotency_key) (
            entry "payload" (map plain (fingerprint_payload r.payload)) (
              entry "principal" (principal_json (given_or r.principal n.context.principal)) (
                entry "sort_key" (str r.sort_key) (
                  entry "source" (source_json (given_or r.source n.context.source)) (
                    entry "source_kind" (str (source_kind_text r.source_kind))
                      (entry "version" (str fingerprint_version) end))))))))))
