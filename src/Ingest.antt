-- ===== src/Ingest.antt =====
-- The import of evidence: src/actionlineage/evidence/ingestion.py.
--
-- A text is compared with another by its code points, as Python's `str`. `_IdempotencyEntry` and
-- the dictionaries of them are `KnownRecord` and association lists with the newest entry first.
-- The fingerprint's JSON bytes, which json.dumps makes or refuses, are a parameter.
pub mod Order
pub mod Fingerprint
pub mod Exceptions
pub mod Batch
use Prim.Native.Char.{code}
use action_lineage.Base.{
  ℕ, ◌+◌, ◌==◌, ◌&&◌, String, Bool, true, false, not, Option, none, some, List, [], ◌∷◌,
  if◌then◌else◌, ltb, str_eq, Outcome, ok, err, require, ◌>>=◌, ◌>>◌,
}
use action_lineage.Domain.Value.{Value, null, str, map, plain, Fields, end, thaw_fields}
use action_lineage.Domain.Value.Members.{get, pop, put}
use action_lineage.Domain.Event.{
  Event, Source, Correlation, Principal, Classification, entry, text_or_null, nonempty,
}
use action_lineage.Domain.Event.Names.{principal_type_text, sensitivity_text, trust_text}
use action_lineage.Evidence.{Normalizer, given_or}

pub data EvidenceSourceKind : Type 0 where
  local_function file http mcp external_json fixture unknown : EvidenceSourceKind

unfoldable pub source_kind_text : EvidenceSourceKind → String
source_kind_text EvidenceSourceKind.local_function = "local_function"
source_kind_text EvidenceSourceKind.file = "file"
source_kind_text EvidenceSourceKind.http = "http"
source_kind_text EvidenceSourceKind.mcp = "mcp"
source_kind_text EvidenceSourceKind.external_json = "external_json"
source_kind_text EvidenceSourceKind.fixture = "fixture"
source_kind_text EvidenceSourceKind.unknown = "unknown"

pub data IngestOutcomeStatus : Type 0 where
  imported duplicate conflict failed : IngestOutcomeStatus

-- `EvidenceRecord`, with the members of its payload.
pub record EvidenceRecord : Type 0 where
  pub idempotency_key : String
  pub event_type : String
  pub payload : Fields
  pub source_kind : EvidenceSourceKind
  pub sort_key : String
  pub source : Option Source
  pub principal : Option Principal
  pub classification : Option Classification

pub record IngestOutcome : Type 0 where
  pub idempotency_key : String
  pub status : IngestOutcomeStatus
  pub event_id : Option String
  pub error : Option String

abbrev pub same_status : IngestOutcomeStatus → IngestOutcomeStatus → Bool
same_status imported imported = true
same_status duplicate duplicate = true
same_status conflict conflict = true
same_status failed failed = true
same_status _ _ = false

-- `BatchImportResult._count`, and `ok`.
unfoldable pub count_status : IngestOutcomeStatus → List IngestOutcome → ℕ
count_status status [] = 0
count_status status (o ∷ os) =
    (if same_status o.status status then 1 else 0) + count_status status os

unfoldable pub batch_ok : List IngestOutcome → Bool
batch_ok os = count_status failed os == 0 && count_status conflict os == 0

-- `_IdempotencyEntry`.
pub record KnownRecord : Type 0 where
  pub event_id : String
  pub record_fingerprint : Option String

abbrev pub Known : Type 0
Known = List (String × KnownRecord)

unfoldable pub find_known : String → Known → Option KnownRecord
find_known key [] = none
find_known key ((k, entry_) ∷ known) = if str_eq k key then some entry_ else find_known key known

abbrev pub fingerprint_version : String
fingerprint_version = "actionlineage.dev/ingest-record-fingerprint-v1"

abbrev pub provenance_version : String
provenance_version = "actionlineage.dev/ingestion-provenance-v1"

unfoldable pub payload_with_ingest_metadata : EvidenceRecord → String → Value
payload_with_ingest_metadata r fingerprint = map plain (
    put "ingest"
      (map plain (
        entry "fingerprint_version" (str fingerprint_version) (
          entry "idempotency_key" (str r.idempotency_key) (
            entry "record_fingerprint" (str fingerprint)
              (entry "source_kind" (str (source_kind_text r.source_kind)) end)))))
      r.payload)

-- `isinstance(ingest, Mapping)`, and the nonempty text at a key of it.
abbrev pub nonempty_text : Value → Option String
nonempty_text (str s) = if nonempty s then some s else none
nonempty_text _ = none

abbrev pub text_member : String → Value → Option String
text_member name (map _ fs) = nonempty_text (get name fs)
text_member name _ = none

unfoldable pub idempotency_key_from_ingest : Value → Option String
idempotency_key_from_ingest ingest = text_member "idempotency_key" ingest

unfoldable pub idempotency_fingerprint_from_ingest : Value → Option String
idempotency_fingerprint_from_ingest ingest = text_member "record_fingerprint" ingest

abbrev pub payload_member : String → Event → Value
payload_member name e = elim e.payload [ map _ fs ↦ get name fs | _ ↦ null ]

-- `_event_idempotency_key`.
abbrev pub event_idempotency_key : Event → Option String
event_idempotency_key e = idempotency_key_from_ingest (payload_member "ingest" e)

abbrev pub known_with : Option String → KnownRecord → Known → Known
known_with none r known = known
known_with (some key) r known = (key, r) ∷ known

-- The loop of `_existing_idempotency_entries`.
unfoldable pub existing_idempotency_entries : Known → List Event → Known
existing_idempotency_entries known [] = known
existing_idempotency_entries known (e ∷ es) =
    let ingest = payload_member "ingest" e in
    existing_idempotency_entries
      (known_with (event_idempotency_key e)
        (record {
          event_id = e.event_id;
          record_fingerprint = idempotency_fingerprint_from_ingest ingest;
        })
        known)
      es

abbrev pub matches_fingerprint : Option String → String → Bool
matches_fingerprint none fingerprint = true
matches_fingerprint (some f) fingerprint = str_eq f fingerprint

unfoldable pub matched_idempotency_outcome : EvidenceRecord → KnownRecord → String → IngestOutcome
matched_idempotency_outcome r known fingerprint =
    if matches_fingerprint known.record_fingerprint fingerprint
    then record {
      idempotency_key = r.idempotency_key;
      status = duplicate;
      event_id = some known.event_id;
      error = none;
    }
    else record {
      idempotency_key = r.idempotency_key;
      status = conflict;
      event_id = some known.event_id;
      error = some "idempotency key already used for different evidence record";
    }
