-- ===== src/Journal/Hashing.antt =====
-- src/actionlineage/journal/hashing.py, and what it calls of domain/canonicalization.py and
-- domain/serialization.py.
use action_lineage.Base.{
  String, ◌<>◌, Bool, Option, none, some, List, [], ◌∷◌, contains, Outcome, ok, err, require, ◌>>=◌,
  ◌>>◌,
}
use action_lineage.Domain.Value.{Value, map, Refusal, Checked}
use action_lineage.Domain.Event.{Event, Fault, event_with_integrity, event_to_dict}
use action_lineage.Journal.{Platform}

-- Why an event cannot be hashed or prepared: the exceptions that reach the caller.
pub data HashFault : Type 0 where
  unsupported_label redaction_failed non_object not_an_event not_encodable : HashFault
  not_json : Refusal → HashFault
  invalid : Fault → HashFault

abbrev pub of_checked : {A : Type 0} → Checked A → Outcome HashFault A
of_checked (ok a) = ok a
of_checked (err r) = err (not_json r)

abbrev pub encoded : {A : Type 0} → Option A → Outcome HashFault A
encoded (some b) = ok b
encoded none = err not_encodable

abbrev pub of_fault : {A : Type 0} → Outcome Fault A → Outcome HashFault A
of_fault (ok a) = ok a
of_fault (err f) = err (invalid f)

abbrev pub canonicalization_version : String
canonicalization_version = "actionlineage.dev/json-deterministic-v0"

abbrev pub supported_persisted_event_canonicalizations : List String
supported_persisted_event_canonicalizations = canonicalization_version ∷ []

unfoldable pub is_supported_persisted_event_canonicalization : String → Bool
is_supported_persisted_event_canonicalization label =
    contains label supported_persisted_event_canonicalizations

unfoldable pub require_supported_persisted_event_canonicalization :
    String → Outcome HashFault (Unit {0})
unfolding is_supported_persisted_event_canonicalization
require_supported_persisted_event_canonicalization label =
    require (is_supported_persisted_event_canonicalization label) unsupported_label

-- A redaction boundary returns a redacted value, or raises.
abbrev pub RedactionBoundary : Type 0
RedactionBoundary = Value → Option Value

abbrev pub loaded : Option Event → Outcome HashFault Event
loaded none = err not_an_event
loaded (some e) = ok e

module _ (p : Platform) where
  abbrev pub Bytes : Type 0
  Bytes = List p.Byte

  unfoldable pub sha256_digest : Bytes → String
  sha256_digest value = "sha256:" <> p.hexdigest value

  unfoldable pub serialize_event : Event → Outcome HashFault Bytes
  serialize_event e = do v ← of_checked (event_to_dict p.isoformat e); encoded (p.dumps v)

  unfoldable pub compute_event_hash : Event → Outcome HashFault String
  compute_event_hash e = do
    require_supported_persisted_event_canonicalization e.integrity.canonicalization
    hash_event ← of_fault (event_with_integrity e e.integrity.previous_event_hash none)
    bytes ← serialize_event hash_event
    ok (sha256_digest bytes)

  -- `if not isinstance(redacted, dict): raise`, then the bytes.
  abbrev pub redacted_bytes : Option Value → Outcome HashFault Bytes
  redacted_bytes none = err redaction_failed
  redacted_bytes (some (map c fs)) = encoded (p.dumps (map c fs))
  redacted_bytes (some _) = err non_object

  -- A value that cannot be normalised raises within the `try` too.
  abbrev pub redact_dict : RedactionBoundary → Checked Value → Option Value
  redact_dict redact (ok v) = redact v
  redact_dict redact (err _) = none

  unfoldable pub serialize_event_for_persistence :
      RedactionBoundary → Event → Outcome HashFault Bytes
  serialize_event_for_persistence redact e =
      redacted_bytes (redact_dict redact (event_to_dict p.isoformat e))

  abbrev pub event_from_json : Bytes → Outcome HashFault Event
  event_from_json b = loaded (p.load b)

  -- The redacted event, and the line to append, without its newline.
  unfoldable pub prepare_event_for_append :
      RedactionBoundary → Event → Option String → Outcome HashFault (Event × Bytes)
  prepare_event_for_append redact e previous = do
    require_supported_persisted_event_canonicalization e.integrity.canonicalization
    event_for_hash ← of_fault (event_with_integrity e previous none)
    redacted ← serialize_event_for_persistence redact event_for_hash
    redacted_hash_event ← event_from_json redacted
    event_hash ← compute_event_hash redacted_hash_event
    redacted_event ← of_fault (event_with_integrity redacted_hash_event previous (some event_hash))
    bytes ← serialize_event redacted_event
    ok (redacted_event, bytes)
