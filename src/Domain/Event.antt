-- ===== src/Domain/Event.antt =====
-- The event envelope of src/actionlineage/domain/events.py, its validators, and the JSON object of
-- an event, `event_to_dict` of serialization.py.
--
-- An enumeration is a data type and the texts of its members. `EventType` is a StrEnum, whose
-- members equal their texts, so that an event's type is a text. The text of a time, as pydantic
-- renders it, is a parameter. `validate_event` is `EventEnvelope.model_validate` on the fields of
-- a Python object, each checked for what the class declares of it; where several are at fault,
-- pydantic reports all of them, and the model the first.
pub mod Names
pub mod Serialize
pub mod Copy
use action_lineage.Base.{
  ℕ, String, ◌≡◌, Bool, true, false, not, Option, none, some, List, [], ◌∷◌, contains, str_eq,
  Outcome, ok, err, require, ◌>>=◌, ◌>>◌, ℤ, if◌then◌else◌,
}
use action_lineage.Domain.Value.{
  Value, null, int, str, map, Container, plain, Fields, end, field, text, Datetime, naive, aware,
  Refusal, Checked, default_limits, validate_json_value, freeze_json_value, thaw_json_value,
  normalize_json,
}
use Names.{
  PrincipalType, principal_type_text, Sensitivity, sensitivity_text, TrustLevel, trust_text,
}

pub record Source : Type 0 where
  pub component : String
  pub instance_id : String
  pub version : String

pub record Correlation : Type 0 where
  pub trace_id : String
  pub run_id : String
  pub span_id : Option String
  pub session_id : Option String

pub record Causality : Type 0 where
  pub root_event_id : String
  pub sequence : ℕ
  pub parent_event_id : Option String

pub record Principal : Type 0 where
  pub principal_id : String
  pub principal_type : PrincipalType
  pub on_behalf_of : Option String
  pub model_id : Option String
  pub credential_id : Option String

pub record Classification : Type 0 where
  pub sensitivity : Sensitivity
  pub trust : TrustLevel

pub record Integrity : Type 0 where
  pub canonicalization : String
  pub previous_event_hash : Option String
  pub event_hash : Option String

pub record Event : Type 0 where
  pub event_id : String
  pub event_type : String
  pub occurred_at : Datetime
  pub observed_at : Datetime
  pub source : Source
  pub correlation : Correlation
  pub causality : Causality
  pub principal : Principal
  pub classification : Classification
  pub payload : Value
  pub integrity : Integrity

pub data Fault : Type 0 where
  empty_text naive_timestamp not_a_mapping orphan bad_root : Fault
  bad_payload : Refusal → Fault

abbrev pub spec_version : String
spec_version = "actionlineage.dev/v1alpha1"

abbrev documented_root_event_types : List String
documented_root_event_types =
    "agent.intent.recorded" ∷ "agent.run.started" ∷ "recorder.degraded" ∷ []

-- `Field(min_length=1)`.
abbrev pub nonempty : String → Bool
nonempty s = not (str_eq s "")

abbrev pub nonempty_if_given : Option String → Bool
nonempty_if_given none = true
nonempty_if_given (some s) = nonempty s

-- Everything that the class declares of its text fields.
unfoldable pub check_texts : Event → Outcome Fault (Unit {0})
check_texts e = do
  require (nonempty e.event_id) empty_text
  require (nonempty e.event_type) empty_text
  require (nonempty e.source.component) empty_text
  require (nonempty e.source.instance_id) empty_text
  require (nonempty e.source.version) empty_text
  require (nonempty e.correlation.trace_id) empty_text
  require (nonempty e.correlation.run_id) empty_text
  require (nonempty_if_given e.correlation.span_id) empty_text
  require (nonempty_if_given e.correlation.session_id) empty_text
  require (nonempty e.causality.root_event_id) empty_text
  require (nonempty_if_given e.causality.parent_event_id) empty_text
  require (nonempty e.principal.principal_id) empty_text
  require (nonempty_if_given e.principal.on_behalf_of) empty_text
  require (nonempty_if_given e.principal.model_id) empty_text
  require (nonempty_if_given e.principal.credential_id) empty_text
  require (nonempty_if_given e.integrity.previous_event_hash) empty_text
  require (nonempty_if_given e.integrity.event_hash) empty_text

unfoldable pub require_aware_utc : Datetime → Outcome Fault Datetime
require_aware_utc (naive _) = err naive_timestamp
require_aware_utc (aware t) = ok (aware t)

abbrev pub refused : {A : Type 0} → Checked A → Outcome Fault A
refused (ok a) = ok a
refused (err r) = err (bad_payload r)

-- The fuel of the freezing; Python's own limit on nested calls is far above what the depth needs.
abbrev pub call_depth : ℕ
call_depth = 100

unfoldable pub require_json_payload : Value → Outcome Fault Value
require_json_payload (map c fs) = do
  refused (validate_json_value default_limits 0 (map c fs))
  refused (freeze_json_value call_depth (map c fs))
require_json_payload _ = err not_a_mapping

abbrev is_documented_root : Event → Bool
is_documented_root e = contains e.event_type documented_root_event_types

unfoldable pub validate_causality : Event → Outcome Fault Event
validate_causality e = elim e.causality.parent_event_id [
  | some _ ↦ ok e
  | none ↦ do
    require (is_documented_root e) orphan
    require (str_eq e.causality.root_event_id e.event_id) bad_root
    ok e
]

unfoldable pub validate_event : Event → Outcome Fault Event
validate_event e = do
  check_texts e
  occurred ← require_aware_utc e.occurred_at
  observed ← require_aware_utc e.observed_at
  payload ← require_json_payload e.payload
  validate_causality
      (record e { occurred_at = occurred; observed_at = observed; payload = payload })

-- `event_with_integrity` of src/actionlineage/journal/hashing.py, through `model_copy`: the copy is
-- dumped, which thaws its payload, and validated.
unfoldable pub event_with_integrity : Event → Option String → Option String → Outcome Fault Event
event_with_integrity e previous hash = validate_event (record e {
  payload = thaw_json_value e.payload;
  integrity = record {
    canonicalization = e.integrity.canonicalization;
    previous_event_hash = previous;
    event_hash = hash;
  };
})

abbrev pub text_or_null : Option String → Value
text_or_null none = null
text_or_null (some s) = str s

abbrev pub entry : String → Value → Fields → Fields
entry name v fs = field (text name) v fs

module _ (isoformat : ℕ → String) where
  abbrev pub time_text : Datetime → Value
  time_text (naive t) = str (isoformat t)
  time_text (aware t) = str (isoformat t)

  -- `model_json`: the fields in the order of the class; the payload's serializer thaws it.
  abbrev pub json_object : Event → Value → Value
  json_object e payload = map plain (
      entry "spec_version" (str spec_version) (
        entry "event_id" (str e.event_id) (
          entry "event_type" (str e.event_type) (
            entry "occurred_at" (time_text e.occurred_at) (
              entry "observed_at" (time_text e.observed_at) (
                entry "source"
                  (map plain (
                    entry "component" (str e.source.component) (
                      entry "instance_id" (str e.source.instance_id)
                        (entry "version" (str e.source.version) end))))
                  (entry "correlation"
                    (map plain (
                      entry "trace_id" (str e.correlation.trace_id) (
                        entry "run_id" (str e.correlation.run_id) (
                          entry "span_id" (text_or_null e.correlation.span_id)
                            (entry "session_id" (text_or_null e.correlation.session_id) end)))))
                    (entry "causality"
                      (map plain (
                        entry "root_event_id" (str e.causality.root_event_id) (
                          entry "sequence" (int (ℤ.pos e.causality.sequence)) (
                            entry "parent_event_id" (text_or_null e.causality.parent_event_id)
                              end))))
                      (entry "principal"
                        (map plain (
                          entry "principal_id" (str e.principal.principal_id) (
                            entry "principal_type"
                              (str (principal_type_text e.principal.principal_type))
                              (entry "on_behalf_of" (text_or_null e.principal.on_behalf_of) (
                                entry "model_id" (text_or_null e.principal.model_id) (
                                  entry "credential_id" (text_or_null e.principal.credential_id)
                                    end))))))
                        (entry "classification"
                          (map plain (
                            entry "sensitivity"
                              (str (sensitivity_text e.classification.sensitivity))
                              (entry "trust" (str (trust_text e.classification.trust)) end)))
                          (entry "payload" payload (
                            entry "integrity"
                              (map plain (
                                entry "canonicalization" (str e.integrity.canonicalization) (
                                  entry "previous_event_hash"
                                    (text_or_null e.integrity.previous_event_hash)
                                    (entry "event_hash" (text_or_null e.integrity.event_hash)
                                      end))))
                              end))))))))))))

  abbrev pub model_json : Event → Value
  model_json e = json_object e (thaw_json_value e.payload)

  unfoldable pub event_to_dict : Event → Checked Value
  event_to_dict e = normalize_json isoformat default_limits 0 (model_json e)
