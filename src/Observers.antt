-- ===== src/Observers.antt =====
-- Observers and their outcomes, of src/actionlineage/observers/local.py, with the decisions on them:
-- when an observer may be called independent, and what a verification of a side effect says.
pub mod Attestation
pub mod Decisions
pub mod Independence
use action_lineage.Base.{String, List, [], ◌∷◌}
use action_lineage.Domain.Value.{Value, str, seq, map, plain, Items, nil, cons, end}
use action_lineage.Domain.Event.{entry}
use action_lineage.Domain.Event.Names.{
  EventType, ResourceType, resource_type_text, TrustLevel, trust_text, verification_status_text,
  VerificationStatus,
}

pub data ObserverOutcome : Type 0 where
  observed unverified timed_out conflicting unavailable : ObserverOutcome

pub record ObservationOutcome : Type 0 where
  pub observer_identity : String
  pub resource_type : ResourceType
  pub resource_identifier : String
  pub outcome : ObserverOutcome
  pub observed_state : Value
  pub limitations : List String
  pub trust : TrustLevel

unfoldable pub observation_status : ObserverOutcome → VerificationStatus
observation_status ObserverOutcome.observed = VerificationStatus.observed
observation_status ObserverOutcome.timed_out = VerificationStatus.timed_out
observation_status ObserverOutcome.conflicting = VerificationStatus.conflicting
observation_status _ = VerificationStatus.unverified

unfoldable pub observation_event_type : ObserverOutcome → EventType
observation_event_type ObserverOutcome.observed = EventType.side_effect_observed
observation_event_type ObserverOutcome.timed_out = EventType.side_effect_timed_out
observation_event_type ObserverOutcome.conflicting = EventType.side_effect_conflict_detected
observation_event_type _ = EventType.side_effect_unverified

abbrev pub text_items : List String → Items
text_items [] = nil
text_items (s ∷ ss) = cons (str s) (text_items ss)

unfoldable pub observation_as_payload : ObservationOutcome → Value
observation_as_payload o = map plain (
    entry "observer_identity" (str o.observer_identity) (
      entry "resource"
        (map plain (
          entry "resource_type" (str (resource_type_text o.resource_type))
            (entry "identifier" (str o.resource_identifier) end)))
        (entry "observed_state" o.observed_state (
          entry "verification_status"
            (str (verification_status_text (observation_status o.outcome)))
            (entry "limitations" (seq plain (text_items o.limitations))
              (entry "trust" (str (trust_text o.trust)) end))))))
