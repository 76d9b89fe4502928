-- ===== src/Observers/Decisions.antt =====
-- The verification of side effects: src/actionlineage/observers/verification.py, and the evidence
-- link of domain/events.py. A confidence is the 64 bits of its double.
use action_lineage.Base.{
  ℕ, ℤ, ◌*◌, ◌^◌, String, Bool, true, false, ◌||◌, Option, List, [], ◌∷◌, all_of, leb, ◌==◌,
  if◌then◌else◌, Outcome, ok, err, require, ◌>>=◌, ◌>>◌,
}
use action_lineage.Domain.Event.{nonempty}
use action_lineage.Domain.Event.Names.{
  EventType, ResourceType, VerificationStatus, EvidenceRelationship, CorroborationType,
}
use action_lineage.Observers.{ObserverOutcome, ObservationOutcome}
use action_lineage.Observers.Attestation.{
  ObserverAttestationDeclaration, Reason, independent_claim_rejection_reasons,
}

pub data VerificationError : Type 0 where
  attestation_required : List Reason → VerificationError
  invalid_link : VerificationError

abbrev pub none_left : List Reason → Outcome VerificationError (Unit {0})
none_left [] = ok tt
none_left (r ∷ rs) = err (attestation_required (r ∷ rs))

pub record EvidenceLink : Type 0 where
  pub subject_event_id : String
  pub relationship : EvidenceRelationship
  pub evidence_event_id : String
  pub corroboration_type : CorroborationType
  pub observer_identity : String
  pub confidence : ℕ
  pub verification_status : VerificationStatus
  pub limitations : List String

pub record VerificationDecision : Type 0 where
  pub event_type : EventType
  pub evidence_link : EvidenceLink
  pub outcome : ObserverOutcome

-- `Field(ge=0.0, le=1.0)` on the bits of a double: those of 1.0 at most, or of -0.0.
unfoldable pub in_unit_interval : ℕ → Bool
in_unit_interval bits = leb bits (1023 * 2 ^ 52) || (bits == 2 ^ 63)

-- What the class declares of its fields.
unfoldable pub validate_link : EvidenceLink → Outcome VerificationError EvidenceLink
validate_link l = do
  require (nonempty l.subject_event_id) invalid_link
  require (nonempty l.evidence_event_id) invalid_link
  require (nonempty l.observer_identity) invalid_link
  require (in_unit_interval l.confidence) invalid_link
  require (all_of nonempty l.limitations) invalid_link
  ok l

unfoldable pub verification_status_for_observation : ObserverOutcome → VerificationStatus
verification_status_for_observation ObserverOutcome.observed = VerificationStatus.verified
verification_status_for_observation ObserverOutcome.timed_out = VerificationStatus.timed_out
verification_status_for_observation ObserverOutcome.conflicting = VerificationStatus.conflicting
verification_status_for_observation _ = VerificationStatus.unverified

unfoldable pub event_type_for_status : VerificationStatus → EventType
event_type_for_status VerificationStatus.verified = EventType.side_effect_verified
event_type_for_status VerificationStatus.timed_out = EventType.side_effect_timed_out
event_type_for_status VerificationStatus.conflicting = EventType.side_effect_conflict_detected
event_type_for_status _ = EventType.side_effect_unverified

unfoldable pub relationship_for_status : VerificationStatus → EvidenceRelationship
relationship_for_status VerificationStatus.conflicting = EvidenceRelationship.contradicts
relationship_for_status VerificationStatus.verified = EvidenceRelationship.corroborates
relationship_for_status _ = EvidenceRelationship.limits

abbrev pub is_independent_observer : CorroborationType → Bool
is_independent_observer CorroborationType.independent_observer = true
is_independent_observer _ = false

-- What is asked of an observation beside its outcome.
pub record Claim : Type 0 where
  pub subject_event_id : String
  pub evidence_event_id : String
  pub confidence : ℕ
  pub corroboration_type : CorroborationType
  pub attestation : Option ObserverAttestationDeclaration
  pub action : Option String
  pub resource : Option ResourceType
  pub today : ℕ
  pub max_age : ℤ

module _ (is_blank : String → Bool) where
  abbrev pub require_attestation : Claim → ObservationOutcome → Outcome VerificationError (Unit {0})
  require_attestation c o =
      if is_independent_observer c.corroboration_type
      then none_left (
          independent_claim_rejection_reasons is_blank c.attestation o c.action c.resource c.today
            c.max_age)
      else ok tt

  unfoldable pub verify_observation :
      Claim → ObservationOutcome → Outcome VerificationError VerificationDecision
  verify_observation c o = do
    require_attestation c o
    let status = verification_status_for_observation o.outcome
    link ← validate_link (record {
      subject_event_id = c.subject_event_id;
      relationship = relationship_for_status status;
      evidence_event_id = c.evidence_event_id;
      corroboration_type = c.corroboration_type;
      observer_identity = o.observer_identity;
      confidence = c.confidence;
      verification_status = status;
      limitations = o.limitations;
    })
    ok (record {
      event_type = event_type_for_status status;
      evidence_link = link;
      outcome = o.outcome;
    })

unfoldable pub self_reported_verification :
    String → String → ℕ → List String → Outcome VerificationError VerificationDecision
self_reported_verification subject_event_id observer_identity confidence limitations = do
  link ← validate_link (record {
    subject_event_id = subject_event_id;
    relationship = EvidenceRelationship.limits;
    evidence_event_id = subject_event_id;
    corroboration_type = CorroborationType.self_reported;
    observer_identity = observer_identity;
    confidence = confidence;
    verification_status = VerificationStatus.unverified;
    limitations = limitations;
  })
  ok (record {
    event_type = EventType.side_effect_unverified;
    evidence_link = link;
    outcome = ObserverOutcome.unverified;
  })
