-- ===== src/Tests/Access.antt =====
-- The theorems on policy, credentials and observers, applied to small values.
use action_lineage.Base.{
  ℤ, ◌≡◌, ◌≢◌, refl, Bool, true, false, not, none, some, List, [], ◌∷◌, All, String, if◌then◌else◌,
  ok, require, ◌>>◌,
}
use action_lineage.Domain.Value.{Value, null, str, seq, map, plain, end, field, text}
use action_lineage.Domain.Event.{nonempty}
use action_lineage.Domain.Event.Names.{
  ResourceType, resource_type_text, TrustLevel, CorroborationType, EventType,
}
use action_lineage.Policy.{
  PolicyDecision, PolicyDecisionOutcome, RiskClass, ApprovalArtifact, Request, empty_cache,
  is_valid_request,
}
use action_lineage.Policy.Claims.{AreFresh, accepted_requests, accepted_requests-AreFresh}
use action_lineage.Domain.Value.Members.{get}
use action_lineage.Auth.{
  ServiceRole, ServiceCapability, ServicePrincipal, role_text, capability_text, role_capabilities,
  has, granted_by, roles_grant, effective_capabilities, require_role, require_capability, find_text,
  from_texts, raw_texts, roles_from_claim, capabilities_from_claim, principal_from_claims,
  ClaimNames, is_empty, invalid_roles,
}
use action_lineage.Auth.Grants.{require_role-require_capability}
use action_lineage.Auth.Claims.{role_items, roles_from_claim-role_items, principal_from_claims-able}
use action_lineage.Observers.{ObservationOutcome, ObserverOutcome}
use action_lineage.Observers.Attestation.{
  AttestationEvidenceKind, IndependenceBoundary, IndependenceBoundaryStatus,
  ObserverAttestationDeclaration, boundary_text, boundary_status, declaration_reasons,
  independent_claim_rejection_reasons, required_independence_boundaries,
}
use action_lineage.Observers.Decisions.{
  VerificationDecision, Claim, verify_observation, in_unit_interval, validate_link,
  verification_status_for_observation, event_type_for_status, relationship_for_status,
}
use action_lineage.Observers.Independence.{IsIndependent, verify_observation-IsIndependent}

abbrev decision : PolicyDecision
decision = record {
  outcome = PolicyDecisionOutcome.require_approval;
  policy_id = "p";
  policy_version = "1";
  reason = "r";
  risk_class = RiskClass.medium;
  evaluator_identity = "policy-adapter";
  decision_id = none;
}

abbrev approval : ApprovalArtifact
approval = record {
  approval_id = "a";
  subject_event_id = "e";
  scope = "s";
  expires_at = 5;
  nonce = "n";
  approved_by = "me";
  decision_event_id = none;
}

abbrev request : Request
request = record { artifact = approval; now = 4; subject_event_id = "e"; scope = "s" }

accepted_requests-AreFresh_example :
    AreFresh [] (accepted_requests empty_cache (request ∷ request ∷ []))
    × All (λ r. is_valid_request r ≡ true) (accepted_requests empty_cache (request ∷ request ∷ []))
accepted_requests-AreFresh_example = accepted_requests-AreFresh empty_cache (request ∷ request ∷ [])

abbrev reader : ServicePrincipal
reader = record { principal_id = "p"; roles = ServiceRole.read ∷ []; capabilities = [] }

reader-reads : require_role reader ServiceRole.read ≡ ok tt
unfolding require_role roles_grant granted_by role_capabilities capability_text
reader-reads = refl

cases-readable : has ServiceCapability.cases_read (role_capabilities ServiceRole.read) ≡ true
unfolding role_capabilities capability_text
cases-readable = refl

require_role-require_capability_example :
    require_capability reader ServiceCapability.cases_read ≡ ok tt
require_role-require_capability_example =
    require_role-require_capability reader ServiceRole.read ServiceCapability.cases_read
      reader-reads cases-readable

-- A text of one word.
abbrev one_word : String → List String
one_word s = s ∷ []

roles_from_claim-role_items_example :
    roles_from_claim one_word (seq plain (role_items (ServiceRole.read ∷ []))) true ≡ (
      require (not (if true then is_empty (ServiceRole.read ∷ []) else false)) invalid_roles
      >> ok (ServiceRole.read ∷ []))
roles_from_claim-role_items_example =
    roles_from_claim-role_items one_word (ServiceRole.read ∷ []) true

abbrev names : ClaimNames
names = record { principal = "sub"; roles = "roles"; capabilities = "capabilities" }

abbrev claims : Value
claims = map plain (field (text "sub") (str "p") (field (text "roles") (str "read") end))

claims-name_reader : principal_from_claims one_word names claims ≡ ok reader
unfolding principal_from_claims get capabilities_from_claim roles_from_claim raw_texts from_texts
    find_text role_text capability_text
claims-name_reader = refl

principal_from_claims-able_example : (nonempty "p" ≡ true) × (effective_capabilities reader ≢ [])
principal_from_claims-able_example =
    principal_from_claims-able one_word names claims reader claims-name_reader

abbrev statuses :
    List IndependenceBoundary → List (IndependenceBoundary × IndependenceBoundaryStatus)
statuses [] = []
statuses (b ∷ bs) = (b, IndependenceBoundaryStatus.independent) ∷ statuses bs

abbrev declaration : ObserverAttestationDeclaration
declaration = record {
  observer_identity = "o";
  subject_action_types = "*" ∷ [];
  resource_types = ResourceType.file ∷ [];
  evidence_kind = AttestationEvidenceKind.independent_live_telemetry;
  independence_boundaries = statuses required_independence_boundaries;
  shared_dependencies = [];
  reviewed_at = 10;
  valid_until = some 30;
}

abbrev observation : ObservationOutcome
observation = record {
  observer_identity = "o";
  resource_type = ResourceType.file;
  resource_identifier = "/f";
  outcome = ObserverOutcome.observed;
  observed_state = null;
  limitations = [];
  trust = TrustLevel.local;
}

abbrev asked : Claim
asked = record {
  subject_event_id = "e0";
  evidence_event_id = "e1";
  confidence = 0;
  corroboration_type = CorroborationType.independent_observer;
  attestation = some declaration;
  action = some "write";
  resource = some ResourceType.file;
  today = 20;
  max_age = ℤ.pos 365;
}

abbrev blank : String → Bool
blank s = not (nonempty s)

abbrev verified_decision : VerificationDecision
verified_decision = record {
  event_type = EventType.side_effect_verified;
  outcome = ObserverOutcome.observed;
  evidence_link = record {
    subject_event_id = "e0";
    relationship =
        relationship_for_status (verification_status_for_observation ObserverOutcome.observed);
    evidence_event_id = "e1";
    corroboration_type = CorroborationType.independent_observer;
    observer_identity = "o";
    confidence = 0;
    verification_status = verification_status_for_observation ObserverOutcome.observed;
    limitations = [];
  };
}

observation-verified : verify_observation blank asked observation ≡ ok verified_decision
unfolding verify_observation independent_claim_rejection_reasons declaration_reasons boundary_status
    boundary_text validate_link in_unit_interval verification_status_for_observation
    event_type_for_status relationship_for_status resource_type_text
observation-verified = refl

verify_observation-IsIndependent_example :
    (a : ObserverAttestationDeclaration) × (asked.attestation ≡ some a)
    × IsIndependent blank a observation asked.action asked.resource asked.today asked.max_age
    × (verified_decision.evidence_link.observer_identity ≡ "o")
    × (verified_decision.event_type
        ≡ event_type_for_status verified_decision.evidence_link.verification_status)
    × (verified_decision.evidence_link.relationship
        ≡ relationship_for_status verified_decision.evidence_link.verification_status)
verify_observation-IsIndependent_example =
    verify_observation-IsIndependent blank asked observation verified_decision observation-verified
      refl
