-- ===== src/Domain/Event/Names.antt =====
-- The enumerations of src/actionlineage/domain/events.py, with the texts of their members.
use action_lineage.Base.{String}

pub data EventType : Type 0 where
  agent_intent_recorded agent_run_started agent_run_completed : EventType
  agent_run_failed agent_tool_discovered agent_tool_schema_changed : EventType
  agent_tool_call_requested agent_tool_call_started : EventType
  agent_tool_call_completed agent_tool_call_failed : EventType
  agent_tool_call_denied policy_evaluation_started policy_decision : EventType
  approval_requested approval_resolved tool_execution_requested : EventType
  tool_execution_authorized tool_execution_dispatched : EventType
  tool_execution_acknowledged tool_execution_not_dispatched : EventType
  side_effect_observed side_effect_verified side_effect_unverified : EventType
  side_effect_timed_out side_effect_conflict_detected resource_observed : EventType
  action_normalized lineage_alert_created recorder_degraded : EventType
  projection_rebuilt integrity_verification_failed : EventType

unfoldable pub event_type_text : EventType → String
event_type_text EventType.agent_intent_recorded = "agent.intent.recorded"
event_type_text EventType.agent_run_started = "agent.run.started"
event_type_text EventType.agent_run_completed = "agent.run.completed"
event_type_text EventType.agent_run_failed = "agent.run.failed"
event_type_text EventType.agent_tool_discovered = "agent.tool.discovered"
event_type_text EventType.agent_tool_schema_changed = "agent.tool.schema_changed"
event_type_text EventType.agent_tool_call_requested = "agent.tool.call.requested"
event_type_text EventType.agent_tool_call_started = "agent.tool.call.started"
event_type_text EventType.agent_tool_call_completed = "agent.tool.call.completed"
event_type_text EventType.agent_tool_call_failed = "agent.tool.call.failed"
event_type_text EventType.agent_tool_call_denied = "agent.tool.call.denied"
event_type_text EventType.policy_evaluation_started = "policy.evaluation.started"
event_type_text EventType.policy_decision = "policy.decision"
event_type_text EventType.approval_requested = "approval.requested"
event_type_text EventType.approval_resolved = "approval.resolved"
event_type_text EventType.tool_execution_requested = "tool.execution.requested"
event_type_text EventType.tool_execution_authorized = "tool.execution.authorized"
event_type_text EventType.tool_execution_dispatched = "tool.execution.dispatched"
event_type_text EventType.tool_execution_acknowledged = "tool.execution.acknowledged"
event_type_text EventType.tool_execution_not_dispatched = "tool.execution.not_dispatched"
event_type_text EventType.side_effect_observed = "side_effect.observed"
event_type_text EventType.side_effect_verified = "side_effect.verified"
event_type_text EventType.side_effect_unverified = "side_effect.unverified"
event_type_text EventType.side_effect_timed_out = "side_effect.timed_out"
event_type_text EventType.side_effect_conflict_detected = "side_effect.conflict_detected"
event_type_text EventType.resource_observed = "resource.observed"
event_type_text EventType.action_normalized = "action.normalized"
event_type_text EventType.lineage_alert_created = "lineage.alert.created"
event_type_text EventType.recorder_degraded = "recorder.degraded"
event_type_text EventType.projection_rebuilt = "projection.rebuilt"
event_type_text EventType.integrity_verification_failed = "integrity.verification.failed"

pub data PrincipalType : Type 0 where
  human service agent model workload credential unknown : PrincipalType

unfoldable pub principal_type_text : PrincipalType → String
principal_type_text PrincipalType.human = "human"
principal_type_text PrincipalType.service = "service"
principal_type_text PrincipalType.agent = "agent"
principal_type_text PrincipalType.model = "model"
principal_type_text PrincipalType.workload = "workload"
principal_type_text PrincipalType.credential = "credential"
principal_type_text PrincipalType.unknown = "unknown"

pub data ResourceType : Type 0 where
  file url network_destination process host identity cloud_resource : ResourceType
  database_record message secret unknown : ResourceType

unfoldable pub resource_type_text : ResourceType → String
resource_type_text ResourceType.file = "file"
resource_type_text ResourceType.url = "url"
resource_type_text ResourceType.network_destination = "network_destination"
resource_type_text ResourceType.process = "process"
resource_type_text ResourceType.host = "host"
resource_type_text ResourceType.identity = "identity"
resource_type_text ResourceType.cloud_resource = "cloud_resource"
resource_type_text ResourceType.database_record = "database_record"
resource_type_text ResourceType.message = "message"
resource_type_text ResourceType.secret = "secret"
resource_type_text ResourceType.unknown = "unknown"

pub data Sensitivity : Type 0 where
  public internal confidential restricted secret unknown : Sensitivity

unfoldable pub sensitivity_text : Sensitivity → String
sensitivity_text Sensitivity.public = "public"
sensitivity_text Sensitivity.internal = "internal"
sensitivity_text Sensitivity.confidential = "confidential"
sensitivity_text Sensitivity.restricted = "restricted"
sensitivity_text Sensitivity.secret = "secret"
sensitivity_text Sensitivity.unknown = "unknown"

pub data TrustLevel : Type 0 where
  trusted untrusted local external unknown : TrustLevel

unfoldable pub trust_text : TrustLevel → String
trust_text TrustLevel.trusted = "trusted"
trust_text TrustLevel.untrusted = "untrusted"
trust_text TrustLevel.local = "local"
trust_text TrustLevel.external = "external"
trust_text TrustLevel.unknown = "unknown"

pub data VerificationStatus : Type 0 where
  unknown unverified timed_out conflicting observed verified : VerificationStatus

unfoldable pub verification_status_text : VerificationStatus → String
verification_status_text VerificationStatus.unknown = "unknown"
verification_status_text VerificationStatus.unverified = "unverified"
verification_status_text VerificationStatus.timed_out = "timed_out"
verification_status_text VerificationStatus.conflicting = "conflicting"
verification_status_text VerificationStatus.observed = "observed"
verification_status_text VerificationStatus.verified = "verified"

pub data EvidenceRelationship : Type 0 where
  corroborates contradicts observes limits : EvidenceRelationship

unfoldable pub relationship_text : EvidenceRelationship → String
relationship_text EvidenceRelationship.corroborates = "corroborates"
relationship_text EvidenceRelationship.contradicts = "contradicts"
relationship_text EvidenceRelationship.observes = "observes"
relationship_text EvidenceRelationship.limits = "limits"

pub data CorroborationType : Type 0 where
  independent_observer post_action_readback fixture_oracle self_reported : CorroborationType
  unknown : CorroborationType

unfoldable pub corroboration_text : CorroborationType → String
corroboration_text CorroborationType.independent_observer = "independent_observer"
corroboration_text CorroborationType.post_action_readback = "post_action_readback"
corroboration_text CorroborationType.fixture_oracle = "fixture_oracle"
corroboration_text CorroborationType.self_reported = "self_reported"
corroboration_text CorroborationType.unknown = "unknown"
