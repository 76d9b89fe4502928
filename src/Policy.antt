-- ===== src/Policy.antt =====
-- Policy decisions and approvals: src/actionlineage/adapters/policy.py.
--
-- A time is the microseconds of its instant, as `astimezone(UTC)` gives it. The set of used nonces
-- is a list of texts; `claim` returns its result and the cache that it leaves.
pub mod Claims
use action_lineage.Base.{
  ℕ, String, Bool, true, false, not, ◌&&◌, Option, none, some, List, [], ◌∷◌, contains, leb, str_eq,
  if◌then◌else◌,
}
use action_lineage.Domain.Value.{Value, str, map, plain, end}
use action_lineage.Domain.Event.{entry, text_or_null}

pub data PolicyDecisionOutcome : Type 0 where
  allow deny require_approval dry_run error : PolicyDecisionOutcome

pub data PolicyFailureMode : Type 0 where
  fail_open fail_closed : PolicyFailureMode

pub data RiskClass : Type 0 where
  low medium high critical : RiskClass

pub data ApprovalStatus : Type 0 where
  accepted rejected : ApprovalStatus

unfoldable pub outcome_text : PolicyDecisionOutcome → String
outcome_text PolicyDecisionOutcome.allow = "allow"
outcome_text PolicyDecisionOutcome.deny = "deny"
outcome_text PolicyDecisionOutcome.require_approval = "require_approval"
outcome_text PolicyDecisionOutcome.dry_run = "dry_run"
outcome_text PolicyDecisionOutcome.error = "error"

unfoldable pub risk_class_text : RiskClass → String
risk_class_text RiskClass.low = "low"
risk_class_text RiskClass.medium = "medium"
risk_class_text RiskClass.high = "high"
risk_class_text RiskClass.critical = "critical"

unfoldable pub approval_status_text : ApprovalStatus → String
approval_status_text ApprovalStatus.accepted = "accepted"
approval_status_text ApprovalStatus.rejected = "rejected"

pub record PolicyDecision : Type 0 where
  pub outcome : PolicyDecisionOutcome
  pub policy_id : String
  pub policy_version : String
  pub reason : String
  pub risk_class : RiskClass
  pub evaluator_identity : String
  pub decision_id : Option String

abbrev pub fails_open : PolicyFailureMode → Bool
fails_open fail_open = true
fails_open fail_closed = false

unfoldable pub dispatch_allowed : PolicyDecision → PolicyFailureMode → Bool → Bool
dispatch_allowed d mode approval_accepted = elim d.outcome [
  | PolicyDecisionOutcome.allow ↦ true
  | PolicyDecisionOutcome.dry_run ↦ true
  | PolicyDecisionOutcome.require_approval ↦ approval_accepted
  | PolicyDecisionOutcome.error ↦ fails_open mode
  | PolicyDecisionOutcome.deny ↦ false
]

unfoldable pub decision_as_payload : PolicyDecision → Value
decision_as_payload d = map plain (
    entry "outcome" (str (outcome_text d.outcome)) (
      entry "policy_id" (str d.policy_id) (
        entry "policy_version" (str d.policy_version) (
          entry "reason" (str d.reason) (
            entry "risk_class" (str (risk_class_text d.risk_class)) (
              entry "evaluator_identity" (str d.evaluator_identity)
                (entry "decision_id" (text_or_null d.decision_id) end)))))))

pub record ApprovalArtifact : Type 0 where
  pub approval_id : String
  pub subject_event_id : String
  pub scope : String
  pub expires_at : ℕ
  pub nonce : String
  pub approved_by : String
  pub decision_event_id : Option String

unfoldable pub is_valid_for : ApprovalArtifact → ℕ → String → String → Bool
is_valid_for a now subject_event_id scope =
    str_eq a.subject_event_id subject_event_id && (str_eq a.scope scope && leb now a.expires_at)

-- The text of the expiry, ISO 8601 with a Z, is a parameter.
unfoldable pub artifact_as_payload : (ℕ → String) → ApprovalArtifact → Value
artifact_as_payload isoformat a = map plain (
    entry "approval_id" (str a.approval_id) (
      entry "subject_event_id" (str a.subject_event_id) (
        entry "scope" (str a.scope) (
          entry "expires_at" (str (isoformat a.expires_at)) (
            entry "nonce" (str a.nonce) (
              entry "approved_by" (str a.approved_by)
                (entry "decision_event_id" (text_or_null a.decision_event_id) end)))))))

pub record ApprovalValidationResult : Type 0 where
  pub status : ApprovalStatus
  pub reason : String
  pub approval_id : Option String

unfoldable pub is_accepted : ApprovalValidationResult → Bool
is_accepted r = elim r.status [ ApprovalStatus.accepted ↦ true | ApprovalStatus.rejected ↦ false ]

unfoldable pub result_as_payload : ApprovalValidationResult → Value
result_as_payload r = map plain (
    entry "status" (str (approval_status_text r.status))
      (entry "reason" (str r.reason) (entry "approval_id" (text_or_null r.approval_id) end)))

pub record ApprovalReplayCache : Type 0 where
  pub used_nonces : List String

abbrev pub empty_cache : ApprovalReplayCache
empty_cache = record { used_nonces = [] }

abbrev with_reason : ApprovalStatus → String → ApprovalArtifact → ApprovalValidationResult
with_reason status reason a = record {
  status = status;
  reason = reason;
  approval_id = some a.approval_id;
}

-- A request: an approval, presented at a time for a subject and a scope.
pub record Request : Type 0 where
  pub artifact : ApprovalArtifact
  pub now : ℕ
  pub subject_event_id : String
  pub scope : String

abbrev pub is_valid_request : Request → Bool
is_valid_request r = is_valid_for r.artifact r.now r.subject_event_id r.scope

unfoldable pub claim :
    ApprovalReplayCache → Request → ApprovalValidationResult × ApprovalReplayCache
claim cache r =
    if contains r.artifact.nonce cache.used_nonces
    then (with_reason ApprovalStatus.rejected "approval nonce was already used" r.artifact, cache)
    else if is_valid_request r
    then (
      with_reason ApprovalStatus.accepted "approval accepted" r.artifact,
      record { used_nonces = r.artifact.nonce ∷ cache.used_nonces },
    )
    else (
      with_reason ApprovalStatus.rejected "approval scope, subject, or expiry is invalid"
          r.artifact,
      cache,
    )
