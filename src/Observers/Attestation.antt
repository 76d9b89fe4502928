-- ===== src/Observers/Attestation.antt =====
-- When an observer may be called independent: src/actionlineage/observers/attestation.py.
--
-- A declaration has the fields that the decision reads. A date is its number of days. The members
-- of an enumeration are compared by their texts. The reasons of a rejection are constructors in
-- place of messages. `str.strip` is a parameter, through the test that nothing is left of a text.
use action_lineage.Base.{
  ℕ, suc, ℤ, ◌+◌, String, Bool, true, false, not, ◌||◌, Option, none, some, List, [], ◌∷◌, ◌++◌,
  contains, any_of, ltb, str_eq, if◌then◌else◌,
}
use action_lineage.Domain.Event.Names.{ResourceType, resource_type_text}
use action_lineage.Observers.{ObservationOutcome}

pub data AttestationEvidenceKind : Type 0 where
  independent_live_telemetry external_sensor_feed fixture_oracle : AttestationEvidenceKind
  post_action_readback self_reported unknown : AttestationEvidenceKind

pub data IndependenceBoundary : Type 0 where
  tool principal credential execution_host network_path storage_plane : IndependenceBoundary
  administrative_control_plane : IndependenceBoundary

pub data IndependenceBoundaryStatus : Type 0 where
  independent shared unknown not_applicable : IndependenceBoundaryStatus

unfoldable pub boundary_text : IndependenceBoundary → String
boundary_text IndependenceBoundary.tool = "tool"
boundary_text IndependenceBoundary.principal = "principal"
boundary_text IndependenceBoundary.credential = "credential"
boundary_text IndependenceBoundary.execution_host = "execution_host"
boundary_text IndependenceBoundary.network_path = "network_path"
boundary_text IndependenceBoundary.storage_plane = "storage_plane"
boundary_text IndependenceBoundary.administrative_control_plane = "administrative_control_plane"

abbrev pub required_independence_boundaries : List IndependenceBoundary
required_independence_boundaries =
    IndependenceBoundary.tool ∷ IndependenceBoundary.principal ∷ IndependenceBoundary.credential
    ∷ IndependenceBoundary.execution_host ∷ IndependenceBoundary.network_path
    ∷ IndependenceBoundary.storage_plane ∷ IndependenceBoundary.administrative_control_plane ∷ []

pub record ObserverAttestationDeclaration : Type 0 where
  pub observer_identity : String
  pub subject_action_types : List String
  pub resource_types : List ResourceType
  pub evidence_kind : AttestationEvidenceKind
  pub independence_boundaries : List (IndependenceBoundary × IndependenceBoundaryStatus)
  pub shared_dependencies : List String
  pub reviewed_at : ℕ
  pub valid_until : Option ℕ

pub data Reason : Type 0 where
  missing_declaration other_observer not_live_telemetry action_required action_out_of_scope : Reason
  resource_required resource_out_of_scope reviewed_in_future expired stale shares_dependencies :
      Reason
  boundary_missing : IndependenceBoundary → Reason
  boundary_is : IndependenceBoundary → IndependenceBoundaryStatus → Reason

-- `if test: reasons.append(reason)`.
abbrev pub reason_if : Bool → Reason → List Reason
reason_if true r = r ∷ []
reason_if false r = []

abbrev pub is_live_telemetry : AttestationEvidenceKind → Bool
is_live_telemetry AttestationEvidenceKind.independent_live_telemetry = true
is_live_telemetry _ = false

abbrev pub scope_contains : List String → String → Bool
scope_contains values value = contains "*" values || contains value values

abbrev pub has_resource_type : ResourceType → List ResourceType → Bool
has_resource_type r rs = any_of (λ s. str_eq (resource_type_text r) (resource_type_text s)) rs

-- `independence_boundaries.get(boundary)`.
unfoldable pub boundary_status :
    List (IndependenceBoundary × IndependenceBoundaryStatus)
    → IndependenceBoundary
    → Option IndependenceBoundaryStatus
boundary_status [] b = none
boundary_status ((c, status) ∷ rest) b =
    if str_eq (boundary_text c) (boundary_text b) then some status else boundary_status rest b

abbrev pub boundary_reasons : IndependenceBoundary → Option IndependenceBoundaryStatus → List Reason
boundary_reasons b none = boundary_missing b ∷ []
boundary_reasons b (some IndependenceBoundaryStatus.independent) = []
boundary_reasons b (some status) = boundary_is b status ∷ []

abbrev pub each_boundary :
    List (IndependenceBoundary × IndependenceBoundaryStatus)
    → List IndependenceBoundary
    → List Reason
each_boundary statuses [] = []
each_boundary statuses (b ∷ bs) =
    boundary_reasons b (boundary_status statuses b) ++ each_boundary statuses bs

abbrev pub expiry_reasons : Option ℕ → ℕ → List Reason
expiry_reasons none today = []
expiry_reasons (some until) today = reason_if (ltb until today) expired

abbrev pub resource_reasons : Option ResourceType → List ResourceType → List Reason
resource_reasons none scope = resource_required ∷ []
resource_reasons (some r) scope = reason_if (not (has_resource_type r scope)) resource_out_of_scope

abbrev pub dependency_reasons : List String → List Reason
dependency_reasons [] = []
dependency_reasons (_ ∷ _) = shares_dependencies ∷ []

-- `(today - reviewed_at).days > max_review_age_days`, where the limit may be negative.
abbrev pub is_stale : ℕ → ℕ → ℤ → Bool
is_stale reviewed today (ℤ.pos days) = ltb (reviewed + days) today
is_stale reviewed today (ℤ.negsuc n) = ltb reviewed (today + suc n)

module _ (is_blank : String → Bool) where
  abbrev pub action_reasons : Option String → List String → List Reason
  action_reasons none scope = action_required ∷ []
  action_reasons (some action) scope =
      if is_blank action
      then action_required ∷ []
      else reason_if (not (scope_contains scope action)) action_out_of_scope

  -- `today` is the reference date; a review is stale more than `max_age` days after it.
  unfoldable pub declaration_reasons :
      ObserverAttestationDeclaration
      → ObservationOutcome
      → Option String
      → Option ResourceType
      → ℕ
      → ℤ
      → List Reason
  declaration_reasons a o action resource today max_age =
      reason_if (not (str_eq a.observer_identity o.observer_identity)) other_observer
      ++ (reason_if (not (is_live_telemetry a.evidence_kind)) not_live_telemetry
          ++ (action_reasons action a.subject_action_types
              ++ (resource_reasons resource a.resource_types
                  ++ (reason_if (ltb today a.reviewed_at) reviewed_in_future
                      ++ (expiry_reasons a.valid_until today
                          ++ (reason_if (is_stale a.reviewed_at today max_age) stale
                              ++ (dependency_reasons a.shared_dependencies
                                  ++ each_boundary a.independence_boundaries
                                      required_independence_boundaries)))))))

  unfoldable pub independent_claim_rejection_reasons :
      Option ObserverAttestationDeclaration
      → ObservationOutcome
      → Option String
      → Option ResourceType
      → ℕ
      → ℤ
      → List Reason
  independent_claim_rejection_reasons none o action resource today max_age =
      missing_declaration ∷ []
  independent_claim_rejection_reasons (some a) o action resource today max_age =
      declaration_reasons a o action resource today max_age
