-- ===== src/Observers/Independence.antt =====
-- When an observation is accepted as an independent observer's.
use action_lineage.Base.{
  ℕ, suc, ℤ, ◌+◌, ◌≤◌, String, ◌≡◌, refl, sym, ap, ◌∙◌, Bool, true, false, not, Option, none, some,
  List, [], ◌∷◌, ◌++◌, All, ltb, str_eq, eq_iff, if◌then◌else◌, ok, >>=-eq-ok, ok_injective, arith,
}
use action_lineage.Domain.Event.Names.{ResourceType, CorroborationType}
use action_lineage.Observers.{ObservationOutcome}
use action_lineage.Observers.Attestation.{
  AttestationEvidenceKind, IndependenceBoundary, IndependenceBoundaryStatus,
  ObserverAttestationDeclaration, Reason, reason_if, is_stale, is_live_telemetry, scope_contains,
  has_resource_type, boundary_status, boundary_reasons, each_boundary, expiry_reasons,
  resource_reasons, dependency_reasons, action_reasons, declaration_reasons,
  independent_claim_rejection_reasons, required_independence_boundaries,
}
use action_lineage.Observers.Decisions.{
  VerificationDecision, EvidenceLink, Claim, verify_observation, none_left, validate_link,
  is_independent_observer, require_attestation, event_type_for_status, relationship_for_status,
}

-- At most so many days between a review and today; a negative number of them means a review that
-- many days ahead.
abbrev pub IsFresh : ℕ → ℕ → ℤ → Type 0
IsFresh reviewed today (ℤ.pos days) = today ≤ reviewed + days
IsFresh reviewed today (ℤ.negsuc n) = today + suc n ≤ reviewed

-- The declaration is for this observer and its live telemetry, covers the action and the resource,
-- was reviewed by now and lately enough, is still valid, shares nothing with the subject, and
-- every boundary is declared independent.
pub record IsIndependent (is_blank : String → Bool) (a : ObserverAttestationDeclaration)
    (o : ObservationOutcome) (action : Option String) (resource : Option ResourceType) (today : ℕ)
    (max_age : ℤ) : Type 0 where
  pub identity : a.observer_identity ≡ o.observer_identity
  pub telemetry : a.evidence_kind ≡ AttestationEvidenceKind.independent_live_telemetry
  pub action_in_scope :
      (s : String) × (action ≡ some s)
      × (is_blank s ≡ false)
      × (scope_contains a.subject_action_types s ≡ true)
  pub resource_in_scope :
      (r : ResourceType) × (resource ≡ some r) × (has_resource_type r a.resource_types ≡ true)
  pub reviewed : a.reviewed_at ≤ today
  pub current : (u : ℕ) → a.valid_until ≡ some u → today ≤ u
  pub fresh : IsFresh a.reviewed_at today max_age
  pub unshared : a.shared_dependencies ≡ []
  pub boundaries :
      All
        (λ b.
          boundary_status a.independence_boundaries b ≡ some IndependenceBoundaryStatus.independent)
        required_independence_boundaries

append-eq-nil : {A : Type 0} (xs ys : List A) → xs ++ ys ≡ [] → (xs ≡ []) × (ys ≡ [])
append-eq-nil [] ys h = (refl, h)
append-eq-nil (x ∷ xs) ys h = cc

no_reason : (b : Bool) (r : Reason) → reason_if b r ≡ [] → b ≡ false
no_reason true r h = cc
no_reason false r h = refl

not-false : (b : Bool) → not b ≡ false → b ≡ true
not-false true h = refl
not-false false h = cc

telemetry_only :
    (k : AttestationEvidenceKind)
    → is_live_telemetry k ≡ true
    → k ≡ AttestationEvidenceKind.independent_live_telemetry
telemetry_only AttestationEvidenceKind.independent_live_telemetry h = refl
telemetry_only _ h = cc

in_scope :
    (is_blank : String → Bool) (action : Option String) (scope : List String)
    → action_reasons is_blank action scope ≡ []
    → (s : String) × (action ≡ some s) × (is_blank s ≡ false) × (scope_contains scope s ≡ true)
in_scope is_blank none scope h = cc
in_scope is_blank (some s) scope h = let (b, k) = stated (is_blank s) refl h in (s, refl, b, k)
  where
    stated :
        (b : Bool)
        → is_blank s ≡ b
        → (if b
            then Reason.action_required ∷ []
            else reason_if (not (scope_contains scope s)) Reason.action_out_of_scope)
          ≡ []
        → (is_blank s ≡ false) × (scope_contains scope s ≡ true)
    stated true e k = cc
    stated false e k = (e, not-false _ (no_reason _ _ k))

resource_found :
    (resource : Option ResourceType) (scope : List ResourceType)
    → resource_reasons resource scope ≡ []
    → (r : ResourceType) × (resource ≡ some r) × (has_resource_type r scope ≡ true)
resource_found none scope h = cc
resource_found (some r) scope h = (r, refl, not-false _ (no_reason _ _ h))

not_expired :
    (valid_until : Option ℕ) (today : ℕ)
    → expiry_reasons valid_until today ≡ []
    → (u : ℕ) → valid_until ≡ some u
    → today ≤ u
not_expired none today h u e = cc
not_expired (some v) today h u e =
    ltb-false u today (ap (λ w. ltb w today) (sym same) ∙ no_reason _ _ h)
  where
    same : v ≡ u
    same = cc

    ltb-false : (m n : ℕ) → ltb m n ≡ false → n ≤ m
    ltb-false m n k = ground arith

not_ltb : (m n : ℕ) → ltb m n ≡ false → n ≤ m
not_ltb m n k = ground arith

nothing_shared : (xs : List String) → dependency_reasons xs ≡ [] → xs ≡ []
nothing_shared [] h = refl
nothing_shared (x ∷ xs) h = cc

one_boundary :
    (b : IndependenceBoundary) (s : Option IndependenceBoundaryStatus)
    → boundary_reasons b s ≡ []
    → s ≡ some IndependenceBoundaryStatus.independent
one_boundary b none h = cc
one_boundary b (some IndependenceBoundaryStatus.independent) h = refl
one_boundary b (some _) h = cc

every_boundary :
    (statuses : List (IndependenceBoundary × IndependenceBoundaryStatus))
    (bs : List IndependenceBoundary)
    → each_boundary statuses bs ≡ []
    → All (λ b. boundary_status statuses b ≡ some IndependenceBoundaryStatus.independent) bs
every_boundary statuses [] h = tt
every_boundary statuses (b ∷ bs) h =
    let (first, rest) = append-eq-nil (boundary_reasons b (boundary_status statuses b)) _ h in
    (one_boundary b _ first, every_boundary statuses bs rest)

not_stale :
    (reviewed today : ℕ) (max_age : ℤ)
    → is_stale reviewed today max_age ≡ false
    → IsFresh reviewed today max_age
not_stale reviewed today (ℤ.pos days) h = not_ltb _ _ h
not_stale reviewed today (ℤ.negsuc n) h = not_ltb _ _ h

module _ (is_blank : String → Bool) where
  pub declaration_reasons-IsIndependent :
      (a : ObserverAttestationDeclaration) (o : ObservationOutcome) (action : Option String)
      (resource : Option ResourceType) (today : ℕ) (max_age : ℤ)
      → declaration_reasons is_blank a o action resource today max_age ≡ []
      → IsIndependent is_blank a o action resource today max_age
  unfolding declaration_reasons
  declaration_reasons-IsIndependent a o action resource today max_age h =
      let (h₁, t₁) =
        append-eq-nil (reason_if (not (str_eq a.observer_identity o.observer_identity)) _) _ h in
      let (h₂, t₂) = append-eq-nil (reason_if (not (is_live_telemetry a.evidence_kind)) _) _ t₁ in
      let (h₃, t₃) = append-eq-nil (action_reasons is_blank action a.subject_action_types) _ t₂ in
      let (h₄, t₄) = append-eq-nil (resource_reasons resource a.resource_types) _ t₃ in
      let (h₅, t₅) = append-eq-nil (reason_if (ltb today a.reviewed_at) _) _ t₄ in
      let (h₆, t₆) = append-eq-nil (expiry_reasons a.valid_until today) _ t₅ in
      let (h₇, t₇) = append-eq-nil (reason_if (is_stale a.reviewed_at today max_age) _) _ t₆ in
      let (h₈, t₈) = append-eq-nil (dependency_reasons a.shared_dependencies) _ t₇ in
      record {
        identity = (eq_iff _ _).0 (not-false _ (no_reason _ _ h₁));
        telemetry = telemetry_only _ (not-false _ (no_reason _ _ h₂));
        action_in_scope = in_scope is_blank action a.subject_action_types h₃;
        resource_in_scope = resource_found resource a.resource_types h₄;
        reviewed = not_ltb _ _ (no_reason _ _ h₅);
        current = not_expired a.valid_until today h₆;
        fresh = not_stale a.reviewed_at today max_age (no_reason _ _ h₇);
        unshared = nothing_shared a.shared_dependencies h₈;
        boundaries = every_boundary a.independence_boundaries required_independence_boundaries t₈;
      }

  attested :
      (m : Option ObserverAttestationDeclaration) (o : ObservationOutcome) (action : Option String)
      (resource : Option ResourceType) (today : ℕ) (max_age : ℤ) {u : Unit {0}}
      → none_left (independent_claim_rejection_reasons is_blank m o action resource today max_age)
        ≡ ok u
      → (a : ObserverAttestationDeclaration) × (m ≡ some a)
        × IsIndependent is_blank a o action resource today max_age
  unfolding independent_claim_rejection_reasons
  attested none o action resource today max_age h = cc
  attested (some a) o action resource today max_age h = (
    a,
    refl,
    declaration_reasons-IsIndependent a o action resource today max_age (nothing_left _ h),
  )
    where
      nothing_left : (rs : List Reason) {v : Unit {0}} → none_left rs ≡ ok v → rs ≡ []
      nothing_left [] e = refl
      nothing_left (r ∷ rs) e = cc

  same_link : (l k : EvidenceLink) → validate_link l ≡ ok k → k ≡ l
  unfolding validate_link
  same_link l k h = ground arith

  -- A decision that claims an independent observer rests on a declaration, for the observer of the
  -- observation, that is independent in every respect. Its link is the observer's, and the event
  -- type and the relationship are those of the link's status.
  pub verify_observation-IsIndependent :
      (c : Claim) (o : ObservationOutcome) (d : VerificationDecision)
      → verify_observation is_blank c o ≡ ok d
      → d.evidence_link.corroboration_type ≡ CorroborationType.independent_observer
      → (a : ObserverAttestationDeclaration) × (c.attestation ≡ some a)
        × IsIndependent is_blank a o c.action c.resource c.today c.max_age
        × (d.evidence_link.observer_identity ≡ o.observer_identity)
        × (d.event_type ≡ event_type_for_status d.evidence_link.verification_status)
        × (d.evidence_link.relationship
            ≡ relationship_for_status d.evidence_link.verification_status)
  unfolding verify_observation
  verify_observation-IsIndependent c o d h independent =
      let (_, h₁, h₂) = >>=-eq-ok (require_attestation is_blank c o) _ h in
      let (link, h₃, h₄) = >>=-eq-ok (validate_link _) _ h₂ in
      let is = ok_injective h₄ in
      let same = same_link _ link h₃ in
      let kind : c.corroboration_type ≡ CorroborationType.independent_observer =
        ap (λ l. l.corroboration_type) (sym same)
        ∙ ap (λ x. x.evidence_link.corroboration_type) is
        ∙ independent in
      let needed =
        ap
          (λ k.
            if is_independent_observer k
            then none_left (
                independent_claim_rejection_reasons is_blank c.attestation o c.action c.resource
                  c.today c.max_age)
            else ok tt)
          (sym kind)
        ∙ h₁ in
      let (a, given, good) =
        attested c.attestation o c.action c.resource c.today c.max_age needed in
      (
        a,
        given,
        good,
        ap (λ x. x.evidence_link.observer_identity) (sym is) ∙ ap (λ l. l.observer_identity) same,
        cc,
        cc,
      )
