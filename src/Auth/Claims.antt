-- ===== src/Auth/Claims.antt =====
-- Principals that come from the claims of a token.
use action_lineage.Base.{
  String, ◌≡◌, ◌≢◌, refl, sym, ap, ◌∙◌, Bool, true, false, not, List, [], ◌∷◌, ◌++◌, if◌then◌else◌,
  ok, require, ◌>>◌, >>=-eq-ok, ok_injective, subst, some,
}
use action_lineage.Domain.Value.{Value, str, seq, map, plain, Items, nil, cons}
use action_lineage.Domain.Event.{nonempty}
use action_lineage.Domain.Value.Members.{get}
use action_lineage.Auth.{
  ServiceRole, ServiceCapability, ServicePrincipal, invalid_roles, invalid_principal, role_text,
  all_roles, role_capabilities, granted_by, effective_capabilities, find_text, from_texts, texts_of,
  raw_texts, roles_from_claim, capabilities_from_claim, principal_from_claims, ClaimNames,
  principal_text, is_empty,
}

-- The JSON array of the texts of some roles.
abbrev pub role_items : List ServiceRole → Items
role_items [] = nil
role_items (r ∷ rs) = cons (str (role_text r)) (role_items rs)

find_role : (r : ServiceRole) → find_text role_text all_roles (role_text r) ≡ some r
unfolding find_text role_text
find_role ServiceRole.read = refl
find_role ServiceRole.write = refl
find_role ServiceRole.export = refl
find_role ServiceRole.admin = refl

abbrev texts : List ServiceRole → List String
texts [] = []
texts (r ∷ rs) = role_text r ∷ texts rs

texts_of-role_items :
    (rs : List ServiceRole) → texts_of invalid_roles (role_items rs) ≡ ok (texts rs)
unfolding texts_of
texts_of-role_items [] = refl
texts_of-role_items (r ∷ rs) = rw (texts_of-role_items rs)

from_texts-texts :
    (rs : List ServiceRole) → from_texts role_text all_roles invalid_roles (texts rs) ≡ ok rs
unfolding from_texts
from_texts-texts [] = refl
from_texts-texts (r ∷ rs) = rw (find_role r, from_texts-texts rs)

named : (v : Value) (s : String) → principal_text v ≡ ok s → nonempty s ≡ true
named (str t) s h = checked (nonempty t) refl h
  where
    checked :
        (b : Bool)
        → nonempty t ≡ b
        → (require b invalid_principal >> ok t) ≡ ok s
        → nonempty s ≡ true
    checked true e k = ap nonempty (sym (ok_injective k)) ∙ e
    checked false e k = cc
named _ s h = cc

granted_by-cons :
    (roles : List ServiceRole) (c : ServiceCapability) (cs : List ServiceCapability)
    → granted_by roles (c ∷ cs) ≢ []
unfolding granted_by
granted_by-cons [] c cs h = cc
granted_by-cons (r ∷ roles) c cs h = granted_by-cons roles c (cs ++ role_capabilities r) h

granted_by-role : (r : ServiceRole) (roles : List ServiceRole) → granted_by (r ∷ roles) [] ≢ []
unfolding granted_by role_capabilities
granted_by-role ServiceRole.read roles h = granted_by-cons roles _ _ h
granted_by-role ServiceRole.write roles h = granted_by-cons roles _ _ h
granted_by-role ServiceRole.export roles h = granted_by-cons roles _ _ h
granted_by-role ServiceRole.admin roles h = granted_by-cons roles _ _ h

-- Roles that pass the check that there are some, if there are no capabilities.
granted_by-able :
    (caps : List ServiceCapability) (roles rs : List ServiceRole)
    → (require (not (if is_empty caps then is_empty roles else false)) invalid_roles >> ok roles)
      ≡ ok rs
    → granted_by rs caps ≢ []
granted_by-able (c ∷ cs) roles rs h = granted_by-cons rs c cs
granted_by-able [] [] rs h = cc
granted_by-able [] (r ∷ roles) rs h =
    subst (λ x. granted_by x [] ≢ []) (ok_injective h) (granted_by-role r roles)

module _ (split : String → List String) where
  -- A claim that lists the texts of some roles is read as those roles, in their order, except that
  -- it is refused where roles are required and there are none.
  pub roles_from_claim-role_items :
      (rs : List ServiceRole) (required : Bool)
      → roles_from_claim split (seq plain (role_items rs)) required
        ≡ (require (not (if required then is_empty rs else false)) invalid_roles >> ok rs)
  unfolding roles_from_claim raw_texts
  roles_from_claim-role_items rs required = rw (texts_of-role_items rs) (rw (from_texts-texts rs))

  -- A principal that is made from claims has a name, and a role or a capability.
  pub principal_from_claims-able :
      (names : ClaimNames) (claims : Value) (p : ServicePrincipal)
      → principal_from_claims split names claims ≡ ok p
      → (nonempty p.principal_id ≡ true) × (effective_capabilities p ≢ [])
  unfolding principal_from_claims roles_from_claim effective_capabilities
  principal_from_claims-able names (map plain fs) p h =
      let (id, hid, h₁) = >>=-eq-ok (principal_text (get names.principal fs)) _ h in
      let (caps, hc, h₂) =
        >>=-eq-ok (capabilities_from_claim split (get names.capabilities fs)) _ h₁ in
      let (roles, hr, h₃) =
        >>=-eq-ok (roles_from_claim split (get names.roles fs) (is_empty caps)) _ h₂ in
      let (_, _, k₁) = >>=-eq-ok (raw_texts split invalid_roles (get names.roles fs)) _ hr in
      let (raw, _, k₂) = >>=-eq-ok (from_texts role_text all_roles invalid_roles _) _ k₁ in
      let is = ok_injective h₃ in
      (
        subst (λ q. nonempty q.principal_id ≡ true) is (named (get names.principal fs) id hid),
        subst (λ q. effective_capabilities q ≢ []) is (granted_by-able caps raw roles k₂),
      )
  principal_from_claims-able names _ p h = cc
