-- ===== src/Auth/Grants.antt =====
-- What roles grant.
use action_lineage.Base.{
  eq_iff, ◌≡◌, refl, sym, ap, ◌∙◌, Bool, true, false, ◌||◌, List, [], ◌∷◌, ◌++◌, any_of, all_of,
  str_eq, ok, require, &&-true, Bool-cases, inl, inr, arith, String,
}
use action_lineage.Auth.{
  ServiceRole, ServiceCapability, ServicePrincipal, capability_text, role_capabilities, has,
  granted_by, roles_grant, effective_capabilities, require_role, require_capability, role_required,
  capability_required,
}

has-append :
    (c : ServiceCapability) (xs ys : List ServiceCapability)
    → has c (xs ++ ys) ≡ (has c xs || has c ys)
has-append c [] ys = refl
has-append c (x ∷ xs) ys =
    rw (has-append c xs ys)
      (or_assoc (str_eq (capability_text c) (capability_text x)) (has c xs) (has c ys))
  where
    or_assoc : (a b d : Bool) → (a || (b || d)) ≡ ((a || b) || d)
    or_assoc a b d = ground arith

-- The roles grant a capability, or it was there.
has-granted_by :
    (c : ServiceCapability) (roles : List ServiceRole) (xs : List ServiceCapability)
    → has c (granted_by roles xs) ≡ (has c xs || any_of (λ r. has c (role_capabilities r)) roles)
unfolding granted_by
has-granted_by c [] xs = or_false (has c xs)
  where
    or_false : (a : Bool) → a ≡ (a || false)
    or_false a = ground arith
has-granted_by c (r ∷ roles) xs =
    has-granted_by c roles (xs ++ role_capabilities r)
    ∙ rw (has-append c xs (role_capabilities r)) (
        or_assoc (has c xs) (has c (role_capabilities r))
          (any_of (λ s. has c (role_capabilities s)) roles))
  where
    or_assoc : (a b d : Bool) → ((a || b) || d) ≡ (a || (b || d))
    or_assoc a b d = ground arith

-- A principal has a capability exactly if it carries it or one of its roles grants it.
pub has_capability-eq :
    (c : ServiceCapability) (p : ServicePrincipal)
    → has c (effective_capabilities p)
      ≡ (has c p.capabilities || any_of (λ r. has c (role_capabilities r)) p.roles)
unfolding effective_capabilities
has_capability-eq c p = has-granted_by c p.roles p.capabilities

str_eq-eq : (s t : String) → str_eq s t ≡ true → s ≡ t
str_eq-eq s t = (eq_iff s t).0

-- What holds of all of a role's capabilities holds of each, as they are told apart by their texts.
each_has :
    (c : ServiceCapability) (caps xs : List ServiceCapability)
    → all_of (λ d. has d caps) xs ≡ true
    → has c xs ≡ true
    → has c caps ≡ true
each_has c caps [] h k = cc
each_has c caps (x ∷ xs) h k =
    let (first, rest) = &&-true (has x caps) (all_of (λ d. has d caps) xs) h in
    elim (Bool-cases (str_eq (capability_text c) (capability_text x))) [
      | inl same ↦
          ap (λ t. any_of (λ d. str_eq t (capability_text d)) caps) (str_eq-eq _ _ same) ∙ first
      | inr other ↦ each_has c caps xs rest (sym (drop other) ∙ k)
    ]
  where
    drop : str_eq (capability_text c) (capability_text x) ≡ false → has c (x ∷ xs) ≡ has c xs
    drop other = rw other

-- A principal that passes a check for a role passes the check for every capability of that role.
pub require_role-require_capability :
    (p : ServicePrincipal) (r : ServiceRole) (c : ServiceCapability)
    → require_role p r ≡ ok tt
    → has c (role_capabilities r) ≡ true
    → require_capability p c ≡ ok tt
unfolding require_role require_capability roles_grant effective_capabilities
require_role-require_capability p r c h k =
    let granted = each_has c (granted_by p.roles []) (role_capabilities r) (passed _ h) k in
    let by_role = sym (has-granted_by c p.roles []) ∙ granted in
    rw (has-granted_by c p.roles p.capabilities) (rw by_role (any_way (has c p.capabilities)))
  where
    passed : (b : Bool) → require b (role_required r) ≡ ok tt → b ≡ true
    passed true e = refl
    passed false e = cc

    any_way : (b : Bool) → require (b || true) (capability_required c) ≡ ok tt
    any_way true = refl
    any_way false = refl
