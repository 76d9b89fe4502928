-- ===== src/Tenancy/Access.antt =====
-- Who may act for a tenant: src/actionlineage/service/tenancy.py.
use action_lineage.Base.{
  ◌≡◌, ◌↔◌, refl, ap, ◌∙◌, String, Bool, Bool-cases, true, List, [], ◌∷◌, ◌++◌, &&-true, inl, inr,
  str_eq, eq_iff, any_of, contains,
}
use action_lineage.Auth.{ServiceRole, ServicePrincipal, has_role, roles_grant}
use action_lineage.Tenancy.{TenantRegistry, TenantRoleBinding, tenant_ids, binding_grants, decide}

-- A test that some item of a list passes.
any_of-some :
    {A : Type 0} (test : A → Bool) (xs : List A)
    → any_of test xs ≡ true
    → (x : A) × (before after : List A) × (xs ≡ before ++ x ∷ after) × (test x ≡ true)
any_of-some test [] h = cc
any_of-some test (x ∷ xs) h = elim (Bool-cases (test x)) [
  | inl hit ↦ (x, [], xs, refl, hit)
  | inr miss ↦
      let (y, before, after, same, hit) = any_of-some test xs (rw miss at h) in
      (y, x ∷ before, after, ap (λ zs. x ∷ zs) same, hit)
]

any_of-among :
    {A : Type 0} (test : A → Bool) (x : A) (before after : List A)
    → test x ≡ true
    → any_of test (before ++ x ∷ after) ≡ true
any_of-among test x [] after h = rw h
any_of-among test x (y ∷ before) after h = elim (Bool-cases (test y)) [
  | inl hit ↦ rw hit refl
  | inr miss ↦ rw miss (any_of-among test x before after h)
]

-- A grant: the tenant is known, the principal has the role, and a binding of the tenant gives it to
-- the principal.
pub record IsGranted (reg : TenantRegistry) (p : ServicePrincipal) (tenant : String)
    (role : ServiceRole) : Type 0 where
  pub known : contains tenant (tenant_ids reg) ≡ true
  pub able : has_role p role ≡ true
  pub binding : TenantRoleBinding
  pub before : List TenantRoleBinding
  pub after : List TenantRoleBinding
  pub bound : reg.bindings ≡ before ++ binding ∷ after
  pub same_tenant : binding.tenant_id ≡ tenant
  pub same_principal : binding.principal_id ≡ p.principal_id
  pub grants : roles_grant binding.roles role ≡ true

-- A decision allows what is granted, and nothing else.
pub decide_iff :
    (reg : TenantRegistry) (p : ServicePrincipal) (tenant : String) (role : ServiceRole)
    → ((decide reg p tenant role).allowed ≡ true) ↔ IsGranted reg p tenant role
unfolding decide
decide_iff reg p tenant role = (sound, complete)
  where
    granted :
        contains tenant (tenant_ids reg) ≡ true
        → has_role p role ≡ true
        → any_of (binding_grants tenant p.principal_id role) reg.bindings ≡ true
        → IsGranted reg p tenant role
    granted known able found =
        let (b, before, after, bound, hit) =
          any_of-some (binding_grants tenant p.principal_id role) reg.bindings found in
        let (tenants, rest) = &&-true (str_eq b.tenant_id tenant) _ hit in
        let (principals, grants) = &&-true (str_eq b.principal_id p.principal_id) _ rest in
        record {
          known = known;
          able = able;
          binding = b;
          before = before;
          after = after;
          bound = bound;
          same_tenant = (eq_iff b.tenant_id tenant).0 tenants;
          same_principal = (eq_iff b.principal_id p.principal_id).0 principals;
          grants = grants;
        }

    sound : (decide reg p tenant role).allowed ≡ true → IsGranted reg p tenant role
    sound h = elim (Bool-cases (contains tenant (tenant_ids reg))) [
      | inr unknown ↦ cc (rw unknown at h)
      | inl known ↦ elim (Bool-cases (has_role p role)) [
        | inr unable ↦ cc (rw (known, unable) at h)
        | inl able ↦
            elim (Bool-cases (any_of (binding_grants tenant p.principal_id role) reg.bindings)) [
              | inr missing ↦ cc (rw (known, able, missing) at h)
              | inl found ↦ granted known able found
            ]
      ]
    ]

    binds :
        (g : IsGranted reg p tenant role)
        → binding_grants tenant p.principal_id role g.binding ≡ true
    binds g =
        rw
          (
            (eq_iff g.binding.tenant_id tenant).1 g.same_tenant,
            (eq_iff g.binding.principal_id p.principal_id).1 g.same_principal,
          )
          g.grants

    complete : IsGranted reg p tenant role → (decide reg p tenant role).allowed ≡ true
    complete g =
        let found : any_of (binding_grants tenant p.principal_id role) reg.bindings ≡ true =
          ap (any_of (binding_grants tenant p.principal_id role)) g.bound
          ∙ any_of-among (binding_grants tenant p.principal_id role) g.binding g.before g.after
              (binds g) in
        rw (g.known, g.able, found) refl
