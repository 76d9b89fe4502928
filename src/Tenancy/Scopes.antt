-- ===== src/Tenancy/Scopes.antt =====
-- The paths of tenants: src/actionlineage/service/tenancy.py.
use mathlib.Core.List.{append_assoc}
use action_lineage.Base.{
  not, ◌≡◌, refl, sym, ap, ap₂, ◌∙◌, subst, String, Bool, Bool-cases, true, false, List, [], ◌∷◌,
  ◌++◌, inl, inr, str_eq, eq_iff, Outcome, ok, require, ◌>>◌, >>=-eq-ok, ok_injective, contains,
}
use action_lineage.Domain.Event.{nonempty}
use action_lineage.Auth.{ServiceRole, ServicePrincipal}
use action_lineage.Tenancy.{
  FilePath, PathLibrary, TenancyError, TenantRegistry, TenantStorageLayout, TenantStorageScope,
  has_unsupported, validate_tenant_id, is_relative_to, tenant_ids, decide, require_tenant_role,
  tenant_root, tenant_candidate, tenant_child, scope_for, storage_scope,
  require_tenant_storage_scope, role_required, scope_required, path_escaped, id_required,
  id_too_long, id_not_segment, id_unsupported,
}
use action_lineage.Tenancy.Access.{IsGranted, decide_iff}

passed : {u : Unit {0}} (b : Bool) (e : TenancyError) → require b e ≡ ok u → b ≡ true
passed true e h = refl
passed false e h = cc

checked_rest :
    {A : Type 0} (b : Bool) (e : TenancyError) (rest : Outcome TenancyError A) {a : A}
    → (require b e >> rest) ≡ ok a
    → (b ≡ true) × (rest ≡ ok a)
checked_rest true e rest h = (refl, h)
checked_rest false e rest h = cc

-- A path below another one, or that path.
abbrev pub IsBelow : FilePath → FilePath → Type 0
IsBelow path root = (rest : FilePath) × (path ≡ root ++ rest)

is_relative_to-IsBelow :
    (path root : FilePath) → is_relative_to path root ≡ true → IsBelow path root
unfolding is_relative_to
is_relative_to-IsBelow path [] h = (path, refl)
is_relative_to-IsBelow [] (_ ∷ _) h = cc
is_relative_to-IsBelow (s ∷ path) (t ∷ root) h = elim (Bool-cases (str_eq s t)) [
  | inl same ↦
      let (rest, is) = is_relative_to-IsBelow path root (rw same at h) in
      (rest, ap₂ ◌∷◌ ((eq_iff s t).0 same) is)
  | inr other ↦ cc (rw other at h)
]

IsBelow-trans : (a b c : FilePath) → IsBelow a b → IsBelow b c → IsBelow a c
IsBelow-trans a b c (r, ab) (q, bc) = (q ++ r, ab ∙ ap (λ x. x ++ r) bc ∙ append_assoc c q r)

-- Neither of two paths is below the other.
abbrev pub AreApart : FilePath → FilePath → Type 0
AreApart a b = (¬ IsBelow a b) × (¬ IsBelow b a)

-- A text that is not empty and has letters, digits, underscores and dashes alone.
pub record IsSegment (id : String) : Type 0 where
  pub some_text : nonempty id ≡ true
  pub plain : has_unsupported id ≡ false

-- What is documented of pathlib: such a text is one part of a relative path.
pub record IsPathLibrary (lib : PathLibrary) : Type 0 where
  pub one_part : (id : String) → IsSegment id → lib.parts id ≡ id ∷ []
  pub relative : (id : String) → IsSegment id → lib.is_absolute id ≡ false

not-true : (b : Bool) → not b ≡ true → b ≡ false
not-true true h = cc
not-true false h = refl

valid_id :
    (id segment : String) → validate_tenant_id id ≡ ok segment → (id ≡ segment) × IsSegment id
unfolding validate_tenant_id
valid_id id segment h =
    let (present, h₁) = checked_rest _ id_required _ h in
    let (_, h₂) = checked_rest _ id_too_long _ h₁ in
    let (_, h₃) = checked_rest _ id_not_segment _ h₂ in
    let (supported, h₄) = checked_rest _ id_unsupported _ h₃ in
    (ok_injective h₄, record { some_text = present; plain = not-true _ supported })

module _ (lib : PathLibrary) where
  tenant_child-IsBelow :
      (root : FilePath) (tenant : String) (parts : List String) (path : FilePath)
      → tenant_child lib root tenant parts ≡ ok path
      → IsBelow path (tenant_root lib root tenant)
  unfolding tenant_child
  tenant_child-IsBelow root tenant parts path h =
      let candidate = tenant_candidate lib (tenant_root lib root tenant) parts in
      let (below, same) =
        checked_rest (is_relative_to candidate (tenant_root lib root tenant)) path_escaped
          (ok candidate) h in
      subst (λ x. IsBelow x (tenant_root lib root tenant)) (ok_injective same)
        (is_relative_to-IsBelow candidate (tenant_root lib root tenant) below)

  -- All paths of a scope are below the directories of its tenant.
  pub record IsConfined (layout : TenantStorageLayout) (tenant : String) (s : TenantStorageScope)
      : Type 0 where
    pub same_tenant : s.tenant_id ≡ tenant
    pub journal : IsBelow s.journal_path (tenant_root lib layout.journal_root tenant)
    pub database : IsBelow s.database_path (tenant_root lib layout.database_root tenant)
    pub exports : IsBelow s.export_root (tenant_root lib layout.export_root tenant)
    pub log : IsBelow s.service_log_path (tenant_root lib layout.log_root tenant)
    pub cache : IsBelow s.cache_root (tenant_root lib layout.cache_root tenant)
    pub anchors : IsBelow s.anchor_root (tenant_root lib layout.anchor_root tenant)
    pub anchor : IsBelow s.anchor_path (tenant_root lib layout.anchor_root tenant)
    pub anchor_log : IsBelow s.anchor_log_path (tenant_root lib layout.anchor_root tenant)

  scope_for-IsConfined :
      (layout : TenantStorageLayout) (tenant : String) (s : TenantStorageScope)
      → scope_for lib layout tenant ≡ ok s
      → IsConfined layout tenant s
  unfolding scope_for
  scope_for-IsConfined layout tenant s h =
      let (segment, valid, h₀) = >>=-eq-ok (validate_tenant_id tenant) _ h in
      let (anchors, a, h₁) = >>=-eq-ok (tenant_child lib layout.anchor_root segment []) _ h₀ in
      let (journal, j, h₂) =
        >>=-eq-ok (tenant_child lib layout.journal_root segment ("actionlineage.journal" ∷ [])) _
          h₁ in
      let (database, d, h₃) =
        >>=-eq-ok (tenant_child lib layout.database_root segment ("projection.sqlite" ∷ [])) _ h₂ in
      let (exports, e, h₄) = >>=-eq-ok (tenant_child lib layout.export_root segment []) _ h₃ in
      let (log, l, h₅) =
        >>=-eq-ok (tenant_child lib layout.log_root segment ("service.ndjson" ∷ [])) _ h₄ in
      let (cache, c, h₆) = >>=-eq-ok (tenant_child lib layout.cache_root segment []) _ h₅ in
      let below_anchors = tenant_child-IsBelow layout.anchor_root segment [] anchors a in
      subst (λ t. IsConfined layout t s) (sym ((valid_id tenant segment valid).0))
        (subst (IsConfined layout segment) (ok_injective h₆) (record {
          same_tenant = refl;
          journal = tenant_child-IsBelow layout.journal_root segment _ journal j;
          database = tenant_child-IsBelow layout.database_root segment _ database d;
          exports = tenant_child-IsBelow layout.export_root segment _ exports e;
          log = tenant_child-IsBelow layout.log_root segment _ log l;
          cache = tenant_child-IsBelow layout.cache_root segment _ cache c;
          anchors = below_anchors;
          anchor = IsBelow-trans _ anchors _ ("journal-anchor.json" ∷ [], refl) below_anchors;
          anchor_log = IsBelow-trans _ anchors _ ("anchor-log.jsonl" ∷ [], refl) below_anchors;
        }))

  -- A storage scope is handed out only to a principal who is granted the role for a known tenant,
  -- and all its paths are below the tenant's directory in the root that each belongs to.
  pub require_tenant_storage_scope-IsConfined :
      (reg : TenantRegistry) (p : ServicePrincipal) (tenant : String) (role : ServiceRole)
      (layout : TenantStorageLayout) (s : TenantStorageScope)
      → require_tenant_storage_scope lib reg p tenant role layout ≡ ok s
      → IsGranted reg p tenant role × IsConfined layout tenant s
  unfolding require_tenant_storage_scope require_tenant_role storage_scope
  require_tenant_storage_scope-IsConfined reg p tenant role layout s h =
      let (_, allowed, h₁) = >>=-eq-ok (require_tenant_role reg p tenant role) _ h in
      let (flag, _) = checked_rest (decide reg p tenant role).allowed role_required _ allowed in
      let (segment, valid, h₂) = >>=-eq-ok (validate_tenant_id tenant) _ h₁ in
      let (_, h₃) = checked_rest (contains segment (tenant_ids reg)) scope_required _ h₂ in
      let same = (valid_id tenant segment valid).0 in
      (
        (decide_iff reg p tenant role).0 flag,
        subst (λ t. IsConfined layout t s) (sym same) (scope_for-IsConfined layout segment s h₃),
      )

  -- Scopes that have no path in common: no path of one is below its counterpart in the other.
  pub record AreDisjoint (s t : TenantStorageScope) : Type 0 where
    pub journals : AreApart s.journal_path t.journal_path
    pub databases : AreApart s.database_path t.database_path
    pub exports : AreApart s.export_root t.export_root
    pub logs : AreApart s.service_log_path t.service_log_path
    pub caches : AreApart s.cache_root t.cache_root
    pub anchors : AreApart s.anchor_path t.anchor_path
    pub anchor_logs : AreApart s.anchor_log_path t.anchor_log_path
