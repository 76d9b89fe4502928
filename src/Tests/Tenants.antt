-- ===== src/Tests/Tenants.antt =====
-- Two tenants and their paths: src/actionlineage/service/tenancy.py.
use Prim.Native.Char.{Char, code}
use action_lineage.Base.{
  List, Bool, false, ◌==◌, if◌then◌else◌, ◌≡◌, ◌↔◌, refl, true, [], ◌∷◌, ok, str_eq, String,
}
use action_lineage.Auth.{
  ServiceRole, ServicePrincipal, roles_grant, role_capabilities, capability_text, granted_by,
}
use action_lineage.Tenancy.{
  PathLibrary, TenantRegistry, TenantStorageLayout, TenantStorageScope, decide, scope_for,
  tenant_child, validate_tenant_id, has_unsupported, has_char, is_relative_to, storage_scope,
  require_tenant_role, require_tenant_storage_scope, under_base,
}
use action_lineage.Tenancy.Access.{IsGranted, decide_iff}
use action_lineage.Tenancy.Scopes.{IsConfined, require_tenant_storage_scope-IsConfined}

-- The parts between slashes.
abbrev onto_part : Char → List String → List String
onto_part c [] = String.◌∷◌ c "" ∷ []
onto_part c (part ∷ parts) = String.◌∷◌ c part ∷ parts

unfoldable cut_parts : String → List String
cut_parts String.[] = []
cut_parts (String.◌∷◌ c s) = if code c == 47 then "" ∷ cut_parts s else onto_part c (cut_parts s)

abbrev starts_at_root : String → Bool
starts_at_root String.[] = false
starts_at_root (String.◌∷◌ c s) = code c == 47

-- A file system without links.
abbrev plain_paths : PathLibrary
plain_paths = record {
  parts = cut_parts;
  is_absolute = starts_at_root;
  is_blank = λ s. str_eq s "";
  resolve = λ path. path;
}

abbrev writer : ServicePrincipal
writer = record { principal_id = "p"; roles = ServiceRole.write ∷ []; capabilities = [] }

abbrev registry : TenantRegistry
registry = record {
  tenants =
      record { tenant_id = "red"; display_name = "Red"; tags = [] }
      ∷ record { tenant_id = "blue"; display_name = "Blue"; tags = [] }
      ∷ [];
  bindings = record { tenant_id = "blue"; principal_id = "p"; roles = ServiceRole.write ∷ [] } ∷ [];
}

abbrev layout : TenantStorageLayout
layout = under_base ("data" ∷ [])

abbrev scope_of : String → TenantStorageScope
scope_of tenant = record {
  tenant_id = tenant;
  journal_path = "data" ∷ "journals" ∷ tenant ∷ "actionlineage.journal" ∷ [];
  database_path = "data" ∷ "projections" ∷ tenant ∷ "projection.sqlite" ∷ [];
  export_root = "data" ∷ "exports" ∷ tenant ∷ [];
  service_log_path = "data" ∷ "logs" ∷ tenant ∷ "service.ndjson" ∷ [];
  cache_root = "data" ∷ "caches" ∷ tenant ∷ [];
  anchor_root = "data" ∷ "anchors" ∷ tenant ∷ [];
  anchor_path = "data" ∷ "anchors" ∷ tenant ∷ "journal-anchor.json" ∷ [];
  anchor_log_path = "data" ∷ "anchors" ∷ tenant ∷ "anchor-log.jsonl" ∷ [];
}

blue_granted :
    require_tenant_storage_scope plain_paths registry writer "blue" ServiceRole.write layout
    ≡ ok (scope_of "blue")
unfolding scope_for tenant_child validate_tenant_id has_unsupported has_char is_relative_to
    cut_parts under_base require_tenant_storage_scope require_tenant_role storage_scope decide
    roles_grant role_capabilities capability_text granted_by
blue_granted = refl

decide_iff_example :
    ((decide registry writer "red" ServiceRole.write).allowed ≡ true)
    ↔ IsGranted registry writer "red" ServiceRole.write
decide_iff_example = decide_iff registry writer "red" ServiceRole.write

require_tenant_storage_scope-IsConfined_example :
    IsGranted registry writer "blue" ServiceRole.write
    × IsConfined plain_paths layout "blue" (scope_of "blue")
require_tenant_storage_scope-IsConfined_example =
    require_tenant_storage_scope-IsConfined plain_paths registry writer "blue" ServiceRole.write
      layout (scope_of "blue") blue_granted
