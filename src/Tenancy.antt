-- ===== src/Tenancy.antt =====
-- Tenants of the service: src/actionlineage/service/tenancy.py.
--
-- A path is its parts. What pathlib and the file system do is a `PathLibrary`: the parts of a text,
-- whether it is absolute or blank, and the resolution of a path, in which links are followed. A
-- frozenset is a list, of which the code asks no more than what it contains.
pub mod Access
pub mod Scopes
use Prim.Native.Char.{Char, code}
use Prim.Native.String.{count}
use action_lineage.Base.{
  ℕ, String, ◌<>◌, Bool, true, false, not, ◌&&◌, ◌||◌, List, [], ◌∷◌, ◌++◌, if◌then◌else◌, str_eq,
  ltb, ◌==◌, any_of, contains, map, Outcome, ok, err, require, ◌>>=◌, ◌>>◌, texts_eq,
}
use action_lineage.Domain.Event.{nonempty}
use action_lineage.Auth.{ServiceRole, ServicePrincipal, has_role, roles_grant}

abbrev pub FilePath : Type 0
FilePath = List String

pub record PathLibrary : Type 0 where
  pub parts : String → FilePath
  pub is_absolute : String → Bool
  pub is_blank : String → Bool
  pub resolve : FilePath → FilePath

pub data TenancyError : Type 0 where
  id_required id_too_long id_not_segment id_unsupported : TenancyError
  path_escaped not_relative not_below role_required scope_required : TenancyError

pub record ServiceTenant : Type 0 where
  pub tenant_id : String
  pub display_name : String
  pub tags : List String

pub record TenantRoleBinding : Type 0 where
  pub tenant_id : String
  pub principal_id : String
  pub roles : List ServiceRole

pub record TenantAccessDecision : Type 0 where
  pub tenant_id : String
  pub principal_id : String
  pub required_role : ServiceRole
  pub allowed : Bool
  pub reason : String

pub record TenantRegistry : Type 0 where
  pub tenants : List ServiceTenant
  pub bindings : List TenantRoleBinding

pub record TenantStorageLayout : Type 0 where
  pub journal_root : FilePath
  pub database_root : FilePath
  pub export_root : FilePath
  pub log_root : FilePath
  pub cache_root : FilePath
  pub anchor_root : FilePath

pub record TenantStorageScope : Type 0 where
  pub tenant_id : String
  pub journal_path : FilePath
  pub database_path : FilePath
  pub export_root : FilePath
  pub service_log_path : FilePath
  pub cache_root : FilePath
  pub anchor_root : FilePath
  pub anchor_path : FilePath
  pub anchor_log_path : FilePath

abbrev tenant_id_max_length : ℕ
tenant_id_max_length = 128

abbrev pub tenant_id_allowed_chars : String
tenant_id_allowed_chars = "ABCDEFGHIJKLMNOPQRSTUVWXYZabcdefghijklmnopqrstuvwxyz0123456789_-"

unfoldable pub has_char : Char → String → Bool
has_char c String.[] = false
has_char c (String.◌∷◌ d s) = code c == code d || has_char c s

unfoldable pub has_unsupported : String → Bool
has_unsupported String.[] = false
has_unsupported (String.◌∷◌ c s) = not (has_char c tenant_id_allowed_chars) || has_unsupported s

unfoldable pub validate_tenant_id : String → Outcome TenancyError String
validate_tenant_id id = do
  require (nonempty id) id_required
  require (not (ltb tenant_id_max_length (count id))) id_too_long
  require (not (contains id ("." ∷ ".." ∷ []))) id_not_segment
  require (not (has_unsupported id)) id_unsupported
  ok id

-- `path.is_relative_to(root)`.
unfoldable pub is_relative_to : FilePath → FilePath → Bool
is_relative_to path [] = true
is_relative_to [] (_ ∷ _) = false
is_relative_to (s ∷ path) (t ∷ root) = if str_eq s t then is_relative_to path root else false

abbrev pub tenant_ids : TenantRegistry → List String
tenant_ids reg = map (λ t. t.tenant_id) reg.tenants

abbrev pub binding_grants : String → String → ServiceRole → TenantRoleBinding → Bool
binding_grants tenant principal role b =
    str_eq b.tenant_id tenant && (str_eq b.principal_id principal && roles_grant b.roles role)

unfoldable pub decide :
    TenantRegistry → ServicePrincipal → String → ServiceRole → TenantAccessDecision
decide reg p tenant role =
    let decision : Bool → String → TenantAccessDecision = λ allowed reason. record {
      tenant_id = tenant;
      principal_id = p.principal_id;
      required_role = role;
      allowed = allowed;
      reason = reason;
    } in
    if not (contains tenant (tenant_ids reg))
    then decision false "tenant_unknown"
    else if not (has_role p role)
    then decision false "principal_role_missing"
    else if any_of (binding_grants tenant p.principal_id role) reg.bindings
    then decision true "tenant_role_granted"
    else decision false "tenant_binding_missing"

unfoldable pub require_tenant_role :
    TenantRegistry
    → ServicePrincipal
    → String
    → ServiceRole
    → Outcome TenancyError TenantAccessDecision
require_tenant_role reg p tenant role = do
  require (decide reg p tenant role).allowed role_required
  ok (decide reg p tenant role)

-- `TenantStorageLayout.under_base`.
unfoldable pub under_base : FilePath → TenantStorageLayout
under_base base = record {
  journal_root = base ++ "journals" ∷ [];
  database_root = base ++ "projections" ∷ [];
  export_root = base ++ "exports" ∷ [];
  log_root = base ++ "logs" ∷ [];
  cache_root = base ++ "caches" ∷ [];
  anchor_root = base ++ "anchors" ∷ [];
}

module _ (lib : PathLibrary) where
  -- `root / name`: an absolute name takes the place of the root.
  abbrev pub joined : FilePath → String → FilePath
  joined root name = if lib.is_absolute name then lib.parts name else root ++ lib.parts name

  abbrev pub tenant_root : FilePath → String → FilePath
  tenant_root root tenant = lib.resolve (joined (lib.resolve root) tenant)

  abbrev pub tenant_candidate : FilePath → List String → FilePath
  tenant_candidate root [] = root
  tenant_candidate root (part ∷ parts) = lib.resolve (root ++ part ∷ parts)

  unfoldable pub tenant_child : FilePath → String → List String → Outcome TenancyError FilePath
  tenant_child root tenant parts =
      let candidate = tenant_candidate (tenant_root root tenant) parts in
      require (is_relative_to candidate (tenant_root root tenant)) path_escaped >> ok candidate

  unfoldable pub scope_for : TenantStorageLayout → String → Outcome TenancyError TenantStorageScope
  scope_for layout tenant = do
    segment ← validate_tenant_id tenant
    anchors ← tenant_child layout.anchor_root segment []
    journal ← tenant_child layout.journal_root segment ("actionlineage.journal" ∷ [])
    database ← tenant_child layout.database_root segment ("projection.sqlite" ∷ [])
    exports ← tenant_child layout.export_root segment []
    log ← tenant_child layout.log_root segment ("service.ndjson" ∷ [])
    cache ← tenant_child layout.cache_root segment []
    ok (record {
      tenant_id = segment;
      journal_path = journal;
      database_path = database;
      export_root = exports;
      service_log_path = log;
      cache_root = cache;
      anchor_root = anchors;
      anchor_path = anchors ++ "journal-anchor.json" ∷ [];
      anchor_log_path = anchors ++ "anchor-log.jsonl" ∷ [];
    })

  unfoldable pub storage_scope :
      TenantRegistry → TenantStorageLayout → String → Outcome TenancyError TenantStorageScope
  storage_scope reg layout tenant = do
    segment ← validate_tenant_id tenant
    require (contains segment (tenant_ids reg)) scope_required
    scope_for layout segment

  unfoldable pub require_tenant_storage_scope :
      TenantRegistry
      → ServicePrincipal
      → String
      → ServiceRole
      → TenantStorageLayout
      → Outcome TenancyError TenantStorageScope
  require_tenant_storage_scope reg p tenant role layout = do
    require_tenant_role reg p tenant role
    storage_scope reg layout tenant

  abbrev is_special_part : String → Bool
  is_special_part part = contains part ("" ∷ "." ∷ ".." ∷ [])

  unfoldable pub validated_relative_path_parts : String → Outcome TenancyError (List String)
  validated_relative_path_parts requested = do
    require (not (lib.is_blank requested)) not_relative
    require (not (lib.is_absolute requested || any_of is_special_part (lib.parts requested)))
        not_relative
    ok (lib.parts requested)

  -- The check that a path is below a root, and not the root.
  abbrev pub require_below : FilePath → FilePath → Outcome TenancyError FilePath
  require_below root candidate =
      require (not (texts_eq candidate root || not (is_relative_to candidate root))) not_below
      >> ok candidate

  unfoldable pub confined_service_path : FilePath → String → Outcome TenancyError FilePath
  confined_service_path root requested = do
    parts ← validated_relative_path_parts requested
    require_below (lib.resolve root) (lib.resolve (lib.resolve root ++ parts))

  -- `TenantStorageScope.export_dir`.
  unfoldable pub export_dir : TenantStorageScope → String → Outcome TenancyError FilePath
  export_dir scope requested = confined_service_path scope.export_root requested
