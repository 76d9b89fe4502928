-- ===== src/Auth.antt =====
-- Roles, capabilities and credentials of the service: src/actionlineage/service/auth.py.
--
-- A frozenset is a list, of which the code asks no more than what it contains. The members of an
-- enumeration are compared by their texts, as those of a StrEnum are. Claims are what a JSON text
-- decodes to, without tuples and with no key twice. Python's `str.split` and the decoding of a
-- token by PyJWT, which raises or returns the claims, are parameters.
pub mod Grants
pub mod Claims
use action_lineage.Base.{
  String, Bool, true, false, not, Option, none, some, List, [], ◌∷◌, ◌++◌, any_of, all_of, str_eq,
  if◌then◌else◌, Outcome, ok, err, require, ◌>>=◌, ◌>>◌,
}
use action_lineage.Domain.Value.{
  Value, null, str, seq, map, plain, Items, nil, cons, Fields, end, field, text, non_text,
}
use action_lineage.Domain.Value.Members.{get}
use action_lineage.Domain.Event.{nonempty}

pub data ServiceRole : Type 0 where
  read write export admin : ServiceRole

pub data ServiceCapability : Type 0 where
  events_read events_write journal_verify projections_rebuild : ServiceCapability
  detections_run cases_read cases_export admin_configure tenants_manage : ServiceCapability

unfoldable pub role_text : ServiceRole → String
role_text ServiceRole.read = "read"
role_text ServiceRole.write = "write"
role_text ServiceRole.export = "export"
role_text ServiceRole.admin = "admin"

unfoldable pub capability_text : ServiceCapability → String
capability_text ServiceCapability.events_read = "events:read"
capability_text ServiceCapability.events_write = "events:write"
capability_text ServiceCapability.journal_verify = "journal:verify"
capability_text ServiceCapability.projections_rebuild = "projections:rebuild"
capability_text ServiceCapability.detections_run = "detections:run"
capability_text ServiceCapability.cases_read = "cases:read"
capability_text ServiceCapability.cases_export = "cases:export"
capability_text ServiceCapability.admin_configure = "admin:configure"
capability_text ServiceCapability.tenants_manage = "tenants:manage"

abbrev pub all_roles : List ServiceRole
all_roles = ServiceRole.read ∷ ServiceRole.write ∷ ServiceRole.export ∷ ServiceRole.admin ∷ []

abbrev pub all_capabilities : List ServiceCapability
all_capabilities =
    ServiceCapability.events_read ∷ ServiceCapability.events_write
    ∷ ServiceCapability.journal_verify ∷ ServiceCapability.projections_rebuild
    ∷ ServiceCapability.detections_run ∷ ServiceCapability.cases_read
    ∷ ServiceCapability.cases_export ∷ ServiceCapability.admin_configure
    ∷ ServiceCapability.tenants_manage ∷ []

unfoldable pub role_capabilities : ServiceRole → List ServiceCapability
role_capabilities ServiceRole.read =
    ServiceCapability.events_read ∷ ServiceCapability.journal_verify ∷ ServiceCapability.cases_read
    ∷ []
role_capabilities ServiceRole.write =
    ServiceCapability.events_write ∷ ServiceCapability.journal_verify
    ∷ ServiceCapability.projections_rebuild ∷ []
role_capabilities ServiceRole.export = ServiceCapability.cases_export ∷ []
role_capabilities ServiceRole.admin = all_capabilities

pub record ServicePrincipal : Type 0 where
  pub principal_id : String
  pub roles : List ServiceRole
  pub capabilities : List ServiceCapability

pub data ServiceAuthError : Type 0 where
  invalid_token library_unavailable invalid_claims invalid_principal : ServiceAuthError
  invalid_roles invalid_capabilities : ServiceAuthError
  role_required : ServiceRole → ServiceAuthError
  capability_required : ServiceCapability → ServiceAuthError

abbrev pub has : ServiceCapability → List ServiceCapability → Bool
has c cs = any_of (λ d. str_eq (capability_text c) (capability_text d)) cs

-- The union that both `_roles_grant` and `effective_capabilities` collect in a loop over roles.
unfoldable pub granted_by : List ServiceRole → List ServiceCapability → List ServiceCapability
granted_by [] capabilities = capabilities
granted_by (role ∷ roles) capabilities = granted_by roles (capabilities ++ role_capabilities role)

unfoldable pub roles_grant : List ServiceRole → ServiceRole → Bool
roles_grant roles required =
    let capabilities = granted_by roles [] in
    all_of (λ c. has c capabilities) (role_capabilities required)

abbrev pub has_role : ServicePrincipal → ServiceRole → Bool
has_role p required = roles_grant p.roles required

unfoldable pub effective_capabilities : ServicePrincipal → List ServiceCapability
effective_capabilities p = granted_by p.roles p.capabilities

abbrev pub has_capability : ServicePrincipal → ServiceCapability → Bool
has_capability p required = has required (effective_capabilities p)

unfoldable pub require_role : ServicePrincipal → ServiceRole → Outcome ServiceAuthError (Unit {0})
require_role p role = require (has_role p role) (role_required role)

unfoldable pub require_capability :
    ServicePrincipal → ServiceCapability → Outcome ServiceAuthError (Unit {0})
require_capability p capability =
    require (has_capability p capability) (capability_required capability)

-- `ServiceRole(raw)`: the member with this text, or a ValueError.
unfoldable pub find_text : {A : Type 0} → (A → String) → List A → String → Option A
find_text name [] raw = none
find_text name (a ∷ members) raw =
    if str_eq raw (name a) then some a else find_text name members raw

module _ {A : Type 0} (name : A → String) (members : List A) (e : ServiceAuthError) where
  abbrev pub or_raise : Option A → Outcome ServiceAuthError A
  or_raise none = err e
  or_raise (some a) = ok a

  unfoldable pub from_texts : List String → Outcome ServiceAuthError (List A)
  from_texts [] = ok []
  from_texts (raw ∷ raws) = do
    a ← or_raise (find_text name members raw)
    rest ← from_texts raws
    ok (a ∷ rest)

-- `all(isinstance(role, str) for role in value)`, and the texts.
unfoldable pub texts_of : ServiceAuthError → Items → Outcome ServiceAuthError (List String)
texts_of e nil = ok []
texts_of e (cons (str s) xs) = do rest ← texts_of e xs; ok (s ∷ rest)
texts_of e (cons _ xs) = err e

abbrev pub is_empty : {A : Type 0} → List A → Bool
is_empty [] = true
is_empty (_ ∷ _) = false

abbrev pub principal_text : Value → Outcome ServiceAuthError String
principal_text (str s) = do require (nonempty s) invalid_principal; ok s
principal_text _ = err invalid_principal

-- The names of the claims that hold the principal, its roles and its capabilities.
pub record ClaimNames : Type 0 where
  pub principal : String
  pub roles : String
  pub capabilities : String

abbrev pub decoded : Option Value → Outcome ServiceAuthError Value
decoded none = err invalid_token
decoded (some v) = ok v

-- `part for part in parts if part`.
abbrev pub nonempty_parts : List String → List String
nonempty_parts [] = []
nonempty_parts (part ∷ parts) =
    let rest = nonempty_parts parts in if nonempty part then part ∷ rest else rest

module _ (split : String → List String) where
  unfoldable pub raw_texts : ServiceAuthError → Value → Outcome ServiceAuthError (List String)
  raw_texts e null = ok []
  raw_texts e (str s) = ok (nonempty_parts (split s))
  raw_texts e (seq plain xs) = texts_of e xs
  raw_texts e _ = err e

  unfoldable pub roles_from_claim : Value → Bool → Outcome ServiceAuthError (List ServiceRole)
  roles_from_claim value required = do
    raw_roles ← raw_texts invalid_roles value
    roles ← from_texts role_text all_roles invalid_roles raw_roles
    require (not (if required then is_empty roles else false)) invalid_roles
    ok roles

  unfoldable pub capabilities_from_claim : Value → Outcome ServiceAuthError (List ServiceCapability)
  capabilities_from_claim value = do
    raw_capabilities ← raw_texts invalid_capabilities value
    from_texts capability_text all_capabilities invalid_capabilities raw_capabilities

  unfoldable pub principal_from_claims :
      ClaimNames → Value → Outcome ServiceAuthError ServicePrincipal
  principal_from_claims names (map plain fs) = do
    principal_id ← principal_text (get names.principal fs)
    capabilities ← capabilities_from_claim (get names.capabilities fs)
    roles ← roles_from_claim (get names.roles fs) (is_empty capabilities)
    ok (record { principal_id = principal_id; roles = roles; capabilities = capabilities })
  principal_from_claims names _ = err invalid_claims

  -- `JwtAuthenticator.authenticate`; the library may be missing.
  unfoldable pub jwt_authenticate :
      Bool
      → (String → Option Value)
      → ClaimNames
      → Option String
      → Outcome ServiceAuthError ServicePrincipal
  jwt_authenticate installed decode names none = err invalid_token
  jwt_authenticate installed decode names (some token) = do
    require installed library_unavailable
    claims ← decoded (decode token)
    principal_from_claims names claims

-- The tokens are a dict, with no key twice.
unfoldable pub find_token :
    List (String × ServicePrincipal) → String → Outcome ServiceAuthError ServicePrincipal
find_token [] token = err invalid_token
find_token ((t, p) ∷ tokens) token = if str_eq t token then ok p else find_token tokens token

unfoldable pub static_authenticate :
    List (String × ServicePrincipal) → Option String → Outcome ServiceAuthError ServicePrincipal
static_authenticate tokens none = err invalid_token
static_authenticate tokens (some token) = find_token tokens token
