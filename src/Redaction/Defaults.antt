-- ===== src/Redaction/Defaults.antt =====
-- The default policy of src/actionlineage/domain/redaction.py, which leaves an event at its place.
--
-- Its patterns are regular expressions, which are Python's: they are an argument.
use action_lineage.Base.{◌≡◌, refl, String, List, [], ◌∷◌, All, ℤ}
use action_lineage.Journal.{Platform, IsPlatform}
use action_lineage.Journal.Prepare.{KeepsPlace}
use action_lineage.Journal.Hashing.{Bytes, sha256_digest}
use action_lineage.Redaction.{
  FieldPath, Library, RedactionPattern, RedactionPolicy, is_sensitive_path, is_sensitive_field,
  is_capture_exempt_path, path_eq, redact_text, apply,
}
use action_lineage.Redaction.Place.{LeavesPlace, apply-SamePlace}

abbrev pub default_sensitive_field_names : List String
default_sensitive_field_names =
    "access_token" ∷ "api_key" ∷ "apikey" ∷ "auth_token" ∷ "authorization" ∷ "aws_access_key_id"
    ∷ "aws_secret_access_key" ∷ "aws_session_token" ∷ "bearer_token" ∷ "client_secret"
    ∷ "client_secret_value" ∷ "cloud_session_token" ∷ "connection_string" ∷ "cookie"
    ∷ "database_dsn" ∷ "database_url" ∷ "db_url" ∷ "dsn" ∷ "id_token" ∷ "oauth_token" ∷ "password"
    ∷ "pre_signed_url" ∷ "presigned_url" ∷ "private_key_pem" ∷ "private_key" ∷ "proxy_authorization"
    ∷ "refresh_token" ∷ "secret" ∷ "security_token" ∷ "set_cookie" ∷ "signed_url" ∷ "signing_secret"
    ∷ "session_cookie" ∷ "session_token" ∷ "ssh_private_key" ∷ "token" ∷ "webhook_secret"
    ∷ "webhook_signature" ∷ "webhook_token" ∷ "x_api_key" ∷ []

abbrev pub default_capture_exempt_paths : List FieldPath
default_capture_exempt_paths =
    ("spec_version" ∷ [])
    ∷ ("event_id" ∷ [])
    ∷ ("event_type" ∷ [])
    ∷ ("occurred_at" ∷ [])
    ∷ ("observed_at" ∷ [])
    ∷ ("source" ∷ "component" ∷ [])
    ∷ ("source" ∷ "instance_id" ∷ [])
    ∷ ("source" ∷ "version" ∷ [])
    ∷ ("correlation" ∷ "trace_id" ∷ [])
    ∷ ("correlation" ∷ "run_id" ∷ [])
    ∷ ("correlation" ∷ "span_id" ∷ [])
    ∷ ("correlation" ∷ "session_id" ∷ [])
    ∷ ("causality" ∷ "root_event_id" ∷ [])
    ∷ ("causality" ∷ "parent_event_id" ∷ [])
    ∷ ("principal" ∷ "principal_id" ∷ [])
    ∷ ("principal" ∷ "principal_type" ∷ [])
    ∷ ("principal" ∷ "on_behalf_of" ∷ [])
    ∷ ("principal" ∷ "model_id" ∷ [])
    ∷ ("principal" ∷ "credential_id" ∷ [])
    ∷ ("classification" ∷ "sensitivity" ∷ [])
    ∷ ("classification" ∷ "trust" ∷ [])
    ∷ ("integrity" ∷ "canonicalization" ∷ [])
    ∷ ("integrity" ∷ "previous_event_hash" ∷ [])
    ∷ ("integrity" ∷ "event_hash" ∷ [])
    ∷ ("payload" ∷ "evidence_link" ∷ "subject_event_id" ∷ [])
    ∷ ("payload" ∷ "evidence_link" ∷ "relationship" ∷ [])
    ∷ ("payload" ∷ "evidence_link" ∷ "evidence_event_id" ∷ [])
    ∷ ("payload" ∷ "evidence_link" ∷ "corroboration_type" ∷ [])
    ∷ ("payload" ∷ "evidence_link" ∷ "observer_identity" ∷ [])
    ∷ ("payload" ∷ "evidence_link" ∷ "verification_status" ∷ [])
    ∷ ("payload" ∷ "subject_event_id" ∷ [])
    ∷ ("payload" ∷ "evidence_event_id" ∷ [])
    ∷ ("payload" ∷ "verification_status" ∷ [])
    ∷ []

abbrev pub default_policy : List RedactionPattern → RedactionPolicy
default_policy patterns = record {
  sensitive_paths = [];
  sensitive_field_names = default_sensitive_field_names;
  max_string_length = ℤ.pos 4096;
  max_bytes_length = ℤ.pos 4096;
  max_capture_count = ℤ.pos 128;
  max_capture_bytes = ℤ.pos 65536;
  max_json_depth = ℤ.pos 64;
  max_object_members = ℤ.pos 4096;
  max_array_length = ℤ.pos 4096;
  capture_exempt_paths = default_capture_exempt_paths;
  patterns = patterns;
}

-- A library that leaves a name of lower-case letters and underscores as it is.
abbrev pub LeavesName : Library → String → Type 0
LeavesName lib name = (lib.lower name ≡ name) × (lib.underscored name ≡ name)

abbrev pub LeavesNames : Library → Type 0
LeavesNames lib =
    All (LeavesName lib) ("causality" ∷ "sequence" ∷ "integrity" ∷ "previous_event_hash" ∷ [])

-- The default policy leaves an event at its place, where its patterns find nothing in a digest.
pub default_policy-LeavesPlace :
    (p : Platform) (lib : Library) (patterns : List RedactionPattern)
    → LeavesNames lib
    → ((b : Bytes p) → redact_text (sha256_digest p b) patterns ≡ sha256_digest p b)
    → LeavesPlace p lib (default_policy patterns)
unfolding is_sensitive_path is_sensitive_field is_capture_exempt_path path_eq
default_policy-LeavesPlace p lib patterns (c, (s, (i, (h, _)))) digests = record {
  top = refl;
  causality = rw (c.0, c.1, c.0) refl;
  sequence = rw (s.0, s.1, s.0) refl;
  integrity = rw (i.0, i.1, i.0) refl;
  previous = rw (h.0, h.1, h.0) refl;
  exempt = rw (i.0, h.0) refl;
  digests = digests;
}

-- A policy that leaves events at their place is a boundary that an append may use.
pub LeavesPlace-KeepsPlace :
    (p : Platform) (laws : IsPlatform p) (lib : Library) (policy : RedactionPolicy)
    → LeavesPlace p lib policy
    → KeepsPlace p (apply lib policy)
LeavesPlace-KeepsPlace p laws lib policy leaves = apply-SamePlace p lib policy leaves laws
