-- ===== src/Tests/Records.antt =====
-- A journal of one record, and the code's runs on it.
use action_lineage.Base.{
  [], ◌∷◌, str_eq, if◌then◌else◌, ℕ, String, ◌≡◌, refl, true, Option, none, some,
}
use action_lineage.Domain.Value.{bool, map, field, end, text, frozen, aware}
use action_lineage.Domain.Event.{Event}
use action_lineage.Domain.Event.Names.{PrincipalType, Sensitivity, TrustLevel}
use Prim.Native.String.{count}
use action_lineage.Redaction.{Library, RedactionPattern, apply, redact_text}
use action_lineage.Redaction.Defaults.{
  default_policy, default_policy-LeavesPlace, LeavesPlace-KeepsPlace,
}
use action_lineage.Redaction.Place.{LeavesPlace}
use action_lineage.Journal.Hashing.{
  Bytes, sha256_digest, RedactionBoundary, canonicalization_version,
}
use action_lineage.Journal.Prepare.{KeepsPlace}
use action_lineage.Tests.Place.{place, place-IsPlatform}

-- A pattern that finds one text.
abbrev pub one_token : RedactionPattern
one_token = record {
  name = "bearer_token";
  substitute = λ s. if str_eq s "Bearer abcdefgh" then "Bearer [REDACTED:bearer_token]" else s;
}

-- A library that leaves names as they are.
abbrev pub same_names : Library
same_names = record {
  lower = λ s. s;
  underscored = λ s. s;
  encode = λ s. count s ∷ [];
  b64encode = λ _. "AA==";
  hexdigest = λ bs. "00";
}

-- The boundary that redacts nothing.
abbrev pub keep : RedactionBoundary
keep v = some v

-- The default policy.
abbrev pub redacting : RedactionBoundary
redacting = apply same_names (default_policy (one_token ∷ []))

digest_left :
    (b : Bytes place) → redact_text (sha256_digest place b) (one_token ∷ []) ≡ sha256_digest place b
unfolding redact_text sha256_digest
digest_left [] = refl
digest_left (_ ∷ _) = refl

pub redacting-LeavesPlace : LeavesPlace place same_names (default_policy (one_token ∷ []))
redacting-LeavesPlace =
    default_policy-LeavesPlace place same_names (one_token ∷ [])
      ((refl, refl), ((refl, refl), ((refl, refl), ((refl, refl), tt)))) digest_left

pub redacting-KeepsPlace : KeepsPlace place redacting
redacting-KeepsPlace =
    LeavesPlace-KeepsPlace place place-IsPlatform same_names (default_policy (one_token ∷ []))
      redacting-LeavesPlace

abbrev pub event_numbered : ℕ → String → Option String → Option String → Option String → Event
event_numbered n id parent previous hash = record {
  event_id = id;
  event_type = "agent.run.started";
  occurred_at = aware 2;
  observed_at = aware 3;
  source = record { component = "c"; instance_id = "i"; version = "1" };
  correlation = record { trace_id = "t"; run_id = "r"; span_id = none; session_id = none };
  causality = record { root_event_id = "e0"; sequence = n; parent_event_id = parent };
  principal = record {
    principal_id = "p";
    principal_type = PrincipalType.agent;
    on_behalf_of = none;
    model_id = none;
    credential_id = none;
  };
  classification = record { sensitivity = Sensitivity.internal; trust = TrustLevel.trusted };
  payload = map frozen (field (text "k") (bool true) end);
  integrity = record {
    canonicalization = canonicalization_version;
    previous_event_hash = previous;
    event_hash = hash;
  };
}

abbrev pub start : Event
start = event_numbered 0 "e0" none none none

-- What is kept of it.
abbrev pub start_persisted : Event
start_persisted = event_numbered 0 "e0" none none (some "sha256:1")

abbrev pub step : Event
step = event_numbered 1 "e1" (some "e0") none none

abbrev pub step_persisted : Event
step_persisted = event_numbered 1 "e1" (some "e0") (some "sha256:1") (some "sha256:1")
