-- ===== src/Tests/Redacted.antt =====
-- Redaction of a small mapping with a password in it: src/actionlineage/domain/redaction.py.
use Prim.Native.String.{count}
use action_lineage.Base.{◌≡◌, refl, [], ◌∷◌, String, length, some, ℤ, ◌≤◌, true}
use action_lineage.Domain.Value.{Value, str, map, plain, end, seq, nil, cons, int}
use action_lineage.Domain.Event.{entry}
use action_lineage.Domain.Value.Members.{get}
use action_lineage.Redaction.{
  record_capture, Library, RedactionPolicy, redact_value, apply, capture_budget, is_sensitive_path,
  is_sensitive_field, is_capture_exempt_path, path_eq, redacted_marker, redact_text, record_bytes,
  text_prefix, capture_metadata, capture_string, sha256_scoped_capture_bytes, redact_string,
}
use action_lineage.Redaction.Secrecy.{without_secrets, apply-no_secrets}
use action_lineage.Redaction.Spends.{captures, total}
use action_lineage.Redaction.Budget.{captures_bounded}

abbrev lengths : Library
lengths = record {
  lower = λ s. s;
  underscored = λ s. s;
  encode = λ s. count s ∷ [];
  b64encode = λ _. "AA==";
  hexdigest = λ bs. "00";
}

abbrev hides_passwords : RedactionPolicy
hides_passwords = record {
  sensitive_paths = [];
  sensitive_field_names = "password" ∷ [];
  max_string_length = ℤ.pos 4;
  max_bytes_length = ℤ.pos 4;
  max_capture_count = ℤ.pos 2;
  max_capture_bytes = ℤ.pos 8;
  max_json_depth = ℤ.pos 8;
  max_object_members = ℤ.pos 8;
  max_array_length = ℤ.pos 8;
  capture_exempt_paths = [];
  patterns = [];
}

abbrev login : String → Value
login password = map plain (
    entry "password" (str password)
      (entry "notes" (seq plain (cons (str "first note") (cons (int (ℤ.pos 3)) nil))) end))

abbrev redacted_login : Value
redacted_login = map plain (
    entry "password" (redacted_marker "sensitive") (
      entry "notes"
        (seq plain
          (cons (capture_metadata "text" "firs" 10 4 true "sha256:00") (cons (int (ℤ.pos 3)) nil)))
        end))

login_redacted :
    (password : String) → apply lengths hides_passwords (login password) ≡ some redacted_login
unfolding apply redact_value capture_budget is_sensitive_path is_sensitive_field
    is_capture_exempt_path path_eq redacted_marker redact_text record_bytes text_prefix
    capture_metadata capture_string sha256_scoped_capture_bytes redact_string record_capture get
login_redacted password = refl

same_but_for_password :
    without_secrets lengths hides_passwords [] (login "hunter2")
    ≡ without_secrets lengths hides_passwords [] (login "a longer one")
unfolding without_secrets is_sensitive_path is_sensitive_field
same_but_for_password = refl

apply-no_secrets_example :
    apply lengths hides_passwords (login "hunter2")
    ≡ apply lengths hides_passwords (login "a longer one")
apply-no_secrets_example =
    apply-no_secrets lengths hides_passwords (login "hunter2") (login "a longer one")
      same_but_for_password

captures_bounded_example :
    (length (captures lengths hides_passwords [] (login "hunter2")) ≤ 2)
    × (total (captures lengths hides_passwords [] (login "hunter2")) ≤ 8)
captures_bounded_example =
    captures_bounded lengths hides_passwords (login "hunter2") redacted_login 2 8 refl refl
      (login_redacted "hunter2")
