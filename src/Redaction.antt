-- ===== src/Redaction.antt =====
-- Redaction before events are persisted: src/actionlineage/domain/redaction.py.
--
-- A text is its code points, as Python's `str`. What Python's libraries do is a `Library`: lower
-- case, the replacing of dashes by underscores, UTF-8, Base64 and SHA-256. A pattern is what its
-- substitution makes of a text. The limits of a policy are integers that may be negative. A
-- redaction returns its value and the capture budget that is left, or raises; `redact_value` has a
-- budget, as `RedactionPolicy.apply` gives it.
pub mod Cases
pub mod Secrecy
pub mod Spends
pub mod Budget
pub mod Place
pub mod Defaults
use Prim.Native.String.{count}
use action_lineage.Base.{
  ℕ, zero, suc, ◌+◌, String, Bool, true, false, not, ◌||◌, Option, none, some, List, [], ◌∷◌, ◌++◌,
  length, any_of, contains, ltb, str_eq, if◌then◌else◌, ◌<>◌, Outcome, ok, err, require, ◌>>=◌,
  ◌>>◌, ℤ,
}
use action_lineage.Domain.Value.{
  Value, null, bool, int, float, str, bytes, time, seq, map, other, plain, Items, nil, cons, Fields,
  end, field, text, non_text, count_items, count_fields, is_finite,
}
use action_lineage.Domain.Value.Members.{get}
use action_lineage.Domain.Event.{entry}
use action_lineage.Journal.Bytes.{take}

abbrev pub FieldPath : Type 0
FieldPath = List String

pub record Library : Type 0 where
  pub lower : String → String
  pub underscored : String → String
  pub encode : String → List ℕ
  pub b64encode : List ℕ → String
  pub hexdigest : List ℕ → String

pub record RedactionPattern : Type 0 where
  pub name : String
  pub substitute : String → String

pub record RedactionPolicy : Type 0 where
  pub sensitive_paths : List FieldPath
  pub sensitive_field_names : List String
  pub max_string_length : ℤ
  pub max_bytes_length : ℤ
  pub max_capture_count : ℤ
  pub max_capture_bytes : ℤ
  pub max_json_depth : ℤ
  pub max_object_members : ℤ
  pub max_array_length : ℤ
  pub capture_exempt_paths : List FieldPath
  pub patterns : List RedactionPattern

pub data RedactionError : Type 0 where
  negative_limit too_many_captures too_many_bytes too_deep non_finite : RedactionError
  too_many_members too_many_items non_text_key unsupported invalid_capture : RedactionError

-- `n > limit`.
abbrev pub exceeds : ℕ → ℤ → Bool
exceeds n (ℤ.pos limit) = ltb limit n
exceeds n (ℤ.negsuc _) = true

unfoldable pub path_eq : FieldPath → FieldPath → Bool
path_eq [] [] = true
path_eq [] (_ ∷ _) = false
path_eq (_ ∷ _) [] = false
path_eq (s ∷ ss) (t ∷ ts) = if str_eq s t then path_eq ss ts else false

abbrev pub is_one_of : FieldPath → List FieldPath → Bool
is_one_of path paths = any_of (λ p. path_eq path p) paths

unfoldable pub is_sensitive_path : FieldPath → RedactionPolicy → Bool
is_sensitive_path path policy = is_one_of path policy.sensitive_paths

unfoldable pub is_capture_exempt_path : FieldPath → RedactionPolicy → Bool
is_capture_exempt_path path policy = is_one_of path policy.capture_exempt_paths

abbrev pub last_name : FieldPath → Option String
last_name [] = none
last_name (s ∷ []) = some s
last_name (s ∷ t ∷ ts) = last_name (t ∷ ts)

abbrev redacted_value : String
redacted_value = "[REDACTED:sensitive]"

unfoldable pub redacted_marker : String → Value
redacted_marker reason = map plain (
    entry "marker" (str "actionlineage.redacted.v1")
      (entry "reason" (str reason) (entry "value" (str redacted_value) end)))

-- `_CaptureBudget`.
pub record CaptureBudget : Type 0 where
  pub max_count : ℕ
  pub max_bytes : ℕ
  pub count : ℕ
  pub captured_bytes : ℕ

unfoldable pub record_bytes : CaptureBudget → ℕ → Outcome RedactionError CaptureBudget
record_bytes b captured = do
  require (not (ltb b.max_count (b.count + 1))) too_many_captures
  require (not (ltb b.max_bytes (b.captured_bytes + captured))) too_many_bytes
  ok (record b { count = b.count + 1; captured_bytes = b.captured_bytes + captured })

abbrev pub non_negative : ℤ → Outcome RedactionError ℕ
non_negative (ℤ.pos n) = ok n
non_negative (ℤ.negsuc _) = err negative_limit

unfoldable pub capture_budget : RedactionPolicy → Outcome RedactionError CaptureBudget
capture_budget policy = do
  count ← non_negative policy.max_capture_count
  size ← non_negative policy.max_capture_bytes
  ok (record { max_count = count; max_bytes = size; count = 0; captured_bytes = 0 })

unfoldable pub redact_text : String → List RedactionPattern → String
redact_text value [] = value
redact_text value (pattern_ ∷ patterns) = redact_text (pattern_.substitute value) patterns

-- `value[:n]` on a text.
unfoldable pub text_prefix : ℕ → String → String
text_prefix zero s = ""
text_prefix (suc n) String.[] = ""
text_prefix (suc n) (String.◌∷◌ c s) = String.◌∷◌ c (text_prefix n s)

abbrev pub capture_marker : String
capture_marker = "actionlineage.capture.v1"

abbrev capture_digest_scope : String
capture_digest_scope = "actionlineage.capture.v1/redaction-boundary"

-- `CaptureMetadata.as_json`.
unfoldable pub capture_metadata : String → String → ℕ → ℕ → Bool → String → Value
capture_metadata encoding value original captured truncated digest = map plain (
    entry "marker" (str capture_marker) (
      entry "encoding" (str encoding) (
        entry "value" (str value) (
          entry "original_length" (int (ℤ.pos original)) (
            entry "captured_length" (int (ℤ.pos captured)) (
              entry "truncated" (bool truncated) (
                entry "digest" (str digest)
                  (entry "digest_scope" (str capture_digest_scope) end))))))))

module _ (lib : Library) where
  unfoldable pub sha256_scoped_capture_bytes : String → List ℕ → String
  sha256_scoped_capture_bytes encoding value =
      "sha256:"
      <> lib.hexdigest
          (lib.encode capture_digest_scope ++ (0 ∷ (lib.encode encoding ++ (0 ∷ value))))

  unfoldable pub capture_string : String → ℤ → Outcome RedactionError Value
  capture_string value (ℤ.negsuc _) = err negative_limit
  capture_string value (ℤ.pos max_length) =
      if ltb max_length (count value)
      then (let captured = text_prefix max_length value in
          ok (
            capture_metadata "text" captured (count value) (count captured) true
              (sha256_scoped_capture_bytes "text" (lib.encode value))))
      else ok (str value)

  unfoldable pub capture_bytes : List ℕ → ℤ → Outcome RedactionError Value
  capture_bytes value (ℤ.negsuc _) = err negative_limit
  capture_bytes value (ℤ.pos max_length) =
      let captured = take max_length value in
      ok (
        capture_metadata "base64" (lib.b64encode captured) (length value) (length captured)
          (ltb max_length (length value)) (sha256_scoped_capture_bytes "base64" value))

  unfoldable pub is_sensitive_field : FieldPath → RedactionPolicy → Bool
  is_sensitive_field path policy = elim (last_name path) [
    | none ↦ false
    | some name ↦ contains (lib.lower (lib.underscored name)) policy.sensitive_field_names
  ]

  abbrev pub is_sensitive : FieldPath → RedactionPolicy → Bool
  is_sensitive path policy = is_sensitive_path path policy || is_sensitive_field path policy

  abbrev pub Redacted : Type 0 → Type 0
  Redacted A = Outcome RedactionError (A × CaptureBudget)

  -- `encoding` of a capture, and the text that it holds.
  abbrev pub captured_size : Value → String → Outcome RedactionError ℕ
  captured_size (str encoding) captured =
      if str_eq encoding "text"
      then ok (length (lib.encode captured))
      else if str_eq encoding "base64"
      then ok (count captured)
      else err invalid_capture
  captured_size _ captured = err invalid_capture

  abbrev pub held_size : Value → Value → Outcome RedactionError ℕ
  held_size encoding (str captured) = captured_size encoding captured
  held_size encoding _ = err invalid_capture

  abbrev pub is_capture : Value → Bool
  is_capture (str marker) = str_eq marker capture_marker
  is_capture _ = false

  -- What a value adds to the budget.
  unfoldable pub record_capture : Value → CaptureBudget → Outcome RedactionError CaptureBudget
  record_capture (map _ fs) b =
      if is_capture (get "marker" fs)
      then held_size (get "encoding" fs) (get "value" fs) >>= record_bytes b
      else ok b
  record_capture _ b = ok b

  -- A capture that is recorded and returned.
  abbrev pub recorded_capture : CaptureBudget → Value → Redacted Value
  recorded_capture b captured = record_capture captured b >>= λ b'. ok (captured, b')

  module _ (policy : RedactionPolicy) where
    -- The tests that come first at every value.
    abbrev pub unless_hidden : FieldPath → ℕ → CaptureBudget → Redacted Value → Redacted Value
    unless_hidden path depth b shown =
        if is_sensitive path policy
        then ok (redacted_marker "sensitive", b)
        else if exceeds depth policy.max_json_depth
        then err too_deep
        else shown

    unfoldable pub redact_string : FieldPath → CaptureBudget → String → Redacted Value
    redact_string path b s =
        let redacted = redact_text s policy.patterns in
        if is_capture_exempt_path path policy
        then ok (str redacted, b)
        else capture_string redacted policy.max_string_length >>= λ captured.
            recorded_capture b captured

    unfoldable mutual
      pub redact_value : FieldPath → ℕ → CaptureBudget → Value → Redacted Value
      redact_value path depth b (str s) = unless_hidden path depth b (redact_string path b s)
      redact_value path depth b (bytes bs) =
          unless_hidden path depth b
            (capture_bytes bs policy.max_bytes_length >>= λ captured. recorded_capture b captured)
      redact_value path depth b (float bits) =
          unless_hidden path depth b (require (is_finite bits) non_finite >> ok (float bits, b))
      redact_value path depth b null = unless_hidden path depth b (ok (null, b))
      redact_value path depth b (bool v) = unless_hidden path depth b (ok (bool v, b))
      redact_value path depth b (int i) = unless_hidden path depth b (ok (int i, b))
      redact_value path depth b (map _ fs) = unless_hidden path depth b (
          require (not (exceeds (count_fields fs) policy.max_object_members)) too_many_members
          >> (redact_fields path depth b fs >>= λ r. ok (map plain r.0, r.1)))
      redact_value path depth b (seq _ xs) = unless_hidden path depth b (
          require (not (exceeds (count_items xs) policy.max_array_length)) too_many_items
          >> (redact_items path depth b xs >>= λ r. ok (seq plain r.0, r.1)))
      redact_value path depth b (time _) = unless_hidden path depth b (err unsupported)
      redact_value path depth b (other _) = unless_hidden path depth b (err unsupported)

      -- The items of a sequence at `depth`, which have its path.
      pub redact_items : FieldPath → ℕ → CaptureBudget → Items → Redacted Items
      redact_items path depth b nil = ok (nil, b)
      redact_items path depth b (cons x xs) = do
        first ← redact_value path (suc depth) b x
        rest ← redact_items path depth first.1 xs
        ok (cons first.0 rest.0, rest.1)

      -- The members of a mapping at `depth`.
      pub redact_fields : FieldPath → ℕ → CaptureBudget → Fields → Redacted Fields
      redact_fields path depth b end = ok (end, b)
      redact_fields path depth b (field non_text v fs) = err non_text_key
      redact_fields path depth b (field (text k) v fs) = do
        first ← redact_value (path ++ lib.lower k ∷ []) (suc depth) b v
        rest ← redact_fields path depth first.1 fs
        ok (field (text k) first.0 rest.0, rest.1)

    -- `RedactionPolicy.apply`, a boundary of the journal; what is raised is one exception.
    abbrev pub shown_only : Redacted Value → Option Value
    shown_only (err _) = none
    shown_only (ok r) = some r.0

    unfoldable pub apply : Value → Option Value
    apply v = shown_only (capture_budget policy >>= λ b. redact_value [] 0 b v)
