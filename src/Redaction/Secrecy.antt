-- ===== src/Redaction/Secrecy.antt =====
-- What a redaction depends on: nothing that stands at a sensitive path or field.
use action_lineage.Base.{
  ℕ, suc, ◌≡◌, refl, sym, ap, ◌∙◌, true, [], ◌∷◌, ◌++◌, if◌then◌else◌, Bool-cases, inl, inr, ok,
  ◌>>=◌,
}
use action_lineage.Domain.Value.{
  Value, null, bool, int, float, str, bytes, time, seq, map, other, Items, nil, cons, Fields, end,
  field, text, non_text, count_items, count_fields,
}
use action_lineage.Redaction.{
  FieldPath, Library, RedactionPolicy, CaptureBudget, is_sensitive, redacted_marker, redact_value,
  redact_items, redact_fields, apply, shown_only, capture_budget,
}

module _ (lib : Library) (policy : RedactionPolicy) where
  abbrev unless_sensitive : FieldPath → Value → Value
  unless_sensitive path v = if is_sensitive lib path policy then null else v

  -- The value without what stands at a sensitive path or field.
  unfoldable mutual
    pub without_secrets : FieldPath → Value → Value
    without_secrets path (map c fs) = unless_sensitive path (map c (fields_without_secrets path fs))
    without_secrets path (seq c xs) = unless_sensitive path (seq c (items_without_secrets path xs))
    without_secrets path v = unless_sensitive path v

    pub items_without_secrets : FieldPath → Items → Items
    items_without_secrets path nil = nil
    items_without_secrets path (cons x xs) =
        cons (without_secrets path x) (items_without_secrets path xs)

    pub fields_without_secrets : FieldPath → Fields → Fields
    fields_without_secrets path end = end
    fields_without_secrets path (field (text k) v fs) =
        field (text k) (without_secrets (path ++ lib.lower k ∷ []) v)
          (fields_without_secrets path fs)
    fields_without_secrets path (field non_text v fs) =
        field non_text v (fields_without_secrets path fs)

  -- At a sensitive path there is a marker, whatever the value.
  pub redact_value-sensitive :
      (path : FieldPath) (d : ℕ) (b : CaptureBudget) (v : Value)
      → is_sensitive lib path policy ≡ true
      → redact_value lib policy path d b v ≡ ok (redacted_marker "sensitive", b)
  unfolding redact_value
  redact_value-sensitive path d b null h = rw h
  redact_value-sensitive path d b (bool _) h = rw h
  redact_value-sensitive path d b (int _) h = rw h
  redact_value-sensitive path d b (float _) h = rw h
  redact_value-sensitive path d b (str _) h = rw h
  redact_value-sensitive path d b (bytes _) h = rw h
  redact_value-sensitive path d b (time _) h = rw h
  redact_value-sensitive path d b (seq _ _) h = rw h
  redact_value-sensitive path d b (map _ _) h = rw h
  redact_value-sensitive path d b (other _) h = rw h

  -- A value that differs from another within, where nothing is sensitive about the whole of it.
  within_unless :
      (path : FieldPath) (d : ℕ) (b : CaptureBudget) (v w : Value)
      → redact_value lib policy path d b w ≡ redact_value lib policy path d b v
      → redact_value lib policy path d b (unless_sensitive path w)
        ≡ redact_value lib policy path d b v
  within_unless path d b v w same = elim (Bool-cases (is_sensitive lib path policy)) [
    | inl s ↦ redact_value-sensitive path d b _ s ∙ sym (redact_value-sensitive path d b v s)
    | inr s ↦ rw s same
  ]

  count_items-without :
      (path : FieldPath) (xs : Items) → count_items (items_without_secrets path xs) ≡ count_items xs
  unfolding without_secrets
  count_items-without path nil = refl
  count_items-without path (cons x xs) = ap suc (count_items-without path xs)

  count_fields-without :
      (path : FieldPath) (fs : Fields)
      → count_fields (fields_without_secrets path fs) ≡ count_fields fs
  unfolding without_secrets
  count_fields-without path end = refl
  count_fields-without path (field (text k) v fs) = ap suc (count_fields-without path fs)
  count_fields-without path (field non_text v fs) = ap suc (count_fields-without path fs)

  mutual
    unfolding redact_value without_secrets

    pub redact_value-without_secrets :
        (path : FieldPath) (d : ℕ) (b : CaptureBudget) (v : Value)
        → redact_value lib policy path d b (without_secrets path v)
          ≡ redact_value lib policy path d b v
    redact_value-without_secrets path d b null = within_unless path d b null null refl
    redact_value-without_secrets path d b (bool x) = within_unless path d b (bool x) (bool x) refl
    redact_value-without_secrets path d b (int x) = within_unless path d b (int x) (int x) refl
    redact_value-without_secrets path d b (float x) =
        within_unless path d b (float x) (float x) refl
    redact_value-without_secrets path d b (str x) = within_unless path d b (str x) (str x) refl
    redact_value-without_secrets path d b (bytes x) =
        within_unless path d b (bytes x) (bytes x) refl
    redact_value-without_secrets path d b (time x) = within_unless path d b (time x) (time x) refl
    redact_value-without_secrets path d b (other x) =
        within_unless path d b (other x) (other x) refl
    redact_value-without_secrets path d b (seq c xs) =
        within_unless path d b (seq c xs) (seq c (items_without_secrets path xs))
          (rw (count_items-without path xs, redact_items-without_secrets path d b xs))
    redact_value-without_secrets path d b (map c fs) =
        within_unless path d b (map c fs) (map c (fields_without_secrets path fs))
          (rw (count_fields-without path fs, redact_fields-without_secrets path d b fs))

    redact_items-without_secrets :
        (path : FieldPath) (d : ℕ) (b : CaptureBudget) (xs : Items)
        → redact_items lib policy path d b (items_without_secrets path xs)
          ≡ redact_items lib policy path d b xs
    redact_items-without_secrets path d b nil = refl
    redact_items-without_secrets path d b (cons x xs) =
        rw (redact_value-without_secrets path (suc d) b x) (
          ap (λ more. redact_value lib policy path (suc d) b x >>= more)
            (λ i first. redact_items-without_secrets path d first.1 xs i >>= λ rest.
              ok (cons first.0 rest.0, rest.1)))

    redact_fields-without_secrets :
        (path : FieldPath) (d : ℕ) (b : CaptureBudget) (fs : Fields)
        → redact_fields lib policy path d b (fields_without_secrets path fs)
          ≡ redact_fields lib policy path d b fs
    redact_fields-without_secrets path d b end = refl
    redact_fields-without_secrets path d b (field non_text v fs) = refl
    redact_fields-without_secrets path d b (field (text k) v fs) =
        let inside = path ++ lib.lower k ∷ [] in
        rw (redact_value-without_secrets inside (suc d) b v) (
          ap (λ more. redact_value lib policy inside (suc d) b v >>= more)
            (λ i first. redact_fields-without_secrets path d first.1 fs i >>= λ rest.
              ok (field (text k) first.0 rest.0, rest.1)))

  -- Two values that are the same but for what stands at sensitive paths and fields are redacted to
  -- the same result: no secret has an influence on what is persisted, or on whether it is.
  pub apply-no_secrets :
      (v w : Value)
      → without_secrets [] v ≡ without_secrets [] w
      → apply lib policy v ≡ apply lib policy w
  unfolding apply
  apply-no_secrets v w same =
      ap (λ more. shown_only lib policy (capture_budget policy >>= more))
        (λ i b.
          (sym (redact_value-without_secrets [] 0 b v)
              ∙ ap (λ x. redact_value lib policy [] 0 b x) same
              ∙ redact_value-without_secrets [] 0 b w)
            i)
