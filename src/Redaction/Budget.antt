-- ===== src/Redaction/Budget.antt =====
-- The capture budget: what a redaction captures stays within it.
use action_lineage.Base.{
  ℕ, suc, ◌≤◌, ◌≡◌, refl, sym, ap, ◌∙◌, subst, not, some, [], ◌∷◌, ◌++◌, length, arith, Outcome, ok,
  err, ◌>>=◌, >>=-eq-ok, ℤ,
}
use action_lineage.Domain.Value.{
  Value, null, bool, int, float, str, bytes, time, seq, map, other, Items, nil, cons, Fields, end,
  field, text, non_text, count_items, count_fields, is_finite,
}
use action_lineage.Redaction.{
  FieldPath, Library, RedactionPolicy, RedactionError, CaptureBudget, redact_value, redact_items,
  redact_fields, capture_budget, apply, shown_only, non_finite, exceeds, too_many_items,
  too_many_members,
}
use action_lineage.Redaction.Cases.{require-rest, pair_eq}
use action_lineage.Redaction.Spends.{
  total, Spends, nothing_spent, spent_in_turn, captures, item_captures, field_captures,
  bytes_Spends, shown_Spends, exempt_or_captured,
}

module _ (lib : Library) (policy : RedactionPolicy) where
  mutual
    unfolding redact_value captures

    redact_value-Spends :
        (path : FieldPath) (d : ℕ) (b b' : CaptureBudget) (v w : Value)
        → redact_value lib policy path d b v ≡ ok (w, b')
        → Spends b (captures lib policy path v) b'
    redact_value-Spends path d b b' null w h =
        shown_Spends lib policy path d b b' null _ w
          (λ s k. subst (Spends b []) ((pair_eq k).1) (nothing_spent b)) h
    redact_value-Spends path d b b' (bool x) w h =
        shown_Spends lib policy path d b b' (bool x) _ w
          (λ s k. subst (Spends b []) ((pair_eq k).1) (nothing_spent b)) h
    redact_value-Spends path d b b' (int x) w h =
        shown_Spends lib policy path d b b' (int x) _ w
          (λ s k. subst (Spends b []) ((pair_eq k).1) (nothing_spent b)) h
    redact_value-Spends path d b b' (float x) w h =
        shown_Spends lib policy path d b b' (float x) _ w
          (λ s k.
            subst (Spends b []) ((pair_eq ((require-rest (is_finite x) non_finite _ k).1)).1)
              (nothing_spent b))
          h
    redact_value-Spends path d b b' (time x) w h =
        shown_Spends lib policy path d b b' (time x) _ w (λ s k. cc) h
    redact_value-Spends path d b b' (other x) w h =
        shown_Spends lib policy path d b b' (other x) _ w (λ s k. cc) h
    redact_value-Spends path d b b' (str x) w h =
        shown_Spends lib policy path d b b' (str x) _ w
          (λ s k. rw s (exempt_or_captured lib policy path b b' x w k)) h
    redact_value-Spends path d b b' (bytes x) w h =
        shown_Spends lib policy path d b b' (bytes x) _ w
          (λ s k. rw s (bytes_Spends lib policy b b' x policy.max_bytes_length w k)) h
    redact_value-Spends path d b b' (seq c xs) w h =
        shown_Spends lib policy path d b b' (seq c xs) _ w
          (λ s k.
            let (_, k₁) =
              require-rest (not (exceeds (count_items xs) policy.max_array_length)) too_many_items _
                k in
            let (r, found, k₂) = >>=-eq-ok (redact_items lib policy path d b xs) _ k₁ in
            rw s (
              subst (Spends b (item_captures lib policy path xs)) ((pair_eq k₂).1)
                (redact_items-Spends path d b r.1 xs r.0 found)))
          h
    redact_value-Spends path d b b' (map c fs) w h =
        shown_Spends lib policy path d b b' (map c fs) _ w
          (λ s k.
            let (_, k₁) =
              require-rest (not (exceeds (count_fields fs) policy.max_object_members))
                too_many_members _ k in
            let (r, found, k₂) = >>=-eq-ok (redact_fields lib policy path d b fs) _ k₁ in
            rw s (
              subst (Spends b (field_captures lib policy path fs)) ((pair_eq k₂).1)
                (redact_fields-Spends path d b r.1 fs r.0 found)))
          h

    redact_items-Spends :
        (path : FieldPath) (d : ℕ) (b b' : CaptureBudget) (xs ys : Items)
        → redact_items lib policy path d b xs ≡ ok (ys, b')
        → Spends b (item_captures lib policy path xs) b'
    redact_items-Spends path d b b' nil ys h = subst (Spends b []) ((pair_eq h).1) (nothing_spent b)
    redact_items-Spends path d b b' (cons x xs) ys h =
        let (first, h₁, k₁) = >>=-eq-ok (redact_value lib policy path (suc d) b x) _ h in
        let (rest, h₂, k₂) = >>=-eq-ok (redact_items lib policy path d first.1 xs) _ k₁ in
        subst (Spends b (captures lib policy path x ++ item_captures lib policy path xs))
          ((pair_eq k₂).1)
          (spent_in_turn b first.1 rest.1 (captures lib policy path x)
            (item_captures lib policy path xs)
            (redact_value-Spends path (suc d) b first.1 x first.0 h₁)
            (redact_items-Spends path d first.1 rest.1 xs rest.0 h₂))

    redact_fields-Spends :
        (path : FieldPath) (d : ℕ) (b b' : CaptureBudget) (fs gs : Fields)
        → redact_fields lib policy path d b fs ≡ ok (gs, b')
        → Spends b (field_captures lib policy path fs) b'
    redact_fields-Spends path d b b' end gs h =
        subst (Spends b []) ((pair_eq h).1) (nothing_spent b)
    redact_fields-Spends path d b b' (field non_text v fs) gs h = cc
    redact_fields-Spends path d b b' (field (text k) v fs) gs h =
        let inside = path ++ lib.lower k ∷ [] in
        let (first, h₁, k₁) = >>=-eq-ok (redact_value lib policy inside (suc d) b v) _ h in
        let (rest, h₂, k₂) = >>=-eq-ok (redact_fields lib policy path d first.1 fs) _ k₁ in
        subst (Spends b (captures lib policy inside v ++ field_captures lib policy path fs))
          ((pair_eq k₂).1)
          (spent_in_turn b first.1 rest.1 (captures lib policy inside v)
            (field_captures lib policy path fs)
            (redact_value-Spends inside (suc d) b first.1 v first.0 h₁)
            (redact_fields-Spends path d first.1 rest.1 fs rest.0 h₂))

  -- A redaction that returns has captured at most as many values as the policy allows, and of all
  -- of them together at most as many bytes.
  pub captures_bounded :
      (v w : Value) (max_count max_bytes : ℕ)
      → policy.max_capture_count ≡ ℤ.pos max_count
      → policy.max_capture_bytes ≡ ℤ.pos max_bytes
      → apply lib policy v ≡ some w
      → (length (captures lib policy [] v) ≤ max_count)
        × (total (captures lib policy [] v) ≤ max_bytes)
  unfolding apply capture_budget
  captures_bounded v w max_count max_bytes counts sizes h =
      let start : CaptureBudget = record {
        max_count = max_count;
        max_bytes = max_bytes;
        count = 0;
        captured_bytes = 0;
      } in
      let budget : capture_budget policy ≡ ok start = rw (counts, sizes) in
      let (r, found) = shown_some (redact_value lib policy [] 0 start v) (
        sym (ap (λ m. shown_only lib policy (m >>= λ b. redact_value lib policy [] 0 b v)) budget)
        ∙ h) in
      let s = redact_value-Spends [] 0 start r.1 v r.0 found in
      (
        omega (arith, s.counted, s.same_max_count, s.count_within (omega arith)),
        omega (arith, s.added, s.same_max_bytes, s.bytes_within (omega arith)),
      )
    where
      shown_some :
          (o : Outcome RedactionError (Value × CaptureBudget))
          → shown_only lib policy o ≡ some w
          → (r : Value × CaptureBudget) × (o ≡ ok r)
      shown_some (ok r) k = (r, refl)
      shown_some (err e) k = cc
