-- ===== src/Domain/Value/Validate.antt =====
-- `validate_json_value` accepts exactly the JSON values that are not nested too deeply.
use Prim.Native.Nat.{max}
use action_lineage.Base.{
  ℕ, suc, ◌+◌, ◌≤◌, ◌≡◌, ◌↔◌, refl, sym, ap, ◌∙◌, Bool, true, false, not, ◌&&◌, ltb, leb, arith,
  Outcome, ok, err, require, ◌>>◌, inl, inr, Bool-cases,
}
use action_lineage.Domain.Value.{
  Value, null, bool, int, float, str, bytes, time, seq, map, other, Items, nil, cons, Fields, end,
  field, text, non_text, Limits, Refusal, Checked, too_many_items, too_many_members, count_items,
  count_fields, within_depth, is_finite, non_finite, validate_json_value, validate_items,
  validate_fields,
}
use action_lineage.Domain.Value.Spec.{
  depth, depth_items, depth_fields, is_json, are_json, fields_json,
}

abbrev pub accepted {ℓ} : {E A : Type ℓ} → Outcome E A → Bool
accepted (ok _) = true
accepted (err _) = false

depth_then :
    (l : Limits) (d b : ℕ)
    → accepted (within_depth l d >> require (is_finite b) non_finite)
      ≡ (is_finite b && leb (d + 0) l.max_depth)
depth_then l d b = elim (Bool-cases (is_finite b)) [
  | inl p ↦ rw p (ground arith)
  | inr p ↦ rw p (ground arith)
]

accepted-then :
    {E : Type 0} (m k : Outcome E (Unit {0})) → accepted (m >> k) ≡ (accepted m && accepted k)
accepted-then (ok tt) k = refl
accepted-then (err e) k = refl

leb-max : (d a b m : ℕ) → leb (d + max (suc a) b) m ≡ (leb (suc d + a) m && leb (d + b) m)
leb-max d a b m = ground arith

regroup : (a b c e : Bool) → ((a && b) && (c && e)) ≡ ((a && c) && (b && e))
regroup true true c e = refl
regroup true false true e = refl
regroup true false false e = refl
regroup false b c e = refl

and_le : (j : Bool) (n m : ℕ) → (j && leb n m) ≡ true → (j ≡ true) × (n ≤ m)
and_le j n m h = ground arith

le_and : (j : Bool) (n m : ℕ) → j ≡ true → n ≤ m → (j && leb n m) ≡ true
le_and j n m h k = ground arith

ok_of_accepted : {E : Type 0} (m : Outcome E (Unit {0})) → accepted m ≡ true → m ≡ ok tt
ok_of_accepted (ok tt) h = refl
ok_of_accepted (err e) h = cc

-- One member and the rest.
member_then :
    (d a b m : ℕ) (first rest : Checked (Unit {0})) (j k : Bool)
    → accepted first ≡ (j && leb (suc d + a) m)
    → accepted rest ≡ (k && leb (d + b) m)
    → accepted (first >> rest) ≡ ((j && k) && leb (d + max (suc a) b) m)
member_then d a b m first rest j k p q =
    rw (accepted-then, p, q, leb-max) (regroup j (leb (suc d + a) m) k (leb (d + b) m))

-- A container: its depth, its size `n` against the limit `a`, then its members.
members_then :
    (l : Limits) (d a n k : ℕ) (size_error : Refusal) (members : Checked (Unit {0})) (json : Bool)
    → (d ≤ l.max_depth → accepted members ≡ (json && leb (d + k) l.max_depth))
    → accepted (within_depth l d >> (require (not (ltb a n)) size_error >> members))
      ≡ ((not (ltb a n) && json) && leb (d + k) l.max_depth)
members_then l d a n k e members json h = elim (Bool-cases (ltb l.max_depth d)) [
  | inl deep ↦ ground arith
  | inr fits ↦ elim (Bool-cases (ltb a n)) [
    | inl large ↦ rw (fits, large)
    | inr small ↦ rw (fits, small) (h (ground arith))
  ]
]

mutual
  unfolding validate_json_value depth is_json

  accepted-validate :
      (l : Limits) (d : ℕ) (v : Value)
      → accepted (validate_json_value l d v) ≡ (is_json l v && leb (d + depth v) l.max_depth)
  accepted-validate l d null = ground arith
  accepted-validate l d (bool _) = ground arith
  accepted-validate l d (int _) = ground arith
  accepted-validate l d (float b) = depth_then l d b
  accepted-validate l d (str _) = ground arith
  accepted-validate l d (bytes _) = ground arith
  accepted-validate l d (time _) = ground arith
  accepted-validate l d (seq _ xs) =
      members_then l d l.max_items (count_items xs) (depth_items xs) too_many_items
        (validate_items l d xs) (are_json l xs) (accepted-items l d xs)
  accepted-validate l d (map _ fs) =
      members_then l d l.max_members (count_fields fs) (depth_fields fs) too_many_members
        (validate_fields l d fs) (fields_json l fs) (accepted-fields l d fs)
  accepted-validate l d (other _) = ground arith

  accepted-items :
      (l : Limits) (d : ℕ) (xs : Items)
      → d ≤ l.max_depth
      → accepted (validate_items l d xs) ≡ (are_json l xs && leb (d + depth_items xs) l.max_depth)
  accepted-items l d nil h = ground arith
  accepted-items l d (cons x xs) h =
      member_then d (depth x) (depth_items xs) l.max_depth (validate_json_value l (suc d) x)
        (validate_items l d xs) (is_json l x) (are_json l xs) (accepted-validate l (suc d) x)
        (accepted-items l d xs h)

  accepted-fields :
      (l : Limits) (d : ℕ) (fs : Fields)
      → d ≤ l.max_depth
      → accepted (validate_fields l d fs)
        ≡ (fields_json l fs && leb (d + depth_fields fs) l.max_depth)
  accepted-fields l d end h = ground arith
  accepted-fields l d (field non_text v fs) h = refl
  accepted-fields l d (field (text k) v fs) h =
      member_then d (depth v) (depth_fields fs) l.max_depth (validate_json_value l (suc d) v)
        (validate_fields l d fs) (is_json l v) (fields_json l fs) (accepted-validate l (suc d) v)
        (accepted-fields l d fs h)

-- `validate_json_value` accepts a value exactly when it is a JSON value within the limits on
-- members and items whose nesting, from the depth at which it stands, stays within the limit.
pub validate_iff :
    (l : Limits) (d : ℕ) (v : Value)
    → (validate_json_value l d v ≡ ok tt) ↔ ((is_json l v ≡ true) × (d + depth v ≤ l.max_depth))
validate_iff l d v = (
  λ h.
      and_le (is_json l v) (d + depth v) l.max_depth
        (sym (accepted-validate l d v) ∙ ap accepted h),
  λ (j, fits).
      ok_of_accepted (validate_json_value l d v)
        (accepted-validate l d v ∙ le_and (is_json l v) (d + depth v) l.max_depth j fits),
)
