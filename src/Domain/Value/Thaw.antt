-- ===== src/Domain/Value/Thaw.antt =====
-- Thawing a frozen payload and freezing it again.
use action_lineage.Base.{ℕ, ◌<◌, ◌≡◌, refl, sym, ap, ap₂, ◌∙◌, arith, ok, true}
use action_lineage.Domain.Value.{
  Value, seq, map, Items, nil, cons, Fields, end, field, frozen, Limits, freeze_json_value,
  thaw_json_value, thaw_items, thaw_fields, validate_json_value,
}
use action_lineage.Domain.Value.Spec.{
  depth, depth_items, depth_fields, is_json, are_json, fields_json, freeze_all, freeze_items,
  freeze_fields,
}
use action_lineage.Domain.Value.Validate.{validate_iff}
use action_lineage.Domain.Value.Normalize.{count-thaw_items, count-thaw_fields}
use action_lineage.Domain.Value.Freeze.{freeze-json, frozen-eq, thaw-freeze_all}

mutual
  unfolding freeze_all thaw_json_value

  pub freeze_all-thaw : (v : Value) → freeze_all (thaw_json_value v) ≡ freeze_all v
  freeze_all-thaw (seq _ xs) = ap (seq frozen) (freeze_items-thaw xs)
  freeze_all-thaw (map _ fs) = ap (map frozen) (freeze_fields-thaw fs)
  freeze_all-thaw _ = refl

  freeze_items-thaw : (xs : Items) → freeze_items (thaw_items xs) ≡ freeze_items xs
  freeze_items-thaw nil = refl
  freeze_items-thaw (cons x xs) = ap₂ cons (freeze_all-thaw x) (freeze_items-thaw xs)

  freeze_fields-thaw : (fs : Fields) → freeze_fields (thaw_fields fs) ≡ freeze_fields fs
  freeze_fields-thaw end = refl
  freeze_fields-thaw (field k v fs) = ap₂ (field k) (freeze_all-thaw v) (freeze_fields-thaw fs)

mutual
  unfolding thaw_json_value depth

  depth-thaw : (v : Value) → depth (thaw_json_value v) ≡ depth v
  depth-thaw (seq _ xs) = depth-thaw_items xs
  depth-thaw (map _ fs) = depth-thaw_fields fs
  depth-thaw _ = refl

  depth-thaw_items : (xs : Items) → depth_items (thaw_items xs) ≡ depth_items xs
  depth-thaw_items nil = refl
  depth-thaw_items (cons x xs) = omega (arith, depth-thaw x, depth-thaw_items xs)

  depth-thaw_fields : (fs : Fields) → depth_fields (thaw_fields fs) ≡ depth_fields fs
  depth-thaw_fields end = refl
  depth-thaw_fields (field _ v fs) = omega (arith, depth-thaw v, depth-thaw_fields fs)

mutual
  unfolding thaw_json_value is_json

  json-thaw : (l : Limits) (v : Value) → is_json l (thaw_json_value v) ≡ is_json l v
  json-thaw l (seq _ xs) = rw (count-thaw_items xs, json-thaw_items l xs)
  json-thaw l (map _ fs) = rw (count-thaw_fields fs, json-thaw_fields l fs)
  json-thaw l _ = refl

  json-thaw_items : (l : Limits) (xs : Items) → are_json l (thaw_items xs) ≡ are_json l xs
  json-thaw_items l nil = refl
  json-thaw_items l (cons x xs) = rw (json-thaw l x, json-thaw_items l xs)

  json-thaw_fields : (l : Limits) (fs : Fields) → fields_json l (thaw_fields fs) ≡ fields_json l fs
  json-thaw_fields l end = refl
  json-thaw_fields l (field k v fs) = rw (json-thaw l v, json-thaw_fields l fs)

-- Of a payload that `validate_json_value` accepts, given more nested calls than the depth that the
-- limits allow: what it freezes to thaws to a value that is accepted again, and that freezes back
-- to the same frozen value.
pub freeze-thaw :
    (l : Limits) (fuel : ℕ) (v w : Value)
    → validate_json_value l 0 v ≡ ok tt
    → l.max_depth < fuel
    → freeze_json_value fuel v ≡ ok w
    → (validate_json_value l 0 (thaw_json_value w) ≡ ok tt)
      × (freeze_json_value fuel (thaw_json_value w) ≡ ok w)
freeze-thaw l fuel v w valid h frozen_to =
    let (j, fits) = (validate_iff l 0 v).0 valid in
    let is : freeze_all v ≡ w = sym (frozen-eq l fuel v w valid h frozen_to) in
    let same : thaw_json_value w ≡ thaw_json_value v =
      ap thaw_json_value (sym is) ∙ thaw-freeze_all v in
    let good : is_json l (thaw_json_value w) ≡ true = ap (is_json l) same ∙ json-thaw l v ∙ j in
    let deep : depth (thaw_json_value w) ≡ depth v = ap depth same ∙ depth-thaw v in
    (
      (validate_iff l 0 (thaw_json_value w)).1 (good, omega arith),
      freeze-json l fuel (thaw_json_value w) good (omega arith)
          ∙ ap ok (ap freeze_all same ∙ freeze_all-thaw v ∙ is),
    )
