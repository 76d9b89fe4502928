-- ===== src/Domain/Value/Freeze.antt =====
-- Freezing a payload: it ends, is idempotent, keeps what a value says and what the checks accept.
use action_lineage.Base.{
  sym, ok_injective, &&-true, ℕ, zero, suc, ◌≤◌, ◌<◌, ◌≡◌, refl, ap, ap₂, ◌∙◌, true, not, ltb, ◌&&◌,
  arith, ok, ◌>>=◌,
}
use action_lineage.Domain.Value.{
  Value, null, bool, int, float, str, bytes, time, seq, map, other, Items, nil, cons, Fields, end,
  field, plain, frozen, Limits, is_text, count_items, count_fields, each_item, each_field,
  freeze_json_value, thaw_json_value, thaw_items, thaw_fields, validate_json_value,
}
use action_lineage.Domain.Value.Spec.{
  depth, depth_items, depth_fields, is_json, are_json, fields_json, freeze_all, freeze_items,
  freeze_fields,
}
use action_lineage.Domain.Value.Validate.{validate_iff}

mutual
  unfolding freeze_all thaw_json_value

  pub thaw-freeze_all : (v : Value) → thaw_json_value (freeze_all v) ≡ thaw_json_value v
  thaw-freeze_all (seq _ xs) = ap (seq plain) (thaw-freeze_items xs)
  thaw-freeze_all (map _ fs) = ap (map plain) (thaw-freeze_fields fs)
  thaw-freeze_all _ = refl

  thaw-freeze_items : (xs : Items) → thaw_items (freeze_items xs) ≡ thaw_items xs
  thaw-freeze_items nil = refl
  thaw-freeze_items (cons x xs) = ap₂ cons (thaw-freeze_all x) (thaw-freeze_items xs)

  thaw-freeze_fields : (fs : Fields) → thaw_fields (freeze_fields fs) ≡ thaw_fields fs
  thaw-freeze_fields end = refl
  thaw-freeze_fields (field k v fs) = ap₂ (field k) (thaw-freeze_all v) (thaw-freeze_fields fs)

mutual
  unfolding freeze_all

  freeze_all_idem : (v : Value) → freeze_all (freeze_all v) ≡ freeze_all v
  freeze_all_idem (seq _ xs) = ap (seq frozen) (freeze_items_idem xs)
  freeze_all_idem (map _ fs) = ap (map frozen) (freeze_fields_idem fs)
  freeze_all_idem _ = refl

  freeze_items_idem : (xs : Items) → freeze_items (freeze_items xs) ≡ freeze_items xs
  freeze_items_idem nil = refl
  freeze_items_idem (cons x xs) = ap₂ cons (freeze_all_idem x) (freeze_items_idem xs)

  freeze_fields_idem : (fs : Fields) → freeze_fields (freeze_fields fs) ≡ freeze_fields fs
  freeze_fields_idem end = refl
  freeze_fields_idem (field k v fs) = ap₂ (field k) (freeze_all_idem v) (freeze_fields_idem fs)

mutual
  unfolding freeze_all depth

  pub depth-freeze_all : (v : Value) → depth (freeze_all v) ≡ depth v
  depth-freeze_all (seq _ xs) = depth-freeze_items xs
  depth-freeze_all (map _ fs) = depth-freeze_fields fs
  depth-freeze_all _ = refl

  depth-freeze_items : (xs : Items) → depth_items (freeze_items xs) ≡ depth_items xs
  depth-freeze_items nil = refl
  depth-freeze_items (cons x xs) = omega (arith, depth-freeze_all x, depth-freeze_items xs)

  depth-freeze_fields : (fs : Fields) → depth_fields (freeze_fields fs) ≡ depth_fields fs
  depth-freeze_fields end = refl
  depth-freeze_fields (field _ v fs) = omega (arith, depth-freeze_all v, depth-freeze_fields fs)

count-freeze_items : (xs : Items) → count_items (freeze_items xs) ≡ count_items xs
unfolding freeze_all
count-freeze_items nil = refl
count-freeze_items (cons _ xs) = ap suc (count-freeze_items xs)

count-freeze_fields : (fs : Fields) → count_fields (freeze_fields fs) ≡ count_fields fs
unfolding freeze_all
count-freeze_fields end = refl
count-freeze_fields (field _ _ fs) = ap suc (count-freeze_fields fs)

mutual
  unfolding freeze_all is_json

  pub json-freeze_all : (l : Limits) (v : Value) → is_json l (freeze_all v) ≡ is_json l v
  json-freeze_all l (seq _ xs) = rw (count-freeze_items xs, json-freeze_items l xs)
  json-freeze_all l (map _ fs) = rw (count-freeze_fields fs, json-freeze_fields l fs)
  json-freeze_all l _ = refl

  json-freeze_items : (l : Limits) (xs : Items) → are_json l (freeze_items xs) ≡ are_json l xs
  json-freeze_items l nil = refl
  json-freeze_items l (cons x xs) = rw (json-freeze_all l x, json-freeze_items l xs)

  json-freeze_fields :
      (l : Limits) (fs : Fields) → fields_json l (freeze_fields fs) ≡ fields_json l fs
  json-freeze_fields l end = refl
  json-freeze_fields l (field k v fs) = rw (json-freeze_all l v, json-freeze_fields l fs)

-- With fuel for its members, what each of them becomes.
module _ (l : Limits) (n : ℕ)
    (members : (v : Value)
      → is_json l v ≡ true
      → depth v < n
      → freeze_json_value n v ≡ ok (freeze_all v)) where
  each_item_freezes :
      (xs : Items)
      → are_json l xs ≡ true
      → depth_items xs ≤ n
      → each_item (freeze_json_value n) xs ≡ ok (freeze_items xs)
  unfolding freeze_all is_json depth
  each_item_freezes nil j h = refl
  each_item_freezes (cons x xs) j h =
      let (jx, jxs) = &&-true (is_json l x) (are_json l xs) j in
      rw (members x jx (omega arith), each_item_freezes xs jxs (omega arith))

  each_field_freezes :
      (fs : Fields)
      → fields_json l fs ≡ true
      → depth_fields fs ≤ n
      → each_field (freeze_json_value n) fs ≡ ok (freeze_fields fs)
  unfolding freeze_all is_json depth
  each_field_freezes end j h = refl
  each_field_freezes (field k v fs) j h =
      let (jkv, jfs) = &&-true (is_text k && is_json l v) (fields_json l fs) j in
      let (_, jv) = &&-true (is_text k) (is_json l v) jkv in
      rw (members v jv (omega arith), each_field_freezes fs jfs (omega arith))

  -- The second pass, of the frozen container's constructor, finds nothing to do.
  items_twice :
      (xs : Items)
      → are_json l xs ≡ true
      → depth_items xs ≤ n
      → (each_item (freeze_json_value n) xs >>= λ ys.
          each_item (freeze_json_value n) ys >>= λ zs. ok (seq frozen zs))
        ≡ ok (seq frozen (freeze_items xs))
  items_twice xs j h = rw (each_item_freezes xs j h) (
      rw
        (each_item_freezes (freeze_items xs) (json-freeze_items l xs ∙ j)
          (omega (arith, depth-freeze_items xs)))
        (ap (λ zs. ok (seq frozen zs)) (freeze_items_idem xs)))

  fields_twice :
      (fs : Fields)
      → fields_json l fs ≡ true
      → depth_fields fs ≤ n
      → (each_field (freeze_json_value n) fs >>= λ gs.
          each_field (freeze_json_value n) gs >>= λ hs. ok (map frozen hs))
        ≡ ok (map frozen (freeze_fields fs))
  fields_twice fs j h = rw (each_field_freezes fs j h) (
      rw
        (each_field_freezes (freeze_fields fs) (json-freeze_fields l fs ∙ j)
          (omega (arith, depth-freeze_fields fs)))
        (ap (λ hs. ok (map frozen hs)) (freeze_fields_idem fs)))

pub freeze-json :
    (l : Limits) (fuel : ℕ) (v : Value)
    → is_json l v ≡ true
    → depth v < fuel
    → freeze_json_value fuel v ≡ ok (freeze_all v)
unfolding freeze_json_value freeze_all is_json depth
freeze-json l zero v j h = elim h [ ]
freeze-json l (suc n) null j h = refl
freeze-json l (suc n) (bool _) j h = refl
freeze-json l (suc n) (int _) j h = refl
freeze-json l (suc n) (float _) j h = refl
freeze-json l (suc n) (str _) j h = refl
freeze-json l (suc n) (seq c xs) j h =
    let (_, js) = &&-true (not (ltb l.max_items (count_items xs))) (are_json l xs) j in
    items_twice l n (freeze-json l n) xs js (omega arith)
freeze-json l (suc n) (map _ fs) j h =
    let (_, js) = &&-true (not (ltb l.max_members (count_fields fs))) (fields_json l fs) j in
    fields_twice l n (freeze-json l n) fs js (omega arith)
freeze-json l (suc n) (bytes _) j h = cc
freeze-json l (suc n) (time _) j h = cc
freeze-json l (suc n) (other _) j h = cc

pub frozen-eq :
    (l : Limits) (fuel : ℕ) (v w : Value)
    → validate_json_value l 0 v ≡ ok tt
    → l.max_depth < fuel
    → freeze_json_value fuel v ≡ ok w
    → w ≡ freeze_all v
frozen-eq l fuel v w valid h frozen_to =
    let (j, fits) = (validate_iff l 0 v).0 valid in
    ok_injective (sym frozen_to ∙ freeze-json l fuel v j (omega arith))

-- A payload that `validate_json_value` accepts freezes, given more nested calls than the depth
-- that the limits allow. The frozen value is accepted too, freezes to itself, and thaws to what
-- the payload thaws to.
pub freeze-validated :
    (l : Limits) (fuel : ℕ) (v : Value)
    → validate_json_value l 0 v ≡ ok tt
    → l.max_depth < fuel
    → (w : Value) × (freeze_json_value fuel v ≡ ok w)
      × (freeze_json_value fuel w ≡ ok w)
      × (validate_json_value l 0 w ≡ ok tt)
      × (thaw_json_value w ≡ thaw_json_value v)
freeze-validated l fuel v valid h =
    let (j, fits) = (validate_iff l 0 v).0 valid in
    let w = freeze_all v in
    let jw : is_json l w ≡ true = json-freeze_all l v ∙ j in
    (
      w,
      freeze-json l fuel v j (omega arith),
      freeze-json l fuel w jw (omega (arith, depth-freeze_all v)) ∙ ap ok (freeze_all_idem v),
      (validate_iff l 0 w).1 (jw, omega (arith, depth-freeze_all v)),
      thaw-freeze_all v,
    )
