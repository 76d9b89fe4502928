-- ===== src/Domain/Value/Spec.antt =====
-- What the checks on JSON values are compared with: nesting depth, and the values that JSON holds.
use Prim.Native.Nat.{max}
use action_lineage.Base.{ℕ, suc, Bool, true, false, not, ◌&&◌, ltb}
use action_lineage.Domain.Value.{
  Value, null, bool, int, float, str, bytes, time, seq, map, other, Items, nil, cons, Fields, end,
  field, frozen, Limits, count_items, count_fields, is_finite, is_text,
}

-- The nesting of containers; an item counts one more than its container.
unfoldable mutual
  pub depth : Value → ℕ
  depth (seq _ xs) = depth_items xs
  depth (map _ fs) = depth_fields fs
  depth _ = 0

  pub depth_items : Items → ℕ
  depth_items nil = 0
  depth_items (cons x xs) = max (suc (depth x)) (depth_items xs)

  pub depth_fields : Fields → ℕ
  depth_fields end = 0
  depth_fields (field _ v fs) = max (suc (depth v)) (depth_fields fs)

-- Only JSON types, finite numbers, text keys, and containers within the limits.
unfoldable mutual
  pub is_json : Limits → Value → Bool
  is_json l null = true
  is_json l (bool _) = true
  is_json l (int _) = true
  is_json l (float b) = is_finite b
  is_json l (str _) = true
  is_json l (bytes _) = false
  is_json l (time _) = false
  is_json l (seq _ xs) = not (ltb l.max_items (count_items xs)) && are_json l xs
  is_json l (map _ fs) = not (ltb l.max_members (count_fields fs)) && fields_json l fs
  is_json l (other _) = false

  pub are_json : Limits → Items → Bool
  are_json l nil = true
  are_json l (cons x xs) = is_json l x && are_json l xs

  pub fields_json : Limits → Fields → Bool
  fields_json l end = true
  fields_json l (field k v fs) = is_text k && is_json l v && fields_json l fs

-- Every container is immutable.
unfoldable mutual
  pub freeze_all : Value → Value
  freeze_all (seq _ xs) = seq frozen (freeze_items xs)
  freeze_all (map _ fs) = map frozen (freeze_fields fs)
  freeze_all v = v

  pub freeze_items : Items → Items
  freeze_items nil = nil
  freeze_items (cons x xs) = cons (freeze_all x) (freeze_items xs)

  pub freeze_fields : Fields → Fields
  freeze_fields end = end
  freeze_fields (field k v fs) = field k (freeze_all v) (freeze_fields fs)
