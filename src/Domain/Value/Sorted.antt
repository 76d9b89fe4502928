-- ===== src/Domain/Value/Sorted.antt =====
-- Values whose mappings have their keys once each and in order, as what json.dumps writes with
-- sort_keys=True and json.loads reads back.
use action_lineage.Base.{
  String, ◌≡◌, refl, ap, ap₂, Bool, true, false, not, ◌&&◌, Option, none, some, str_eq, text_le,
}
use action_lineage.Domain.Value.{
  Value, seq, map, Items, nil, cons, Fields, end, field, text, non_text, thaw_json_value,
  thaw_items, thaw_fields,
}

-- A key that comes behind the one before it.
unfoldable pub is_behind : Option String → String → Bool
is_behind none key = true
is_behind (some before) key = text_le before key && not (str_eq before key)

unfoldable mutual
  pub is_sorted : Value → Bool
  is_sorted (map _ fs) = are_fields_sorted none fs
  is_sorted (seq _ xs) = are_items_sorted xs
  is_sorted _ = true

  pub are_items_sorted : Items → Bool
  are_items_sorted nil = true
  are_items_sorted (cons x xs) = is_sorted x && are_items_sorted xs

  pub are_fields_sorted : Option String → Fields → Bool
  are_fields_sorted before end = true
  are_fields_sorted before (field non_text v fs) = false
  are_fields_sorted before (field (text k) v fs) =
      is_behind before k && (is_sorted v && are_fields_sorted (some k) fs)

mutual
  unfolding is_sorted thaw_json_value

  pub is_sorted-thaw : (v : Value) → is_sorted (thaw_json_value v) ≡ is_sorted v
  is_sorted-thaw (map _ fs) = are_fields_sorted-thaw none fs
  is_sorted-thaw (seq _ xs) = are_items_sorted-thaw xs
  is_sorted-thaw _ = refl

  are_items_sorted-thaw : (xs : Items) → are_items_sorted (thaw_items xs) ≡ are_items_sorted xs
  are_items_sorted-thaw nil = refl
  are_items_sorted-thaw (cons x xs) = ap₂ ◌&&◌ (is_sorted-thaw x) (are_items_sorted-thaw xs)

  are_fields_sorted-thaw :
      (before : Option String) (fs : Fields)
      → are_fields_sorted before (thaw_fields fs) ≡ are_fields_sorted before fs
  are_fields_sorted-thaw before end = refl
  are_fields_sorted-thaw before (field non_text v fs) = refl
  are_fields_sorted-thaw before (field (text k) v fs) =
      ap (λ b. is_behind before k && b)
        (ap₂ ◌&&◌ (is_sorted-thaw v) (are_fields_sorted-thaw (some k) fs))
