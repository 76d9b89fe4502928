-- ===== src/Tests/Sorting.antt =====
-- The sorting of keys by json.dumps, for the platform of the tests.
use action_lineage.Base.{
  String, ◌≡◌, refl, ap, ap₂, ◌∙◌, true, false, not, ◌&&◌, &&-true, Option, none, some, str_eq,
  eq_iff, if◌then◌else◌, text_le, Bool-cases, inl, inr,
}
use action_lineage.Domain.Value.{
  Value, null, bool, plain, seq, map, Items, nil, cons, Fields, end, field, text, non_text,
}
use action_lineage.Domain.Value.Members.{get}
use action_lineage.Domain.Value.Sorted.{is_behind, is_sorted, are_items_sorted, are_fields_sorted}

-- A member among sorted ones, where it stands before those with a greater key.
unfoldable pub insert : String → Value → Fields → Fields
insert k v end = field (text k) v end
insert k v (field non_text w fs) = field non_text w (insert k v fs)
insert k v (field (text j) w fs) =
    let rest = insert k v fs in
    if text_le k j then field (text k) v (field (text j) w fs) else field (text j) w rest

unfoldable mutual
  pub sort_keys : Value → Value
  sort_keys (map c fs) = map c (sort_fields fs)
  sort_keys (seq c xs) = seq c (sort_items xs)
  sort_keys v = v

  pub sort_items : Items → Items
  sort_items nil = nil
  sort_items (cons x xs) = cons (sort_keys x) (sort_items xs)

  pub sort_fields : Fields → Fields
  sort_fields end = end
  sort_fields (field non_text v fs) = field non_text (sort_keys v) (sort_fields fs)
  sort_fields (field (text k) v fs) = insert k (sort_keys v) (sort_fields fs)

insert-first :
    (k : String) (v : Value) (fs : Fields)
    → are_fields_sorted (some k) fs ≡ true
    → insert k v fs ≡ field (text k) v fs
unfolding insert is_sorted is_behind
insert-first k v end h = refl
insert-first k v (field non_text w fs) h = cc
insert-first k v (field (text j) w fs) h =
    let (behind, _) = &&-true (text_le k j && not (str_eq k j)) _ h in
    let (le, _) = &&-true (text_le k j) _ behind in rw le refl

mutual
  unfolding sort_keys is_sorted

  -- What is sorted stays as it is.
  pub sort_keys-sorted : (v : Value) → is_sorted v ≡ true → sort_keys v ≡ v
  sort_keys-sorted (map c fs) h = ap (map c) (sort_fields-sorted none fs h)
  sort_keys-sorted (seq c xs) h = ap (seq c) (sort_items-sorted xs h)
  sort_keys-sorted _ h = refl

  sort_items-sorted : (xs : Items) → are_items_sorted xs ≡ true → sort_items xs ≡ xs
  sort_items-sorted nil h = refl
  sort_items-sorted (cons x xs) h =
      let (a, b) = &&-true (is_sorted x) (are_items_sorted xs) h in
      ap₂ cons (sort_keys-sorted x a) (sort_items-sorted xs b)

  sort_fields-sorted :
      (before : Option String) (fs : Fields)
      → are_fields_sorted before fs ≡ true
      → sort_fields fs ≡ fs
  sort_fields-sorted before end h = refl
  sort_fields-sorted before (field non_text v fs) h = cc
  sort_fields-sorted before (field (text k) v fs) h =
      let (_, rest) = &&-true (is_behind before k) _ h in
      let (a, b) = &&-true (is_sorted v) (are_fields_sorted (some k) fs) rest in
      ap₂ (insert k) (sort_keys-sorted v a) (sort_fields-sorted (some k) fs b)
      ∙ insert-first k v fs b

-- Two orders of keys are written alike.
two_orders :
    sort_keys (map plain (field (text "b") null (field (text "a") (bool true) end)))
    ≡ sort_keys (map plain (field (text "a") (bool true) (field (text "b") null end)))
unfolding sort_keys insert text_le
two_orders = refl

-- The payload of an event, sorted.
unfoldable pub sort_member : String → Fields → Fields
sort_member name end = end
sort_member name (field non_text v fs) = field non_text v (sort_member name fs)
sort_member name (field (text k) v fs) =
    field (text k) (if str_eq k name then sort_keys v else v) (sort_member name fs)

unfoldable pub sort_payload : Value → Value
sort_payload (map c fs) = map c (sort_member "payload" fs)
sort_payload v = v

pub sort_member-get :
    (name key : String) (fs : Fields)
    → str_eq key name ≡ false
    → get key (sort_member name fs) ≡ get key fs
unfolding sort_member get
sort_member-get name key end h = refl
sort_member-get name key (field non_text v fs) h = sort_member-get name key fs h
sort_member-get name key (field (text k) v fs) h = elim (Bool-cases (str_eq k key)) [
  | inl same ↦ rw (same, ap (λ x. str_eq x name) ((eq_iff k key).0 same) ∙ h) refl
  | inr other ↦ rw other (sort_member-get name key fs h)
]
