-- ===== src/Domain/Value.antt =====
-- Python values at the JSON boundary: `validate_json_value`, `freeze_json_value` and
-- `thaw_json_value` of src/actionlineage/domain/events.py, `normalize_json` of serialization.py.
--
-- A float is the 64 bits of its IEEE double, a datetime the microseconds of its instant. `plain`
-- stands for list, tuple and dict, `frozen` for FrozenJsonList and FrozenJsonDict. A value of any
-- other class is `other`, with the name of its class.
pub mod Spec
pub mod Validate
pub mod Freeze
pub mod Normalize
pub mod Thaw
pub mod Sorted
pub mod Members
use action_lineage.Base.{
  ℕ, zero, suc, ◌+◌, ◌/◌, ◌%◌, ◌^◌, String, Bool, true, false, not, List, ltb, ◌==◌, if◌then◌else◌,
  Outcome, ok, err, require, ◌>>=◌, ◌>>◌, ℤ,
}

pub data Datetime : Type 0 where
  naive : ℕ → Datetime
  aware : ℕ → Datetime

pub data Container : Type 0 where
  plain frozen : Container

pub data Key : Type 0 where
  text : String → Key
  non_text : Key

mutual
  pub data Value : Type 0 where
    null : Value
    bool : Bool → Value
    int : ℤ → Value
    float : ℕ → Value
    str : String → Value
    bytes : List ℕ → Value
    time : Datetime → Value
    seq : Container → Items → Value
    map : Container → Fields → Value
    other : String → Value

  pub data Items : Type 0 where
    nil : Items
    cons : Value → Items → Items

  pub data Fields : Type 0 where
    end : Fields
    field : Key → Value → Fields → Fields

abbrev pub count_items : Items → ℕ
count_items nil = 0
count_items (cons _ xs) = suc (count_items xs)

abbrev pub count_fields : Fields → ℕ
count_fields end = 0
count_fields (field _ _ fs) = suc (count_fields fs)

-- `math.isfinite`: the exponent of an infinity or a NaN has all its eleven bits set.
unfoldable pub is_finite : ℕ → Bool
is_finite bits = not ((bits / 2 ^ 52) % 2 ^ 11 == 2047)

abbrev pub is_text : Key → Bool
is_text (text _) = true
is_text non_text = false

pub record Limits : Type 0 where
  pub max_depth : ℕ
  pub max_members : ℕ
  pub max_items : ℕ

abbrev pub default_limits : Limits
default_limits = record { max_depth = 64; max_members = 4096; max_items = 4096 }

-- Why a value is refused; the messages of the exceptions are left out. `recursion` is Python's
-- RecursionError.
pub data Refusal : Type 0 where
  too_deep too_many_members too_many_items non_text_key non_finite unsupported naive_time : Refusal
  recursion : Refusal

abbrev pub Checked : Type 0 → Type 0
Checked A = Outcome Refusal A

-- `if _depth > max_depth: raise`.
abbrev pub within_depth : Limits → ℕ → Checked (Unit {0})
within_depth l d = require (not (ltb l.max_depth d)) too_deep

unfoldable mutual
  pub validate_json_value : Limits → ℕ → Value → Checked (Unit {0})
  validate_json_value l d null = within_depth l d
  validate_json_value l d (bool _) = within_depth l d
  validate_json_value l d (int _) = within_depth l d
  validate_json_value l d (float b) = do within_depth l d; require (is_finite b) non_finite
  validate_json_value l d (str _) = within_depth l d
  validate_json_value l d (seq _ xs) = do
    within_depth l d
    require (not (ltb l.max_items (count_items xs))) too_many_items
    validate_items l d xs
  validate_json_value l d (map _ fs) = do
    within_depth l d
    require (not (ltb l.max_members (count_fields fs))) too_many_members
    validate_fields l d fs
  validate_json_value l d (bytes _) = do within_depth l d; err unsupported
  validate_json_value l d (time _) = do within_depth l d; err unsupported
  validate_json_value l d (other _) = do within_depth l d; err unsupported

  -- The loop over the items of a sequence at depth `d`.
  pub validate_items : Limits → ℕ → Items → Checked (Unit {0})
  validate_items l d nil = ok tt
  validate_items l d (cons x xs) = do validate_json_value l (suc d) x; validate_items l d xs

  -- The loop over the items of a mapping at depth `d`.
  pub validate_fields : Limits → ℕ → Fields → Checked (Unit {0})
  validate_fields l d end = ok tt
  validate_fields l d (field k v fs) = do
    require (is_text k) non_text_key
    validate_json_value l (suc d) v
    validate_fields l d fs

abbrev pub each_item : (Value → Checked Value) → Items → Checked Items
each_item f nil = ok nil
each_item f (cons x xs) = do y ← f x; ys ← each_item f xs; ok (cons y ys)

abbrev pub each_field : (Value → Checked Value) → Fields → Checked Fields
each_field f end = ok end
each_field f (field k v fs) = do w ← f v; gs ← each_field f fs; ok (field k w gs)

-- `fuel` is the depth of calls that Python allows. The constructors FrozenJsonDict and
-- FrozenJsonList freeze once more what `freeze_json_value` hands them.
unfoldable pub freeze_json_value : ℕ → Value → Checked Value
freeze_json_value zero v = err recursion
freeze_json_value (suc fuel) null = ok null
freeze_json_value (suc fuel) (bool b) = ok (bool b)
freeze_json_value (suc fuel) (int i) = ok (int i)
freeze_json_value (suc fuel) (float b) = ok (float b)
freeze_json_value (suc fuel) (str s) = ok (str s)
freeze_json_value (suc fuel) (map _ fs) = do
  gs ← each_field (freeze_json_value fuel) fs
  hs ← each_field (freeze_json_value fuel) gs
  ok (map frozen hs)
freeze_json_value (suc fuel) (seq _ xs) = do
  ys ← each_item (freeze_json_value fuel) xs
  zs ← each_item (freeze_json_value fuel) ys
  ok (seq frozen zs)
freeze_json_value (suc fuel) (bytes _) = err unsupported
freeze_json_value (suc fuel) (time _) = err unsupported
freeze_json_value (suc fuel) (other _) = err unsupported

unfoldable mutual
  pub thaw_json_value : Value → Value
  thaw_json_value (map _ fs) = map plain (thaw_fields fs)
  thaw_json_value (seq _ xs) = seq plain (thaw_items xs)
  thaw_json_value v = v

  pub thaw_items : Items → Items
  thaw_items nil = nil
  thaw_items (cons x xs) = cons (thaw_json_value x) (thaw_items xs)

  pub thaw_fields : Fields → Fields
  thaw_fields end = end
  thaw_fields (field k v fs) = field k (thaw_json_value v) (thaw_fields fs)

module _ (isoformat : ℕ → String) where
  unfoldable pub canonical_timestamp : Datetime → Checked String
  canonical_timestamp (naive _) = err naive_time
  canonical_timestamp (aware t) = ok (isoformat t)

  unfoldable mutual
    unfolding canonical_timestamp

    pub normalize_json : Limits → ℕ → Value → Checked Value
    normalize_json l d (time t) = do within_depth l d; s ← canonical_timestamp t; ok (str s)
    normalize_json l d (map _ fs) = do
      within_depth l d
      require (not (ltb l.max_members (count_fields fs))) too_many_members
      gs ← normalize_fields l d fs
      ok (map plain gs)
    normalize_json l d (seq plain xs) = do
      within_depth l d
      require (not (ltb l.max_items (count_items xs))) too_many_items
      ys ← normalize_items l d xs
      ok (seq plain ys)
    normalize_json l d (seq frozen _) = do within_depth l d; err unsupported
    normalize_json l d (float b) = do
      within_depth l d
      require (is_finite b) non_finite
      ok (float b)
    normalize_json l d null = do within_depth l d; ok null
    normalize_json l d (bool b) = do within_depth l d; ok (bool b)
    normalize_json l d (int i) = do within_depth l d; ok (int i)
    normalize_json l d (str s) = do within_depth l d; ok (str s)
    normalize_json l d (bytes _) = do within_depth l d; err unsupported
    normalize_json l d (other _) = do within_depth l d; err unsupported

    pub normalize_items : Limits → ℕ → Items → Checked Items
    normalize_items l d nil = ok nil
    normalize_items l d (cons x xs) = do
      y ← normalize_json l (suc d) x
      ys ← normalize_items l d xs
      ok (cons y ys)

    pub normalize_fields : Limits → ℕ → Fields → Checked Fields
    normalize_fields l d end = ok end
    normalize_fields l d (field k v fs) = do
      require (is_text k) non_text_key
      w ← normalize_json l (suc d) v
      gs ← normalize_fields l d fs
      ok (field k w gs)
