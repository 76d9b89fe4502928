-- ===== src/Domain/Value/Normalize.antt =====
-- What `normalize_json` makes of a payload that was validated.
use Prim.Native.Nat.{max}
use action_lineage.Base.{
  &&-true, ℕ, suc, ◌+◌, ◌≤◌, ◌≡◌, refl, ap, true, false, not, ltb, leb, arith, ok, err, inl, inr,
  if◌then◌else◌, String, require, ◌>>=◌, ◌>>◌, Bool-cases,
}
use action_lineage.Domain.Value.{
  Value, null, bool, int, float, str, bytes, time, seq, map, other, Items, nil, cons, Fields, end,
  field, text, non_text, plain, Limits, Refusal, Checked, too_deep, too_many_items,
  too_many_members, within_depth, count_items, count_fields, normalize_json, normalize_items,
  normalize_fields, thaw_json_value, thaw_items, thaw_fields,
}
use action_lineage.Domain.Value.Spec.{
  depth, depth_items, depth_fields, is_json, are_json, fields_json,
}

pub count-thaw_items : (xs : Items) → count_items (thaw_items xs) ≡ count_items xs
unfolding thaw_json_value
count-thaw_items nil = refl
count-thaw_items (cons _ xs) = ap suc (count-thaw_items xs)

pub count-thaw_fields : (fs : Fields) → count_fields (thaw_fields fs) ≡ count_fields fs
unfolding thaw_json_value
count-thaw_fields end = refl
count-thaw_fields (field _ _ fs) = ap suc (count-thaw_fields fs)

-- The result of a check on depth alone.
abbrev pub if_fits : {A : Type 0} → ℕ → ℕ → A → Checked A
if_fits n m a = if leb n m then ok a else err too_deep

within_depth-lem :
    (l : Limits) (d : ℕ) {A : Type 0} (a : A)
    → (within_depth l d >> ok a) ≡ if_fits (d + 0) l.max_depth a
within_depth-lem l d a = ground arith

-- A member and the rest, both with no fault but their depth.
member_then :
    {A B C : Type 0} (d a b m : ℕ) (x : A) (y : B) (f : A → B → C) (first : Checked A)
    (rest : Checked B)
    → first ≡ if_fits (suc d + a) m x
    → rest ≡ if_fits (d + b) m y
    → (first >>= λ u. rest >>= λ v. ok (f u v)) ≡ if_fits (d + max (suc a) b) m (f x y)
member_then d a b m x y f first rest p q =
    rw (p, q)
      (elim (Bool-cases (leb (suc d + a) m)) [
        | inl s ↦ elim (Bool-cases (leb (d + b) m)) [
          | inl t ↦ rw (s, t, both s t)
          | inr t ↦ rw (s, t, second t)
        ]
        | inr s ↦ rw (s, one s)
      ])
  where
    both : leb (suc d + a) m ≡ true → leb (d + b) m ≡ true → leb (d + max (suc a) b) m ≡ true
    both s t = ground arith

    second : leb (d + b) m ≡ false → leb (d + max (suc a) b) m ≡ false
    second t = ground arith

    one : leb (suc d + a) m ≡ false → leb (d + max (suc a) b) m ≡ false
    one s = ground arith

-- A container whose size is within its limit.
members_then :
    {A B : Type 0} (l : Limits) (d a n k : ℕ) (e : Refusal) (x : A) (f : A → B)
    (members : Checked A)
    → not (ltb a n) ≡ true
    → (d ≤ l.max_depth → members ≡ if_fits (d + k) l.max_depth x)
    → (within_depth l d >> (require (not (ltb a n)) e >> (members >>= λ y. ok (f y))))
      ≡ if_fits (d + k) l.max_depth (f x)
members_then l d a n k e x f members size h = elim (Bool-cases (ltb l.max_depth d)) [
  | inl deep ↦ rw (deep, too_far deep)
  | inr fits ↦
      rw (fits, size, h (near fits))
        (elim (Bool-cases (leb (d + k) l.max_depth)) [ inl s ↦ rw s | inr s ↦ rw s ])
]
  where
    too_far : ltb l.max_depth d ≡ true → leb (d + k) l.max_depth ≡ false
    too_far p = ground arith

    near : ltb l.max_depth d ≡ false → d ≤ l.max_depth
    near p = ground arith

module _ (iso : ℕ → String) (l : Limits) where
  mutual
    unfolding normalize_json thaw_json_value depth is_json

    pub normalize-thaw :
        (d : ℕ) (v : Value)
        → is_json l v ≡ true
        → normalize_json iso l d (thaw_json_value v)
          ≡ if_fits (d + depth v) l.max_depth (thaw_json_value v)
    normalize-thaw d null j = within_depth-lem l d null
    normalize-thaw d (bool b) j = within_depth-lem l d (bool b)
    normalize-thaw d (int i) j = within_depth-lem l d (int i)
    normalize-thaw d (float b) j = rw j (within_depth-lem l d (float b))
    normalize-thaw d (str s) j = within_depth-lem l d (str s)
    normalize-thaw d (bytes _) j = cc
    normalize-thaw d (time _) j = cc
    normalize-thaw d (other _) j = cc
    normalize-thaw d (seq _ xs) j =
        let (size, js) = &&-true (not (ltb l.max_items (count_items xs))) (are_json l xs) j in
        rw (count-thaw_items xs) (
          members_then l d l.max_items (count_items xs) (depth_items xs) too_many_items
            (thaw_items xs) (seq plain) (normalize_items iso l d (thaw_items xs)) size
            (normalize-thaw_items d xs js))
    normalize-thaw d (map _ fs) j =
        let (size, js) = &&-true (not (ltb l.max_members (count_fields fs))) (fields_json l fs) j in
        rw (count-thaw_fields fs) (
          members_then l d l.max_members (count_fields fs) (depth_fields fs) too_many_members
            (thaw_fields fs) (map plain) (normalize_fields iso l d (thaw_fields fs)) size
            (normalize-thaw_fields d fs js))

    normalize-thaw_items :
        (d : ℕ) (xs : Items)
        → are_json l xs ≡ true
        → d ≤ l.max_depth
        → normalize_items iso l d (thaw_items xs)
          ≡ if_fits (d + depth_items xs) l.max_depth (thaw_items xs)
    normalize-thaw_items d nil j h = ground arith
    normalize-thaw_items d (cons x xs) j h =
        let (jx, jxs) = &&-true (is_json l x) (are_json l xs) j in
        member_then d (depth x) (depth_items xs) l.max_depth (thaw_json_value x) (thaw_items xs)
          cons (normalize_json iso l (suc d) (thaw_json_value x))
          (normalize_items iso l d (thaw_items xs)) (normalize-thaw (suc d) x jx)
          (normalize-thaw_items d xs jxs h)

    normalize-thaw_fields :
        (d : ℕ) (fs : Fields)
        → fields_json l fs ≡ true
        → d ≤ l.max_depth
        → normalize_fields iso l d (thaw_fields fs)
          ≡ if_fits (d + depth_fields fs) l.max_depth (thaw_fields fs)
    normalize-thaw_fields d end j h = ground arith
    normalize-thaw_fields d (field non_text v fs) j h = cc
    normalize-thaw_fields d (field (text k) v fs) j h =
        let (jv, jfs) = &&-true (is_json l v) (fields_json l fs) j in
        member_then d (depth v) (depth_fields fs) l.max_depth (thaw_json_value v) (thaw_fields fs)
          (field (text k)) (normalize_json iso l (suc d) (thaw_json_value v))
          (normalize_fields iso l d (thaw_fields fs)) (normalize-thaw (suc d) v jv)
          (normalize-thaw_fields d fs jfs h)
