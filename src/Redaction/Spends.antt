-- ===== src/Redaction/Spends.antt =====
-- What a redaction captures of a value, and what one capture does to the budget.
use action_lineage.Base.{
  ℕ, ◌+◌, ◌≤◌, ◌≡◌, refl, sym, ◌∙◌, subst, true, false, not, List, [], ◌∷◌, ◌++◌, length,
  length-append, if◌then◌else◌, Bool-cases, inl, inr, ltb, arith, Outcome, ok, require, ◌>>=◌,
  >>=-eq-ok, ok_injective, String, ℤ,
}
use action_lineage.Domain.Value.{
  Value, str, bytes, seq, map, Items, nil, cons, Fields, end, field, text, non_text,
}
use Prim.Native.String.{count}
use action_lineage.Journal.Bytes.{take}
use action_lineage.Domain.Value.Members.{get}
use action_lineage.Redaction.{
  FieldPath, Library, RedactionPolicy, RedactionError, CaptureBudget, is_sensitive,
  is_capture_exempt_path, unless_hidden, redact_string, redact_text, capture_string, capture_bytes,
  record_capture, record_bytes, too_many_captures, too_many_bytes, text_prefix, capture_metadata,
  recorded_capture,
}
use action_lineage.Redaction.Cases.{unless_hidden-cases, require-true, not-true, pair_eq}

pub total : List ℕ → ℕ
total [] = 0
total (n ∷ ns) = n + total ns

total-append : (ms ns : List ℕ) → total (ms ++ ns) ≡ total ms + total ns
unfolding total
total-append [] ns = omega arith
total-append (m ∷ ms) ns = omega (arith, total-append ms ns)

-- The budget after captures of the given sizes, which stay within its limits.
pub record Spends (b : CaptureBudget) (sizes : List ℕ) (b' : CaptureBudget) : Type 0 where
  pub same_max_count : b'.max_count ≡ b.max_count
  pub same_max_bytes : b'.max_bytes ≡ b.max_bytes
  pub counted : b'.count ≡ b.count + length sizes
  pub added : b'.captured_bytes ≡ b.captured_bytes + total sizes
  pub count_within : b.count ≤ b.max_count → b'.count ≤ b'.max_count
  pub bytes_within : b.captured_bytes ≤ b.max_bytes → b'.captured_bytes ≤ b'.max_bytes

pub nothing_spent : (b : CaptureBudget) → Spends b [] b
unfolding total
nothing_spent b = record {
  same_max_count = refl;
  same_max_bytes = refl;
  counted = omega arith;
  added = omega arith;
  count_within = λ h. h;
  bytes_within = λ h. h;
}

pub spent_in_turn :
    (b c d : CaptureBudget) (ms ns : List ℕ) → Spends b ms c → Spends c ns d → Spends b (ms ++ ns) d
spent_in_turn b c d ms ns x y = record {
  same_max_count = y.same_max_count ∙ x.same_max_count;
  same_max_bytes = y.same_max_bytes ∙ x.same_max_bytes;
  counted = omega (arith, x.counted, y.counted, length-append ms ns);
  added = omega (arith, x.added, y.added, total-append ms ns);
  count_within = λ h. y.count_within (x.count_within h);
  bytes_within = λ h. y.bytes_within (x.bytes_within h);
}

record_bytes-Spends :
    (b b' : CaptureBudget) (n : ℕ) → record_bytes b n ≡ ok b' → Spends b (n ∷ []) b'
unfolding record_bytes total
record_bytes-Spends b b' n h =
    let (_, c, h₁) =
      >>=-eq-ok (require (not (ltb b.max_count (b.count + 1))) too_many_captures) _ h in
    let (_, k, h₂) =
      >>=-eq-ok (require (not (ltb b.max_bytes (b.captured_bytes + n))) too_many_bytes) _ h₁ in
    let counts = not-true _ (require-true _ too_many_captures c) in
    let fits = not-true _ (require-true _ too_many_bytes k) in
    let after = ok_injective h₂ in
    subst (Spends b (n ∷ [])) after (record {
      same_max_count = refl;
      same_max_bytes = refl;
      counted = omega arith;
      added = omega arith;
      count_within = λ _. not_over _ _ counts;
      bytes_within = λ _. not_over _ _ fits;
    })
  where
    not_over : (m k : ℕ) → ltb m k ≡ false → k ≤ m
    not_over m k e = ground arith

module _ (lib : Library) (policy : RedactionPolicy) where
  -- The UTF-8 of the beginning of a text that is longer than the limit.
  abbrev pub text_sizes : String → ℤ → List ℕ
  text_sizes s (ℤ.negsuc _) = []
  text_sizes s (ℤ.pos limit) =
      if ltb limit (count s) then length (lib.encode (text_prefix limit s)) ∷ [] else []

  -- The Base64 of the beginning of bytes.
  abbrev pub byte_sizes : List ℕ → ℤ → List ℕ
  byte_sizes bs (ℤ.negsuc _) = []
  byte_sizes bs (ℤ.pos limit) = count (lib.b64encode (take limit bs)) ∷ []

  -- The sizes in bytes of what is captured of a value, in the order of the captures.
  unfoldable mutual
    pub captures : FieldPath → Value → List ℕ
    captures path (str s) =
        if is_sensitive lib path policy
        then []
        else if is_capture_exempt_path path policy
        then []
        else text_sizes (redact_text s policy.patterns) policy.max_string_length
    captures path (bytes bs) =
        if is_sensitive lib path policy then [] else byte_sizes bs policy.max_bytes_length
    captures path (seq _ xs) = if is_sensitive lib path policy then [] else item_captures path xs
    captures path (map _ fs) = if is_sensitive lib path policy then [] else field_captures path fs
    captures path _ = []

    pub item_captures : FieldPath → Items → List ℕ
    item_captures path nil = []
    item_captures path (cons x xs) = captures path x ++ item_captures path xs

    pub field_captures : FieldPath → Fields → List ℕ
    field_captures path end = []
    field_captures path (field (text k) v fs) =
        captures (path ++ lib.lower k ∷ []) v ++ field_captures path fs
    field_captures path (field non_text v fs) = []

  captures-sensitive :
      (path : FieldPath) (v : Value) → is_sensitive lib path policy ≡ true → captures path v ≡ []
  unfolding captures
  captures-sensitive path (str _) h = rw h
  captures-sensitive path (bytes _) h = rw h
  captures-sensitive path (seq _ _) h = rw h
  captures-sensitive path (map _ _) h = rw h
  captures-sensitive path _ h = refl

  -- What is recorded is counted as one capture of its size.
  counted_Spends :
      (b b' : CaptureBudget) (n : ℕ) (v w : Value)
      → ◌≡◌ {A = Outcome RedactionError (Value × CaptureBudget)}
          (record_bytes b n >>= λ c. ok (v, c))
          (ok (w, b'))
      → Spends b (n ∷ []) b'
  counted_Spends b b' n v w h =
      let (c, counted, h₁) = >>=-eq-ok (record_bytes b n) _ h in
      subst (Spends b (n ∷ [])) ((pair_eq h₁).1) (record_bytes-Spends b c n counted)

  pub text_Spends :
      (b b' : CaptureBudget) (s : String) (limit : ℤ) (w : Value)
      → (capture_string lib s limit >>= λ captured. recorded_capture lib b captured) ≡ ok (w, b')
      → Spends b (text_sizes s limit) b'
  unfolding capture_string record_capture capture_metadata get
  text_Spends b b' s (ℤ.negsuc _) w h = cc
  text_Spends b b' s (ℤ.pos limit) w h = elim (Bool-cases (ltb limit (count s))) [
    | inl long ↦
        rw long (counted_Spends b b' (length (lib.encode (text_prefix limit s))) _ w (rw long at h))
    | inr fits ↦ rw fits (subst (Spends b []) ((pair_eq (rw fits at h)).1) (nothing_spent b))
  ]

  pub bytes_Spends :
      (b b' : CaptureBudget) (bs : List ℕ) (limit : ℤ) (w : Value)
      → (capture_bytes lib bs limit >>= λ captured. recorded_capture lib b captured) ≡ ok (w, b')
      → Spends b (byte_sizes bs limit) b'
  unfolding capture_bytes record_capture capture_metadata get
  bytes_Spends b b' bs (ℤ.negsuc _) w h = cc
  bytes_Spends b b' bs (ℤ.pos limit) w h =
      counted_Spends b b' (count (lib.b64encode (take limit bs))) _ w h

  -- Where a value is hidden nothing is spent, and where it is shown, what its parts spend.
  pub shown_Spends :
      (path : FieldPath) (d : ℕ) (b b' : CaptureBudget) (v : Value)
      (shown : Outcome RedactionError (Value × CaptureBudget)) (w : Value)
      → (is_sensitive lib path policy ≡ false → shown ≡ ok (w, b') → Spends b (captures path v) b')
      → unless_hidden lib policy path d b shown ≡ ok (w, b')
      → Spends b (captures path v) b'
  shown_Spends path d b b' v shown w inner h =
      elim (unless_hidden-cases lib policy path d b b' shown w h) [
        | inl (s, _, same) ↦
            subst (λ x. Spends b x b') (sym (captures-sensitive path v s))
              (subst (Spends b []) same (nothing_spent b))
        | inr (s, _, k) ↦ inner s k
      ]

  pub exempt_or_captured :
      (path : FieldPath) (b b' : CaptureBudget) (s : String) (w : Value)
      → redact_string lib policy path b s ≡ ok (w, b')
      → Spends b
          (if is_capture_exempt_path path policy
            then []
            else text_sizes (redact_text s policy.patterns) policy.max_string_length)
          b'
  unfolding redact_string
  exempt_or_captured path b b' s w h = elim (Bool-cases (is_capture_exempt_path path policy)) [
    | inl e ↦ rw e (subst (Spends b []) ((pair_eq (sym (kept e) ∙ h)).1) (nothing_spent b))
    | inr e ↦ rw e (
        text_Spends b b' (redact_text s policy.patterns) policy.max_string_length w
          (sym (captured e) ∙ h))
  ]
    where
      kept :
          is_capture_exempt_path path policy ≡ true
          → redact_string lib policy path b s ≡ ok (str (redact_text s policy.patterns), b)
      kept e = rw e

      captured :
          is_capture_exempt_path path policy ≡ false
          → redact_string lib policy path b s ≡ (
              capture_string lib (redact_text s policy.patterns) policy.max_string_length >>= λ c.
              recorded_capture lib b c)
      captured e = rw e
