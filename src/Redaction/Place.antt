-- ===== src/Redaction/Place.antt =====
-- A redaction policy leaves an event at its place in the chain.
use action_lineage.Base.{
  ℕ, suc, String, ◌≡◌, inl, inr, refl, sym, ap, ◌∙◌, subst, Bool, Bool-cases, true, false, not,
  Option, none, some, [], ◌∷◌, ◌++◌, if◌then◌else◌, str_eq, eq_iff, Outcome, ok, err, ◌>>=◌,
  >>=-eq-ok, leb, ℤ,
}
use action_lineage.Domain.Value.{
  Value, int, str, map, Container, Fields, end, field, text, non_text, count_fields, too_deep,
}
use action_lineage.Domain.Value.Members.{get, member_in}
use action_lineage.Domain.Value.Spec.{depth}
use action_lineage.Domain.Event.{Event, validate_event, model_json, text_or_null}
use action_lineage.Domain.Event.Serialize.{event_to_dict-validated}
use action_lineage.Journal.{Platform, IsPlatform}
use action_lineage.Journal.Hashing.{
  Bytes, sha256_digest, serialize_event_for_persistence, redacted_bytes, redact_dict,
}
use action_lineage.Journal.Integrity.{encoded-eq-ok}
use action_lineage.Journal.Prepare.{IsDigest, SamePlace}
use action_lineage.Redaction.{
  FieldPath, Library, RedactionPolicy, RedactionError, CaptureBudget, is_sensitive,
  is_capture_exempt_path, exceeds, redact_text, redact_string, redact_value, redact_fields, apply,
  shown_only, capture_budget, too_many_members, unless_hidden,
}
use action_lineage.Redaction.Cases.{unless_hidden-cases, require-rest, pair_eq}

abbrev has_key : String → Fields → Bool
has_key key end = false
has_key key (field non_text v fs) = has_key key fs
has_key key (field (text k) v fs) = if str_eq k key then true else has_key key fs

-- A policy that hides neither the number of an event nor the hash before it, and whose patterns
-- find nothing in a digest.
pub record LeavesPlace (p : Platform) (lib : Library) (policy : RedactionPolicy) : Type 0 where
  pub top : is_sensitive lib [] policy ≡ false
  pub causality : is_sensitive lib (lib.lower "causality" ∷ []) policy ≡ false
  pub sequence : is_sensitive lib (lib.lower "causality" ∷ lib.lower "sequence" ∷ []) policy ≡ false
  pub integrity : is_sensitive lib (lib.lower "integrity" ∷ []) policy ≡ false
  pub previous :
      is_sensitive lib (lib.lower "integrity" ∷ lib.lower "previous_event_hash" ∷ []) policy ≡ false
  pub exempt :
      is_capture_exempt_path (lib.lower "integrity" ∷ lib.lower "previous_event_hash" ∷ []) policy
      ≡ true
  pub digests : (b : Bytes p) → redact_text (sha256_digest p b) policy.patterns ≡ sha256_digest p b

module _ (lib : Library) (policy : RedactionPolicy) where
  -- A value that is shown as another one.
  abbrev Shows : FieldPath → ℕ → Value → Value → Type 0
  Shows path d v w =
      (b : CaptureBudget) × (b' : CaptureBudget) × (redact_value lib policy path d b v ≡ ok (w, b'))

  redact_fields-Shows :
      (path : FieldPath) (d : ℕ) (b b' : CaptureBudget) (key : String) (fs gs : Fields)
      → redact_fields lib policy path d b fs ≡ ok (gs, b')
      → has_key key fs ≡ true
      → Shows (path ++ lib.lower key ∷ []) (suc d) (get key fs) (get key gs)
  unfolding redact_value get
  redact_fields-Shows path d b b' key end gs h there = cc
  redact_fields-Shows path d b b' key (field non_text v fs) gs h there = cc
  redact_fields-Shows path d b b' key (field (text k) v fs) gs h there =
      let (first, h₁, k₁) =
        >>=-eq-ok (redact_value lib policy (path ++ lib.lower k ∷ []) (suc d) b v) _ h in
      let (rest, h₂, k₂) = >>=-eq-ok (redact_fields lib policy path d first.1 fs) _ k₁ in
      let whole = (pair_eq k₂).0 in
      subst
        (λ x.
          Shows (path ++ lib.lower key ∷ []) (suc d) (get key (field (text k) v fs)) (get key x))
        whole
        (elim (Bool-cases (str_eq k key)) [
          | inl same ↦ rw same (
            b,
            first.1,
            subst
                (λ x.
                  redact_value lib policy (path ++ lib.lower x ∷ []) (suc d) b v
                  ≡ ok (first.0, first.1))
                ((eq_iff k key).0 same) h₁,
          )
          | inr other ↦
              rw other
                (redact_fields-Shows path d first.1 rest.1 key fs rest.0 h₂ (rw other at there))
        ])

  shown :
      (path : FieldPath) (d : ℕ) (b b' : CaptureBudget)
      (m : Outcome RedactionError (Value × CaptureBudget)) (w : Value)
      → is_sensitive lib path policy ≡ false
      → unless_hidden lib policy path d b m ≡ ok (w, b')
      → m ≡ ok (w, b')
  shown path d b b' m w open_ h = elim (unless_hidden-cases lib policy path d b b' m w h) [
    | inl (s, _, _) ↦ cc
    | inr (_, _, k) ↦ k
  ]

  map-Shows :
      (path : FieldPath) (d : ℕ) (c : Container) (fs : Fields) (w : Value) (key : String)
      → is_sensitive lib path policy ≡ false
      → Shows path d (map c fs) w
      → has_key key fs ≡ true
      → Shows (path ++ lib.lower key ∷ []) (suc d) (get key fs) (member_in key w)
  unfolding redact_value
  map-Shows path d c fs w key open_ (b, b', h) there =
      let k = shown path d b b' _ w open_ h in
      let (_, k₁) =
        require-rest (not (exceeds (count_fields fs) policy.max_object_members)) too_many_members _
          k in
      let (r, k₂, k₃) = >>=-eq-ok (redact_fields lib policy path d b fs) _ k₁ in
      subst (λ x. Shows (path ++ lib.lower key ∷ []) (suc d) (get key fs) (member_in key x))
        ((pair_eq k₃).0) (redact_fields-Shows path d b r.1 key fs r.0 k₂ there)

  int-Shows :
      (path : FieldPath) (d : ℕ) (i : ℤ) (w : Value)
      → is_sensitive lib path policy ≡ false
      → Shows path d (int i) w
      → w ≡ int i
  unfolding redact_value
  int-Shows path d i w open_ (b, b', h) = sym ((pair_eq (shown path d b b' _ w open_ h)).0)

  exempt-Shows :
      (path : FieldPath) (d : ℕ) (o : Option String) (w : Value)
      → is_sensitive lib path policy ≡ false
      → is_capture_exempt_path path policy ≡ true
      → ((s : String) → o ≡ some s → redact_text s policy.patterns ≡ s)
      → Shows path d (text_or_null o) w
      → w ≡ text_or_null o
  unfolding redact_value redact_string
  exempt-Shows path d none w open_ exempt same (b, b', h) =
      sym ((pair_eq (shown path d b b' _ w open_ h)).0)
  exempt-Shows path d (some s) w open_ exempt same (b, b', h) =
      let k = shown path d b b' (redact_string lib policy path b s) w open_ h in
      sym ((pair_eq (rw exempt at k)).0) ∙ ap str (same s refl)

  apply-Shows : (v w : Value) → apply lib policy v ≡ some w → Shows [] 0 v w
  unfolding apply
  apply-Shows v w h = started (capture_budget policy) h
    where
      started :
          (m : Outcome RedactionError CaptureBudget)
          → shown_only lib policy (m >>= λ b. redact_value lib policy [] 0 b v) ≡ some w
          → Shows [] 0 v w
      started (err x) k = cc
      started (ok b) k = returned (redact_value lib policy [] 0 b v) refl k
        where
          returned :
              (m : Outcome RedactionError (Value × CaptureBudget))
              → redact_value lib policy [] 0 b v ≡ m
              → shown_only lib policy m ≡ some w
              → Shows [] 0 v w
          returned (err x) e g = cc
          returned (ok (u, b')) e g = (b, b', e ∙ ap (λ x. ok (x, b')) (some_eq g))
            where
              some_eq : ◌≡◌ {A = Option Value} (some u) (some w) → u ≡ w
              some_eq g = cc

module _ (p : Platform) (lib : Library) (policy : RedactionPolicy)
    (leaves : LeavesPlace p lib policy) where
  digest-left :
      (o : Option String) (s : String)
      → IsDigest p o
      → o ≡ some s
      → redact_text s policy.patterns ≡ s
  digest-left o s (inl e) h = cc
  digest-left o s (inr (b, e)) h =
      subst (λ x. redact_text x policy.patterns ≡ x) (some_eq (sym e ∙ h)) (leaves.digests b)
    where
      some_eq : {x y : String} → ◌≡◌ {A = Option String} (some x) (some y) → x ≡ y
      some_eq g = cc

  -- The place of an event in its redacted object is that of the event.
  redacted-place :
      (e : Event) (w : Value)
      → IsDigest p e.integrity.previous_event_hash
      → apply lib policy (model_json p.isoformat e) ≡ some w
      → (member_in "sequence" (member_in "causality" w) ≡ int (ℤ.pos e.causality.sequence))
        × (member_in "previous_event_hash" (member_in "integrity" w)
            ≡ text_or_null e.integrity.previous_event_hash)
  unfolding get
  redacted-place e w digest h =
      let whole = apply-Shows lib policy (model_json p.isoformat e) w h in
      let causality = map-Shows lib policy [] 0 _ _ w "causality" leaves.top whole refl in
      let sequence =
        map-Shows lib policy _ 1 _ _ (member_in "causality" w) "sequence" leaves.causality causality
          refl in
      let integrity = map-Shows lib policy [] 0 _ _ w "integrity" leaves.top whole refl in
      let previous =
        map-Shows lib policy _ 1 _ _ (member_in "integrity" w) "previous_event_hash"
          leaves.integrity integrity refl in
      (
        int-Shows lib policy _ 2 _ _ leaves.sequence sequence,
        exempt-Shows lib policy _ 2 e.integrity.previous_event_hash _ leaves.previous leaves.exempt
            (λ s. digest-left _ s digest) previous,
      )

  -- What is persisted is the redacted object of the event.
  persisted-object :
      (d e : Event) (b : Bytes p)
      → validate_event d ≡ ok e
      → serialize_event_for_persistence p (apply lib policy) e ≡ ok b
      → (w : Value) × (p.dumps w ≡ some b) × (apply lib policy (model_json p.isoformat e) ≡ some w)
  unfolding serialize_event_for_persistence
  persisted-object d e b valid h = by_depth (leb (depth e.payload) 63) (
      ap (λ m. redacted_bytes p (redact_dict p (apply lib policy) m))
        (sym (event_to_dict-validated p.isoformat d e valid))
      ∙ h)
    where
      written :
          (o : Option Value)
          → redacted_bytes p o ≡ ok b
          → (w : Value) × (p.dumps w ≡ some b) × (o ≡ some w)
      written (some (map c fs)) g = (map c fs, encoded-eq-ok (p.dumps (map c fs)) g, refl)
      written _ g = cc

      by_depth :
          (t : Bool)
          → redacted_bytes p (
              redact_dict p
                (apply lib policy)
                (if t then ok (model_json p.isoformat e) else err too_deep))
            ≡ ok b
          → (w : Value) × (p.dumps w ≡ some b)
            × (apply lib policy (model_json p.isoformat e) ≡ some w)
      by_depth true g = written (apply lib policy (model_json p.isoformat e)) g
      by_depth false g = cc

  -- A policy that hides neither the number of an event nor the hash before it, and whose patterns
  -- find nothing in a digest, leaves a valid event at its place: what is read of its persisted bytes
  -- has its number and, where the hash before it is none or a digest, that hash.
  pub apply-SamePlace :
      (laws : IsPlatform p) (d e f : Event) (b : Bytes p)
      → validate_event d ≡ ok e
      → IsDigest p e.integrity.previous_event_hash
      → serialize_event_for_persistence p (apply lib policy) e ≡ ok b
      → p.load b ≡ some f
      → SamePlace e f
  apply-SamePlace laws d e f b valid digest h k =
      let (w, same, redacted) = persisted-object d e b valid h in
      let (number, link) = redacted-place e w digest redacted in
      record {
        sequence = laws.load-sequence w b f e.causality.sequence same k number;
        previous = laws.load-previous w b f e.integrity.previous_event_hash same k link;
      }
