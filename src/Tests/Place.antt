-- ===== src/Tests/Place.antt =====
-- The platform of the tests: a JSON object is one byte, and the newline another.
use action_lineage.Base.{
  All, ◌≢◌, String, ◌≡◌, ◌↔◌, refl, sym, ap, ◌∙◌, Bool, true, false, Option, none, some, List, [],
  ◌∷◌, Outcome, ok, err, leb, Bool-cases, inl, inr, ℤ, ℕ, if◌then◌else◌, subst,
}
use action_lineage.Domain.Value.{Value, int, map, too_deep, thaw_json_value}
use action_lineage.Domain.Value.Members.{get, member_in}
use action_lineage.Domain.Value.Sorted.{is_sorted, is_sorted-thaw}
use action_lineage.Tests.Sorting.{sort_payload, sort_member, sort_keys-sorted, sort_member-get}
use action_lineage.Domain.Value.Spec.{depth}
use action_lineage.Domain.Event.{
  Event, Fault, validate_event, event_to_dict, model_json, json_object, text_or_null,
}
use action_lineage.Domain.Event.Serialize.{event_to_dict-validated, validate_event-eq-ok}
use action_lineage.Domain.Event.Copy.{validate_event-dumped, validate_event-aware}
use action_lineage.Journal.{Platform, IsPlatform}
use action_lineage.Tests.Values.{value_eq, value_eq_sound, value_eq_refl}
use action_lineage.Tests.Decode.{
  strokes, event_of, event_of-json_object, fields_of, number_of, text_if_given, text_if_given-text,
}

abbrev pub Byte : Type 0
Byte = Option Value

unfoldable pub byte_eq : Byte → Byte → Bool
byte_eq none none = true
byte_eq (some v) (some w) = value_eq v w
byte_eq _ _ = false

byte_eq_sound : (a b : Byte) → byte_eq a b ≡ true → a ≡ b
unfolding byte_eq
byte_eq_sound none none h = refl
byte_eq_sound (some v) (some w) h = ap some (value_eq_sound v w h)
byte_eq_sound _ _ h = cc

byte_eq_refl : (a : Byte) → byte_eq a a ≡ true
unfolding byte_eq
byte_eq_refl none = refl
byte_eq_refl (some v) = value_eq_refl v

bytes_iff : (a b : Byte) → (byte_eq a b ≡ true) ↔ (a ≡ b)
bytes_iff a b = (byte_eq_sound a b, λ e. subst (λ x. byte_eq a x ≡ true) e (byte_eq_refl a))

abbrev pub valid_or_none : Outcome Fault Event → Option Event
valid_or_none (ok f) = some f
valid_or_none (err _) = none

abbrev pub in_order : Option Event → Option Event
in_order none = none
in_order (some f) = if is_sorted f.payload then some f else none

unfoldable pub load : List Byte → Option Event
load (some v ∷ []) = in_order (valid_or_none (validate_event (event_of v)))
load _ = none

abbrev pub dumps : Value → List Byte
dumps v = some (sort_payload v) ∷ []

-- A digest that tells the empty bytes from the others.
abbrev pub count_digest : List Byte → String
count_digest [] = ""
count_digest (_ ∷ _) = "1"

in_order-some :
    (o : Option Event) (f : Event)
    → in_order o ≡ some f
    → (o ≡ some f) × (is_sorted f.payload ≡ true)
in_order-some none f h = cc
in_order-some (some g) f h = elim (Bool-cases (is_sorted g.payload)) [
  | inl s ↦
      let same : g ≡ f = some_eq (rw s at h) in
      (ap some same, ap (λ x. is_sorted x.payload) (sym same) ∙ s)
  | inr s ↦ cc (rw s at h)
]
  where
    some_eq : ◌≡◌ {A = Option Event} (some g) (some f) → g ≡ f
    some_eq e = cc

-- What is loaded is the event of a byte, validated.
load-event :
    (b : List Byte) (f : Event)
    → load b ≡ some f
    → (v : Value) × (b ≡ some v ∷ [])
      × (validate_event (event_of v) ≡ ok f)
      × (is_sorted f.payload ≡ true)
unfolding load
load-event (some v ∷ []) f h =
    let (valid, s) = in_order-some _ f h in
    (v, refl, inverted (validate_event (event_of v)) valid, s)
  where
    inverted : (m : Outcome Fault Event) → valid_or_none m ≡ some f → m ≡ ok f
    inverted (ok g) k = cc
    inverted (err x) k = cc
load-event [] f h = cc
load-event (none ∷ b) f h = cc
load-event (some v ∷ x ∷ b) f h = cc

shown :
    (f : Event) (v : Value) (b : Bool)
    → (if b then ok (model_json strokes f) else err too_deep) ≡ ok v
    → v ≡ model_json strokes f
shown f v true h = cc
shown f v false h = cc

-- An object of an event whose payload is sorted stays as it is.
sort_payload-sorted :
    (f : Event)
    → is_sorted f.payload ≡ true
    → sort_payload (model_json strokes f) ≡ model_json strokes f
unfolding sort_payload sort_member
sort_payload-sorted f h =
    let payload = thaw_json_value f.payload in
    ap (json_object strokes f) (sort_keys-sorted payload (is_sorted-thaw f.payload ∙ h))

load_dumps :
    (e f : Event) (v : Value)
    → validate_event e ≡ ok f
    → is_sorted f.payload ≡ true
    → event_to_dict strokes f ≡ ok v
    → load (dumps v) ≡ some f
unfolding load
load_dumps e f v valid sorted dict =
    let is : v ≡ model_json strokes f =
      shown f v (leb (depth f.payload) 63)
        (sym (event_to_dict-validated strokes e f valid) ∙ dict) in
    let (t, u, ht, hu) = validate_event-aware e f valid in
    let back : event_of (sort_payload v) ≡ record f { payload = thaw_json_value f.payload } =
      ap (λ x. event_of (sort_payload x)) is
      ∙ ap event_of (sort_payload-sorted f sorted)
      ∙ event_of-json_object f t u (thaw_json_value f.payload) ht hu in
    ap (λ x. in_order (valid_or_none (validate_event x))) back
    ∙ ap (λ m. in_order (valid_or_none m)) (validate_event-dumped e f valid)
    ∙ rw sorted refl

load_sorted : (v : Value) (f : Event) → load (dumps v) ≡ some f → is_sorted f.payload ≡ true
load_sorted v f h = let (_, _, _, s) = load-event (dumps v) f h in s

-- What is loaded of a value that was written is its event, but for the payload.
load-written :
    (v : Value) (f : Event)
    → load (dumps v) ≡ some f
    → f ≡ record (event_of (sort_payload v)) { payload = f.payload }
load-written v f h =
    let (w, one, valid, _) = load-event (dumps v) f h in
    let (q, _, same) = validate_event-eq-ok (event_of w) f valid in
    let here : w ≡ sort_payload v = byte_of one in
    let fields : f ≡ record (event_of w) { payload = f.payload } =
      same ∙ ap (λ x. record (event_of w) { payload = x }) (sym (ap (λ x. x.payload) same)) in
    fields ∙ ap (λ x. record (event_of x) { payload = f.payload }) here
  where
    byte_of : {w x : Value} → ◌≡◌ {A = List Byte} (some x ∷ []) (some w ∷ []) → w ≡ x
    byte_of e = cc

load_sequence :
    (v : Value) (f : Event) (n : ℕ)
    → load (dumps v) ≡ some f
    → member_in "sequence" (member_in "causality" v) ≡ int (ℤ.pos n)
    → f.causality.sequence ≡ n
unfolding sort_payload sort_member
load_sequence (map c fs) f n h k =
    ap (λ x. x.causality.sequence) (load-written (map c fs) f h)
    ∙ ap (λ x. number_of (get "sequence" (fields_of x)))
        (sort_member-get "payload" "causality" fs refl)
    ∙ number (get "causality" fs) k
  where
    number :
        (x : Value)
        → member_in "sequence" x ≡ int (ℤ.pos n)
        → number_of (get "sequence" (fields_of x)) ≡ n
    number (map _ gs) e = ap number_of e
    number _ e = cc
load_sequence _ f n h k = cc

load_previous :
    (v : Value) (f : Event) (hash : Option String)
    → load (dumps v) ≡ some f
    → member_in "previous_event_hash" (member_in "integrity" v) ≡ text_or_null hash
    → f.integrity.previous_event_hash ≡ hash
unfolding sort_payload get
load_previous v f hash h k =
    ap (λ x. x.integrity.previous_event_hash) (load-written v f h)
    ∙ integrity v
    ∙ ap text_if_given k
    ∙ text_if_given-text hash
  where
    previous :
        (x : Value)
        → text_if_given (get "previous_event_hash" (fields_of x))
          ≡ text_if_given (member_in "previous_event_hash" x)
    previous (map _ gs) = refl
    previous _ = refl

    integrity :
        (x : Value)
        → text_if_given
            (get "previous_event_hash" (fields_of (get "integrity" (fields_of (sort_payload x)))))
          ≡ text_if_given (member_in "previous_event_hash" (member_in "integrity" x))
    integrity (map _ gs) =
        ap (λ y. text_if_given (get "previous_event_hash" (fields_of y)))
          (sort_member-get "payload" "integrity" gs refl)
        ∙ previous (get "integrity" gs)
    integrity _ = refl

abbrev pub place : Platform
place = record {
  Byte = Byte;
  newline = none;
  byte_eq = byte_eq;
  dumps = λ v. some (dumps v);
  load = load;
  hexdigest = count_digest;
  isoformat = strokes;
}

pub place-IsPlatform : IsPlatform place
place-IsPlatform = record {
  byte_eq_iff = bytes_iff;
  no_newline = λ v line h. subst (All (λ b. b ≢ none)) (bytes_of h) ((λ e. cc), tt);
  dumps-ne-nil = λ v e. cc (bytes_of e);
  load-dumps = λ e f v line valid sorted dict h.
      subst (λ b. load b ≡ some f) (bytes_of h) (load_dumps e f v valid sorted dict);
  load-sorted = λ v line f h k. load_sorted v f (ap load (bytes_of h) ∙ k);
  load-sequence = λ v line f n h k. load_sequence v f n (ap load (bytes_of h) ∙ k);
  load-previous = λ v line f hash h k. load_previous v f hash (ap load (bytes_of h) ∙ k);
  load-valid = λ b f h. let (v, _, valid, _) = load-event b f h in (event_of v, valid);
}
  where
    bytes_of : {x y : List Byte} → ◌≡◌ {A = Option (List Byte)} (some x) (some y) → x ≡ y
    bytes_of e = cc
