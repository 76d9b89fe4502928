-- ===== src/Tests/Decode.antt =====
-- The reading of an event from its JSON object, for the platform of the tests. It goes by the
-- position of a member, or by its name, and takes no object but those that `json_object` makes.
use action_lineage.Base.{
  ℕ, zero, suc, String, ◌≡◌, refl, ap, Option, none, some, ℤ, str_eq, if◌then◌else◌, List, [], ◌∷◌,
}
use action_lineage.Domain.Value.{Value, null, int, str, map, Fields, end, field, Datetime, aware}
use action_lineage.Domain.Value.Members.{get}
use action_lineage.Domain.Event.{Event, text_or_null, json_object}
use action_lineage.Domain.Event.Names.{
  PrincipalType, principal_type_text, Sensitivity, sensitivity_text, TrustLevel, trust_text,
}

-- A time is written in strokes.
unfoldable pub strokes : ℕ → String
strokes zero = ""
strokes (suc n) = String.◌∷◌ "a" (strokes n)

unfoldable pub count_strokes : String → ℕ
count_strokes String.[] = zero
count_strokes (String.◌∷◌ c s) = suc (count_strokes s)

pub count_strokes-strokes : (n : ℕ) → count_strokes (strokes n) ≡ n
unfolding strokes count_strokes
count_strokes-strokes zero = refl
count_strokes-strokes (suc n) = ap suc (count_strokes-strokes n)

abbrev pub fields_of : Value → Fields
fields_of (map _ fs) = fs
fields_of _ = end

abbrev pub member : ℕ → Fields → Value
member n end = null
member zero (field _ v fs) = v
member (suc n) (field _ v fs) = member n fs

abbrev pub text_of : Value → String
text_of (str s) = s
text_of _ = ""

abbrev pub number_of : Value → ℕ
number_of (int (ℤ.pos n)) = n
number_of _ = zero

abbrev pub text_if_given : Value → Option String
text_if_given (str s) = some s
text_if_given _ = none

abbrev pub look_up : {A : Type 0} → (A → String) → List A → A → String → A
look_up name [] default s = default
look_up name (a ∷ xs) default s = if str_eq s (name a) then a else look_up name xs default s

abbrev pub principal_type_of : String → PrincipalType
principal_type_of =
    look_up principal_type_text
      (PrincipalType.human ∷ PrincipalType.service ∷ PrincipalType.agent ∷ PrincipalType.model
        ∷ PrincipalType.workload ∷ PrincipalType.credential ∷ [])
      PrincipalType.unknown

abbrev pub sensitivity_of : String → Sensitivity
sensitivity_of =
    look_up sensitivity_text
      (Sensitivity.public ∷ Sensitivity.internal ∷ Sensitivity.confidential ∷ Sensitivity.restricted
        ∷ Sensitivity.secret ∷ [])
      Sensitivity.unknown

abbrev pub trust_of : String → TrustLevel
trust_of =
    look_up trust_text
      (TrustLevel.trusted ∷ TrustLevel.untrusted ∷ TrustLevel.local ∷ TrustLevel.external ∷ [])
      TrustLevel.unknown

pub principal_type_of-text : (t : PrincipalType) → principal_type_of (principal_type_text t) ≡ t
unfolding principal_type_text
principal_type_of-text PrincipalType.human = refl
principal_type_of-text PrincipalType.service = refl
principal_type_of-text PrincipalType.agent = refl
principal_type_of-text PrincipalType.model = refl
principal_type_of-text PrincipalType.workload = refl
principal_type_of-text PrincipalType.credential = refl
principal_type_of-text PrincipalType.unknown = refl

pub sensitivity_of-text : (t : Sensitivity) → sensitivity_of (sensitivity_text t) ≡ t
unfolding sensitivity_text
sensitivity_of-text Sensitivity.public = refl
sensitivity_of-text Sensitivity.internal = refl
sensitivity_of-text Sensitivity.confidential = refl
sensitivity_of-text Sensitivity.restricted = refl
sensitivity_of-text Sensitivity.secret = refl
sensitivity_of-text Sensitivity.unknown = refl

pub trust_of-text : (t : TrustLevel) → trust_of (trust_text t) ≡ t
unfolding trust_text
trust_of-text TrustLevel.trusted = refl
trust_of-text TrustLevel.untrusted = refl
trust_of-text TrustLevel.local = refl
trust_of-text TrustLevel.external = refl
trust_of-text TrustLevel.unknown = refl

pub text_if_given-text : (o : Option String) → text_if_given (text_or_null o) ≡ o
text_if_given-text none = refl
text_if_given-text (some s) = refl

abbrev pub time_of : Value → Datetime
time_of v = aware (count_strokes (text_of v))

abbrev pub event_of : Value → Event
event_of v =
    let fs = fields_of v in
    let source = fields_of (member 5 fs) in
    let correlation = fields_of (member 6 fs) in
    let causality = fields_of (get "causality" fs) in
    let principal = fields_of (member 8 fs) in
    let classification = fields_of (member 9 fs) in
    let integrity = fields_of (get "integrity" fs) in
    record {
      event_id = text_of (member 1 fs);
      event_type = text_of (member 2 fs);
      occurred_at = time_of (member 3 fs);
      observed_at = time_of (member 4 fs);
      source = record {
        component = text_of (member 0 source);
        instance_id = text_of (member 1 source);
        version = text_of (member 2 source);
      };
      correlation = record {
        trace_id = text_of (member 0 correlation);
        run_id = text_of (member 1 correlation);
        span_id = text_if_given (member 2 correlation);
        session_id = text_if_given (member 3 correlation);
      };
      causality = record {
        root_event_id = text_of (member 0 causality);
        sequence = number_of (get "sequence" causality);
        parent_event_id = text_if_given (member 2 causality);
      };
      principal = record {
        principal_id = text_of (member 0 principal);
        principal_type = principal_type_of (text_of (member 1 principal));
        on_behalf_of = text_if_given (member 2 principal);
        model_id = text_if_given (member 3 principal);
        credential_id = text_if_given (member 4 principal);
      };
      classification = record {
        sensitivity = sensitivity_of (text_of (member 0 classification));
        trust = trust_of (text_of (member 1 classification));
      };
      payload = member 10 fs;
      integrity = record {
        canonicalization = text_of (member 0 integrity);
        previous_event_hash = text_if_given (get "previous_event_hash" integrity);
        event_hash = text_if_given (member 2 integrity);
      };
    }

-- The event with another payload, read back from its JSON object.
pub event_of-json_object :
    (e : Event) (t u : ℕ) (payload : Value)
    → e.occurred_at ≡ aware t
    → e.observed_at ≡ aware u
    → event_of (json_object strokes e payload) ≡ record e { payload = payload }
unfolding get
event_of-json_object e t u payload h k = simp (
  h, k, count_strokes-strokes, text_if_given-text, principal_type_of-text, sensitivity_of-text,
  trust_of-text,
)
