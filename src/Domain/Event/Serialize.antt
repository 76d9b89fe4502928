-- ===== src/Domain/Event/Serialize.antt =====
-- What validation leaves of an event, and when a valid event has a JSON object.
use Prim.Native.Nat.{max}
use action_lineage.Base.{
  ℕ, suc, ◌≡◌, refl, sym, subst, ◌∙◌, ◌+◌, ◌≤◌, String, true, Option, none, some, ok, err,
  >>=-eq-ok, leb, arith, if◌then◌else◌, ok_injective,
}
use action_lineage.Domain.Value.{
  Value, null, bool, int, float, str, bytes, time, seq, map, other, Datetime, naive, aware, Checked,
  too_deep, default_limits, validate_json_value, freeze_json_value, thaw_json_value, normalize_json,
}
use action_lineage.Domain.Value.Spec.{depth, is_json}
use action_lineage.Domain.Value.Validate.{validate_iff}
use action_lineage.Domain.Value.Freeze.{freeze-validated}
use action_lineage.Domain.Value.Normalize.{normalize-thaw, if_fits}
use action_lineage.Domain.Event.{
  Event, validate_event, check_texts, require_aware_utc, require_json_payload, validate_causality,
  refused, call_depth, text_or_null, time_text, json_object, model_json, event_to_dict,
}

pub utc_same : (t u : Datetime) → require_aware_utc t ≡ ok u → u ≡ t
unfolding require_aware_utc
utc_same (naive _) u h = cc
utc_same (aware t) u h = cc

pub causality_same : (e f : Event) → validate_causality e ≡ ok f → f ≡ e
unfolding validate_causality
causality_same e f h = ground arith

-- A validated event differs from what was validated in the containers of its payload alone.
pub validate_event-eq-ok :
    (e f : Event)
    → validate_event e ≡ ok f
    → (p : Value) × (require_json_payload e.payload ≡ ok p) × (f ≡ record e { payload = p })
unfolding validate_event
validate_event-eq-ok e f h =
    let (_, _, h₁) = >>=-eq-ok (check_texts e) _ h in
    let (t, ht, h₂) = >>=-eq-ok (require_aware_utc e.occurred_at) _ h₁ in
    let (u, hu, h₃) = >>=-eq-ok (require_aware_utc e.observed_at) _ h₂ in
    let (p, hp, h₄) = >>=-eq-ok (require_json_payload e.payload) _ h₃ in
    (p, hp, cc (utc_same e.occurred_at t ht, utc_same e.observed_at u hu, causality_same _ f h₄))

pub refused-eq-ok : {A : Type 0} (m : Checked A) {a : A} → refused m ≡ ok a → m ≡ ok a
refused-eq-ok (ok a) h = cc
refused-eq-ok (err e) h = cc

-- What the payload's validator returns can be checked, frozen and dumped.
pub record IsPayload (v p : Value) : Type 0 where
  pub json : is_json default_limits p ≡ true
  pub shallow : depth p ≤ 64
  pub same : thaw_json_value p ≡ thaw_json_value v

pub require_json_payload-IsPayload : (v p : Value) → require_json_payload v ≡ ok p → IsPayload v p
unfolding require_json_payload
require_json_payload-IsPayload (map c fs) p h =
    let (_, valid, h₁) =
      >>=-eq-ok (refused (validate_json_value default_limits 0 (map c fs))) _ h in
    let frozen = refused-eq-ok (freeze_json_value call_depth (map c fs)) h₁ in
    let (w, hw, _, again, same) =
      freeze-validated default_limits call_depth (map c fs) (refused-eq-ok _ valid) (omega arith) in
    let e : w ≡ p = ok_injective (sym hw ∙ frozen) in
    let (json, fits) = (validate_iff default_limits 0 w).0 again in
    record { json = rw (← e) json; shallow = rw (← e) (omega arith); same = rw (← e) same }
require_json_payload-IsPayload null p h = cc
require_json_payload-IsPayload (bool _) p h = cc
require_json_payload-IsPayload (int _) p h = cc
require_json_payload-IsPayload (float _) p h = cc
require_json_payload-IsPayload (str _) p h = cc
require_json_payload-IsPayload (bytes _) p h = cc
require_json_payload-IsPayload (time _) p h = cc
require_json_payload-IsPayload (seq _ _) p h = cc
require_json_payload-IsPayload (other _) p h = cc

thaw-text_or_null : (o : Option String) → thaw_json_value (text_or_null o) ≡ text_or_null o
unfolding thaw_json_value
thaw-text_or_null none = refl
thaw-text_or_null (some _) = refl

json-text_or_null : (o : Option String) → is_json default_limits (text_or_null o) ≡ true
unfolding is_json
json-text_or_null none = refl
json-text_or_null (some _) = refl

depth-text_or_null : (o : Option String) → depth (text_or_null o) ≡ 0
unfolding depth
depth-text_or_null none = refl
depth-text_or_null (some _) = refl

fits_inside :
    {A : Type 0} (n k : ℕ) (a : A)
    → k ≡ max 2 (suc n)
    → if_fits (0 + k) 64 a ≡ (if leb n 63 then ok a else err too_deep)
fits_inside n k a h = rw (same_test n k h)
  where
    same_test : (n k : ℕ) → k ≡ max 2 (suc n) → leb (0 + k) 64 ≡ leb n 63
    same_test n k h = ground arith

module _ (iso : ℕ → String) where
  thaw-time_text : (t : Datetime) → thaw_json_value (time_text iso t) ≡ time_text iso t
  unfolding thaw_json_value
  thaw-time_text (naive _) = refl
  thaw-time_text (aware _) = refl

  json-time_text : (t : Datetime) → is_json default_limits (time_text iso t) ≡ true
  unfolding is_json
  json-time_text (naive _) = refl
  json-time_text (aware _) = refl

  depth-time_text : (t : Datetime) → depth (time_text iso t) ≡ 0
  unfolding depth
  depth-time_text (naive _) = refl
  depth-time_text (aware _) = refl

  thaw-json_object : (e : Event) → thaw_json_value (json_object iso e e.payload) ≡ model_json iso e
  unfolding thaw_json_value
  thaw-json_object e = simp (thaw-text_or_null, thaw-time_text)

  json-json_object :
      (e : Event)
      → is_json default_limits e.payload ≡ true
      → is_json default_limits (json_object iso e e.payload) ≡ true
  unfolding is_json
  json-json_object e h = simp (json-text_or_null, json-time_text, h)

  depth-json_object :
      (e : Event) → depth (json_object iso e e.payload) ≡ max 2 (suc (depth e.payload))
  unfolding depth
  depth-json_object e = simp (depth-text_or_null, depth-time_text) (omega arith)

  -- A valid event has a JSON object exactly if its payload is nested at most 63 deep: within the
  -- envelope the payload stands one deeper than where its validator counts from.
  pub event_to_dict-validated :
      (e f : Event)
      → validate_event e ≡ ok f
      → event_to_dict iso f
        ≡ (if leb (depth f.payload) 63 then ok (model_json iso f) else err too_deep)
  unfolding event_to_dict
  event_to_dict-validated e f h =
      let (p, hp, same) = validate_event-eq-ok e f h in
      let good : IsPayload e.payload f.payload =
        require_json_payload-IsPayload e.payload f.payload (rw same hp) in
      subst
        (λ m.
          normalize_json iso default_limits 0 m
          ≡ (if leb (depth f.payload) 63 then ok m else err too_deep))
        (thaw-json_object f)
        (normalize-thaw iso default_limits 0 (json_object iso f f.payload)
            (json-json_object f good.json)
          ∙ fits_inside (depth f.payload) (depth (json_object iso f f.payload))
              (thaw_json_value (json_object iso f f.payload)) (depth-json_object f))
