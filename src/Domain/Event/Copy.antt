-- ===== src/Domain/Event/Copy.antt =====
-- Dumping a valid event and validating it again: `model_copy` of src/actionlineage/domain/events.py.
use action_lineage.Base.{ℕ, ◌≡◌, refl, sym, ap, ◌∙◌, ok, ok_injective, >>=-eq-ok, arith, subst}
use action_lineage.Domain.Value.{
  Value, null, bool, int, float, str, bytes, time, seq, map, other, frozen, default_limits,
  validate_json_value, freeze_json_value, thaw_json_value, Datetime, aware, naive,
}
use action_lineage.Domain.Value.Spec.{freeze_all, freeze_fields}
use action_lineage.Domain.Value.Freeze.{frozen-eq}
use action_lineage.Domain.Value.Thaw.{freeze-thaw}
use action_lineage.Domain.Event.{
  Event, check_texts, validate_causality, require_aware_utc, require_json_payload, refused,
  call_depth, validate_event,
}
use action_lineage.Domain.Event.Serialize.{utc_same, causality_same, refused-eq-ok}

payload_again :
    (v p : Value) → require_json_payload v ≡ ok p → require_json_payload (thaw_json_value p) ≡ ok p
unfolding require_json_payload thaw_json_value freeze_all
payload_again (map c fs) p h =
    let (_, valid, h₁) =
      >>=-eq-ok (refused (validate_json_value default_limits 0 (map c fs))) _ h in
    let whole = refused-eq-ok _ valid in
    let frozen_to = refused-eq-ok (freeze_json_value call_depth (map c fs)) h₁ in
    let is : p ≡ map frozen (freeze_fields fs) =
      frozen-eq default_limits call_depth (map c fs) p whole (omega arith) frozen_to in
    let (again, back) =
      freeze-thaw default_limits call_depth (map c fs) (map frozen (freeze_fields fs)) whole
        (omega arith) (frozen_to ∙ ap ok is) in
    subst (λ x. require_json_payload (thaw_json_value x) ≡ ok x) (sym is) (rw (again, back) refl)
payload_again null p h = cc
payload_again (bool _) p h = cc
payload_again (int _) p h = cc
payload_again (float _) p h = cc
payload_again (str _) p h = cc
payload_again (bytes _) p h = cc
payload_again (time _) p h = cc
payload_again (seq _ _) p h = cc
payload_again (other _) p h = cc

dumped_again :
    (e f : Event) (t u : Datetime) (p : Value)
    → check_texts e ≡ ok tt
    → require_aware_utc e.occurred_at ≡ ok t
    → require_aware_utc e.observed_at ≡ ok u
    → require_json_payload (thaw_json_value p) ≡ ok p
    → validate_causality (record e { occurred_at = t; observed_at = u; payload = p }) ≡ ok f
    → validate_event (record e { payload = thaw_json_value p }) ≡ ok f
unfolding validate_event check_texts
dumped_again e f t u p ht ho hu hp hc = rw (ht, ho, hu, hp) hc

-- A valid event that is dumped, which thaws its payload, and validated again is the same event.
pub validate_event-dumped :
    (e f : Event)
    → validate_event e ≡ ok f
    → validate_event (record f { payload = thaw_json_value f.payload }) ≡ ok f
unfolding validate_event
validate_event-dumped e f h =
    let (_, ht, h₁) = >>=-eq-ok (check_texts e) _ h in
    let (t, ho, h₂) = >>=-eq-ok (require_aware_utc e.occurred_at) _ h₁ in
    let (u, hu, h₃) = >>=-eq-ok (require_aware_utc e.observed_at) _ h₂ in
    let (p, hp, h₄) = >>=-eq-ok (require_json_payload e.payload) _ h₃ in
    let again = payload_again e.payload p hp in
    let same : f ≡ record e { payload = p } =
      cc (utc_same e.occurred_at t ho, utc_same e.observed_at u hu, causality_same _ f h₄) in
    subst (λ g. validate_event (record g { payload = thaw_json_value g.payload }) ≡ ok g) (sym same)
      (dumped_again e f t u p ht ho hu again h₄ ∙ ap ok same)

is_aware : (d t : Datetime) → require_aware_utc d ≡ ok t → (n : ℕ) × (t ≡ aware n)
unfolding require_aware_utc
is_aware (naive n) t h = cc
is_aware (aware n) t h = (n, sym (ok_injective h))

pub validate_event-aware :
    (e f : Event)
    → validate_event e ≡ ok f
    → (t u : ℕ) × (f.occurred_at ≡ aware t) × (f.observed_at ≡ aware u)
unfolding validate_event
validate_event-aware e f h =
    let (_, ht, h₁) = >>=-eq-ok (check_texts e) _ h in
    let (t, ho, h₂) = >>=-eq-ok (require_aware_utc e.occurred_at) _ h₁ in
    let (u, hu, h₃) = >>=-eq-ok (require_aware_utc e.observed_at) _ h₂ in
    let (p, hp, h₄) = >>=-eq-ok (require_json_payload e.payload) _ h₃ in
    let (a, ha) = is_aware e.occurred_at t ho in
    let (b, hb) = is_aware e.observed_at u hu in
    let same = causality_same _ f h₄ in
    (a, b, ap (λ x. x.occurred_at) same ∙ ha, ap (λ x. x.observed_at) same ∙ hb)
