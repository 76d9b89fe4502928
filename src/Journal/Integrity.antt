-- ===== src/Journal/Integrity.antt =====
-- What `event_with_integrity` and the event hash leave of an event.

use action_lineage.Base.{
  ℕ, String, ◌≡◌, refl, sym, ap, ap₂, ◌∙◌, Option, none, some, Outcome, ok, err, >>=-eq-ok, subst,
}
use action_lineage.Domain.Value.{
  Value, Items, nil, cons, Fields, end, field, seq, map, plain, thaw_json_value, thaw_items,
  thaw_fields,
}
use action_lineage.Domain.Event.{Event, Fault, event_with_integrity, json_object, model_json}
use action_lineage.Domain.Event.Serialize.{validate_event-eq-ok, require_json_payload-IsPayload}
use action_lineage.Journal.{Platform}
use action_lineage.Journal.Hashing.{
  Bytes, encoded, of_fault, serialize_event, sha256_digest, compute_event_hash,
  require_supported_persisted_event_canonicalization,
}

mutual
  unfolding thaw_json_value

  thaw_idem : (v : Value) → thaw_json_value (thaw_json_value v) ≡ thaw_json_value v
  thaw_idem (seq _ xs) = ap (seq plain) (thaw_items_idem xs)
  thaw_idem (map _ fs) = ap (map plain) (thaw_fields_idem fs)
  thaw_idem _ = refl

  thaw_items_idem : (xs : Items) → thaw_items (thaw_items xs) ≡ thaw_items xs
  thaw_items_idem nil = refl
  thaw_items_idem (cons x xs) = ap₂ cons (thaw_idem x) (thaw_items_idem xs)

  thaw_fields_idem : (fs : Fields) → thaw_fields (thaw_fields fs) ≡ thaw_fields fs
  thaw_fields_idem end = refl
  thaw_fields_idem (field k v fs) = ap₂ (field k) (thaw_idem v) (thaw_fields_idem fs)

-- An event with other hashes, before it is validated.
abbrev pub rehashed : Event → Option String → Option String → Event
rehashed e previous hash = record e {
  integrity = record {
    canonicalization = e.integrity.canonicalization;
    previous_event_hash = previous;
    event_hash = hash;
  };
}

-- The copy is the event with other hashes and a payload that dumps alike.
pub record IsCopy (e : Event) (previous hash : Option String) (f : Event) : Type 0 where
  pub fields : f ≡ record (rehashed e previous hash) { payload = f.payload }
  pub payload : thaw_json_value f.payload ≡ thaw_json_value e.payload

pub event_with_integrity-IsCopy :
    (e f : Event) (previous hash : Option String)
    → event_with_integrity e previous hash ≡ ok f
    → IsCopy e previous hash f
unfolding event_with_integrity
event_with_integrity-IsCopy e f previous hash h =
    let before : Event = record (rehashed e previous hash) {
      payload = thaw_json_value e.payload;
    } in
    let (v, hv, same) = validate_event-eq-ok before f h in
    let good = require_json_payload-IsPayload (thaw_json_value e.payload) v hv in
    record {
      fields = rw same;
      payload = rw (ap (λ x. thaw_json_value x.payload) same) (good.same ∙ thaw_idem e.payload);
    }

-- What an event dumps to is what its copy dumps to, with the event's own hashes put back.
pub model_json-copy :
    (iso : ℕ → String) (e f : Event) (previous hash : Option String)
    → IsCopy e previous hash f
    → model_json iso e
      ≡ model_json iso (rehashed f e.integrity.previous_event_hash e.integrity.event_hash)
model_json-copy iso e f previous hash c =
    let shown = thaw_json_value f.payload in
    ap (json_object iso e) (sym c.payload)
    ∙ subst
        (λ g.
          json_object iso e shown
          ≡ json_object iso (rehashed g e.integrity.previous_event_hash e.integrity.event_hash)
              shown)
        (sym c.fields) refl

pub encoded-eq-ok : {A : Type 0} (o : Option A) {a : A} → encoded o ≡ ok a → o ≡ some a
encoded-eq-ok (some b) h = cc
encoded-eq-ok none h = cc

pub of_fault-eq-ok : {A : Type 0} (m : Outcome Fault A) {a : A} → of_fault m ≡ ok a → m ≡ ok a
of_fault-eq-ok (ok a) h = cc
of_fault-eq-ok (err e) h = cc

module _ (p : Platform) where
  -- How a hash came about: from the bytes of a valid copy that has none.
  pub record IsHash (e : Event) (hash : String) : Type 0 where
    pub input : Event
    pub bytes : Bytes p
    pub valid : event_with_integrity e e.integrity.previous_event_hash none ≡ ok input
    pub serialized : serialize_event p input ≡ ok bytes
    pub digest : hash ≡ sha256_digest p bytes

  pub compute_event_hash-IsHash :
      (e : Event) (hash : String) → compute_event_hash p e ≡ ok hash → IsHash e hash
  unfolding compute_event_hash
  compute_event_hash-IsHash e hash h =
      let (_, _, h₁) =
        >>=-eq-ok (require_supported_persisted_event_canonicalization e.integrity.canonicalization)
          _ h in
      let (input, valid, h₂) =
        >>=-eq-ok (of_fault (event_with_integrity e e.integrity.previous_event_hash none)) _ h₁ in
      let (bytes, serialized, h₃) = >>=-eq-ok (serialize_event p input) _ h₂ in
      record {
        input = input;
        bytes = bytes;
        valid = of_fault-eq-ok (event_with_integrity e e.integrity.previous_event_hash none) valid;
        serialized = serialized;
        digest = cc;
      }
