-- ===== src/Evidence.antt =====
-- The normalizer of evidence: src/actionlineage/evidence/normalization.py.
--
-- What the identifier generator and the clock return during a call is an input of it. The fields
-- that an event takes from its normalizer are its `Context`. A call returns an event or raises,
-- beside the normalizer that it leaves.
pub mod Timeline
use action_lineage.Base.{
  ℕ, suc, String, Bool, true, false, not, Option, none, some, List, [], ◌∷◌, if◌then◌else◌, ◌&&◌,
  str_eq, Outcome, ok, err, require, ◌>>=◌, ◌>>◌, ◌==◌, ℤ,
}
use action_lineage.Domain.Value.{Value, Datetime}
use action_lineage.Domain.Event.{
  Event, Source, Correlation, Principal, Classification, Integrity, Fault, validate_event,
}
use action_lineage.Journal.Hashing.{canonicalization_version}

pub record Context : Type 0 where
  pub correlation : Correlation
  pub source : Source
  pub principal : Principal
  pub classification : Classification

-- `EvidenceNormalizer`.
pub record Normalizer : Type 0 where
  pub context : Context
  pub initial_sequence : ℕ
  pub sequence : ℕ
  pub root_event_id : Option String
  pub last_event_id : Option String

pub data NormalizerError : Type 0 where
  negative_sequence already_recorded root_required : NormalizerError
  invalid_event : Fault → NormalizerError

-- The arguments of `record`, with the identifier and the times that are drawn.
pub record Entry : Type 0 where
  pub event_id : String
  pub occurred_at : Datetime
  pub observed_at : Datetime
  pub event_type : String
  pub payload : Value
  pub source : Option Source
  pub principal : Option Principal
  pub classification : Option Classification
  pub parent_event_id : Option String
  pub root_event_id : Option String

-- The constructor, with `__post_init__`.
unfoldable pub new_normalizer : Context → ℤ → Outcome NormalizerError Normalizer
new_normalizer context (ℤ.negsuc _) = err negative_sequence
new_normalizer context (ℤ.pos n) = ok (record {
  context = context;
  initial_sequence = n;
  sequence = n;
  root_event_id = none;
  last_event_id = none;
})

abbrev pub is_none : {A : Type 0} → Option A → Bool
is_none none = true
is_none (some _) = false

unfoldable pub rebase_initial_sequence : Normalizer → ℤ → Outcome NormalizerError Normalizer
rebase_initial_sequence n (ℤ.negsuc _) = err negative_sequence
rebase_initial_sequence n (ℤ.pos first) = do
  require (n.sequence == n.initial_sequence && is_none n.root_event_id) already_recorded
  ok (record n { initial_sequence = first; sequence = first })

-- `given or default`, of an object.
abbrev pub given_or : {A : Type 0} → Option A → A → A
given_or none default = default
given_or (some a) default = a

-- `given or default`, of a text: an empty one counts as not given.
abbrev pub text_or : Option String → Option String → Option String
text_or none default = default
text_or (some s) default = if str_eq s "" then default else some s

unfoldable pub resolve_root_event_id :
    Normalizer → String → Option String → Bool → Outcome NormalizerError String
resolve_root_event_id n event_id given true = ok event_id
resolve_root_event_id n event_id (some root) false = ok root
resolve_root_event_id n event_id none false = elim n.root_event_id [
  | some root ↦ ok root
  | none ↦ err root_required
]

abbrev pub is_root : Normalizer → Entry → Bool
is_root n i = is_none n.root_event_id && (is_none i.parent_event_id && is_none i.root_event_id)

abbrev pub resolved_parent : Normalizer → Entry → Option String
resolved_parent n i = if is_root n i then none else text_or i.parent_event_id n.last_event_id

-- The fields that are handed to `EventEnvelope`.
abbrev pub draft : Normalizer → Entry → String → Event
draft n i root = record {
  event_id = i.event_id;
  event_type = i.event_type;
  occurred_at = i.occurred_at;
  observed_at = i.observed_at;
  source = given_or i.source n.context.source;
  correlation = n.context.correlation;
  causality = record {
    root_event_id = root;
    sequence = n.sequence;
    parent_event_id = resolved_parent n i;
  };
  principal = given_or i.principal n.context.principal;
  classification = given_or i.classification n.context.classification;
  payload = i.payload;
  integrity = record {
    canonicalization = canonicalization_version;
    previous_event_hash = none;
    event_hash = none;
  };
}

abbrev pub of_event_fault : {A : Type 0} → Outcome Fault A → Outcome NormalizerError A
of_event_fault (ok a) = ok a
of_event_fault (err f) = err (invalid_event f)

unfoldable pub make_event : Normalizer → Entry → Outcome NormalizerError Event
make_event n i = do
  root ← resolve_root_event_id n i.event_id i.root_event_id (is_root n i)
  of_event_fault (validate_event (draft n i root))

-- The normalizer after an event.
abbrev pub advanced : Normalizer → Event → Normalizer
advanced n e = record n {
  sequence = suc n.sequence;
  root_event_id = some e.causality.root_event_id;
  last_event_id = some e.event_id;
}

abbrev pub recorded :
    Normalizer → Outcome NormalizerError Event → Outcome NormalizerError Event × Normalizer
recorded n (ok e) = (ok e, advanced n e)
recorded n (err x) = (err x, n)

-- `record`.
unfoldable pub record_event : Normalizer → Entry → Outcome NormalizerError Event × Normalizer
record_event n i = recorded n (make_event n i)

-- A run of calls, each of which may raise: the events that were returned.
abbrev pub and_then :
    (Normalizer → List Event × Normalizer)
    → Outcome NormalizerError Event × Normalizer
    → List Event × Normalizer
and_then rest (ok e, n) = let (es, n') = rest n in (e ∷ es, n')
and_then rest (err _, n) = rest n

unfoldable pub record_all : Normalizer → List Entry → List Event × Normalizer
record_all n [] = ([], n)
record_all n (i ∷ is) = and_then (λ n'. record_all n' is) (record_event n i)
