-- ===== src/Evidence/Timeline.antt =====
-- The events of one normalizer form a timeline: numbered in turn, and linked to their root and to
-- the event before.
use action_lineage.Base.{
  ◌+◌, ◌≡◌, refl, sym, ap, subst, ℕ, suc, String, Option, none, some, List, [], ◌∷◌, All, length,
  Outcome, ok, err, >>=-eq-ok, arith, ok_injective, Outcome-cases, inl, inr,
}
use action_lineage.Domain.Event.{Event, Fault, validate_event}
use action_lineage.Domain.Event.Serialize.{validate_event-eq-ok}
use action_lineage.Evidence.{
  Normalizer, Entry, make_event, record_all, record_event, recorded, and_then, advanced, draft,
  of_event_fault, resolve_root_event_id, is_root, NormalizerError,
}

-- The links of an event without given ones: it starts a timeline, or belongs to the one whose root
-- is given and follows its last event.
abbrev pub IsLinked : Option String → Option String → Event → Type 0
IsLinked none last e =
    (e.causality.parent_event_id ≡ none) × (e.causality.root_event_id ≡ e.event_id)
IsLinked (some root) last e =
    (e.causality.parent_event_id ≡ last) × (e.causality.root_event_id ≡ root)

-- Events from a sequence number, a root and a last event on.
abbrev pub IsTimeline : ℕ → Option String → Option String → List Event → Type 0
IsTimeline n root last [] = Unit {0}
IsTimeline n root last (e ∷ es) =
    (e.causality.sequence ≡ n)
    × IsLinked root last e
    × ((d : Event) × (validate_event d ≡ ok e))
    × IsTimeline (suc n) (some e.causality.root_event_id) (some e.event_id) es

abbrev pub IsUnlinked : Entry → Type 0
IsUnlinked i = (i.parent_event_id ≡ none) × (i.root_event_id ≡ none)

of_event_fault-eq-ok :
    {A : Type 0} (m : Outcome Fault A) {a : A} → of_event_fault m ≡ ok a → m ≡ ok a
of_event_fault-eq-ok (ok a) h = cc
of_event_fault-eq-ok (err f) h = cc

made :
    (n : Normalizer) (i : Entry) (e : Event)
    → make_event n i ≡ ok e
    → (root : String) × (resolve_root_event_id n i.event_id i.root_event_id (is_root n i) ≡ ok root)
      × (validate_event (draft n i root) ≡ ok e)
unfolding make_event
made n i e h =
    let (root, r, h₁) =
      >>=-eq-ok (resolve_root_event_id n i.event_id i.root_event_id (is_root n i)) _ h in
    (root, r, of_event_fault-eq-ok (validate_event (draft n i root)) h₁)

-- The draft of an entry without given links.
draft-IsLinked :
    (n : Normalizer) (i : Entry) (o : Option String) (root : String)
    → IsUnlinked i
    → n.root_event_id ≡ o
    → resolve_root_event_id n i.event_id i.root_event_id (is_root n i) ≡ ok root
    → IsLinked o n.last_event_id (draft n i root)
unfolding resolve_root_event_id
draft-IsLinked n i none root u o r =
    (rw (o, u.0, u.1) refl, sym (ok_injective (rw (o, u.0, u.1) at r)))
draft-IsLinked n i (some x) root u o r = (rw (o, u.0) refl, sym (ok_injective (rw (u.1, o) at r)))

made-IsLinked :
    (n : Normalizer) (i : Entry) (e : Event)
    → IsUnlinked i
    → make_event n i ≡ ok e
    → (e.causality.sequence ≡ n.sequence)
      × IsLinked n.root_event_id n.last_event_id e
      × ((d : Event) × (validate_event d ≡ ok e))
made-IsLinked n i e u h =
    let (root, r, valid) = made n i e h in
    let (p, _, same) = validate_event-eq-ok (draft n i root) e valid in
    let linked = draft-IsLinked n i n.root_event_id root u refl r in
    (
      ap (λ x. x.causality.sequence) same,
      subst (IsLinked n.root_event_id n.last_event_id) (sym same)
          (with_payload n.root_event_id root p linked),
      (draft n i root, valid),
    )
  where
    with_payload :
        (o : Option String) (root : String) (p : _)
        → IsLinked o n.last_event_id (draft n i root)
        → IsLinked o n.last_event_id (record (draft n i root) { payload = p })
    with_payload none root p l = l
    with_payload (some _) root p l = l

record_all-raised :
    (n : Normalizer) (i : Entry) (is : List Entry) (x : NormalizerError)
    → make_event n i ≡ err x
    → record_all n (i ∷ is) ≡ record_all n is
unfolding record_all record_event
record_all-raised n i is x h = ap (λ m. and_then (λ n'. record_all n' is) (recorded n m)) h

record_all-made :
    (n : Normalizer) (i : Entry) (is : List Entry) (e : Event)
    → make_event n i ≡ ok e
    → record_all n (i ∷ is)
      ≡ (e ∷ (record_all (advanced n e) is).0, (record_all (advanced n e) is).1)
unfolding record_all record_event
record_all-made n i is e h = ap (λ m. and_then (λ n'. record_all n' is) (recorded n m)) h

-- The events of a run of calls, and the normalizer after it.
abbrev pub IsRun : Normalizer → List Event × Normalizer → Type 0
IsRun n (es, n') =
    IsTimeline n.sequence n.root_event_id n.last_event_id es
    × (n'.sequence ≡ n.sequence + length es)

-- Whatever calls raise in between, the events that a normalizer returns, none of them with given
-- links, are valid, are numbered without a gap from its next number on, and are linked: where it
-- has no root yet, the first is the root of all, and each further one follows the one before it.
-- The next number is then as many further as there are events.
pub record_all-IsTimeline :
    (n : Normalizer) (is : List Entry) → All IsUnlinked is → IsRun n (record_all n is)
unfolding record_all
record_all-IsTimeline n [] u = (tt, omega arith)
record_all-IsTimeline n (i ∷ is) u = elim (Outcome-cases (make_event n i)) [
  | inl (x, failed) ↦
      subst (IsRun n) (sym (record_all-raised n i is x failed)) (record_all-IsTimeline n is u.1)
  | inr (e, h) ↦
      let (number, linked, valid) = made-IsLinked n i e u.0 h in
      let (rest, next) = record_all-IsTimeline (advanced n e) is u.1 in
      subst (IsRun n) (sym (record_all-made n i is e h))
        ((number, linked, valid, rest), omega (arith, next))
]
