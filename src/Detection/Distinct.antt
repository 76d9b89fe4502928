-- ===== src/Detection/Distinct.antt =====
-- Deduplication: `_suppress_and_dedupe` of src/actionlineage/detection/sequence.py.
use action_lineage.Base.{
  ◌≡◌, refl, String, Bool, true, false, List, [], ◌∷◌, All, Bool-cases, inl, inr, if◌then◌else◌,
  texts_eq, ◌||◌,
}
use action_lineage.Detection.Evaluate.{
  Reader, SequenceRule, Emitting, is_seen, is_too_soon, find_time, ids_of, first_occurred_at,
  emit_match, emit_unseen, emit_from, suppress_and_dedupe,
}

or_false : (a b : Bool) → (a || b) ≡ false → (a ≡ false) × (b ≡ false)
or_false true b h = cc
or_false false b h = (refl, h)

module _ {E S : Type 0} (r : Reader E S) (rule : SequenceRule E S) where
  abbrev IsUnseen : List (List String) → List E → Type 0
  IsUnseen seen m = is_seen (ids_of r m) seen ≡ false

  -- No two matches have the same events, in the same order.
  abbrev pub HaveDistinctIds : List (List E) → Type 0
  HaveDistinctIds [] = Unit {0}
  HaveDistinctIds (m ∷ ms) =
      All (λ n. texts_eq (ids_of r m) (ids_of r n) ≡ false) ms × HaveDistinctIds ms

  abbrev Emits : Emitting → List (List E) → Type 0
  Emits s ms = All (IsUnseen s.seen) ms × HaveDistinctIds ms

  behind_seen :
      (m : List E) (seen : List (List String)) (ms : List (List E))
      → All (IsUnseen (ids_of r m ∷ seen)) ms
      → All (IsUnseen seen) ms × All (λ n. texts_eq (ids_of r m) (ids_of r n) ≡ false) ms
  behind_seen m seen [] h = (tt, tt)
  behind_seen m seen (n ∷ ms) h =
      let (apart, unseen) = or_false (texts_eq (ids_of r m) (ids_of r n)) _ h.0 in
      let (rest, others) = behind_seen m seen ms h.1 in ((unseen, rest), (apart, others))

  -- One match, by what is emitted of the others.
  emitted_unseen :
      (key : List String) (m : List E) (s : Emitting) (later : Emitting → List (List E))
      → IsUnseen s.seen m
      → ((s' : Emitting) → Emits s' (later s'))
      → Emits s (
          if (emit_unseen r rule key m s).0
          then m ∷ later (emit_unseen r rule key m s).1
          else later (emit_unseen r rule key m s).1)
  emitted_unseen key m s later unseen next =
      elim (Bool-cases
        (is_too_soon rule.too_soon (find_time key s.last_emitted) (first_occurred_at r m))) [
          | inl soon ↦
              rw soon (let (rest, _) = behind_seen m s.seen _ (next _).0 in (rest, (next _).1))
          | inr free ↦ rw free (
              let (rest, others) = behind_seen m s.seen _ (next _).0 in
              ((unseen, rest), (others, (next _).1)))
        ]

  emit_from-Emits :
      (group : List String) (ms : List (List E)) (s : Emitting)
      → rule.deduplicate ≡ true
      → Emits s (emit_from r rule group ms s)
  unfolding emit_from emit_match
  emit_from-Emits group [] s d = (tt, tt)
  emit_from-Emits group (m ∷ ms) s d = elim (Bool-cases (is_seen (ids_of r m) s.seen)) [
    | inl seen ↦ rw (d, seen) (emit_from-Emits group ms s d)
    | inr unseen ↦
        rw (d, unseen)
          (emitted_unseen (rule.suppression_key group m) m s (λ s'. emit_from r rule group ms s')
            unseen (λ s'. emit_from-Emits group ms s' d))
  ]

  -- With deduplication, no two matches that are emitted in a group have the same event ids.
  pub suppress_and_dedupe-HaveDistinctIds :
      (group : List String) (ms : List (List E))
      → rule.deduplicate ≡ true
      → HaveDistinctIds (suppress_and_dedupe r rule group ms)
  unfolding suppress_and_dedupe
  suppress_and_dedupe-HaveDistinctIds group ms d =
      (emit_from-Emits group ms (record { seen = []; last_emitted = [] }) d).1
