-- ===== src/Detection/Found.antt =====
-- What the evaluation of a rule reports: `evaluate_sequence_rule` of
-- src/actionlineage/detection/sequence.py.
use action_lineage.Base.{
  ◌≡◌, refl, sym, ap, String, Bool, true, Option, none, some, List, [], ◌∷◌, ◌++◌, All, All-append,
  All-front, All-both, All-map, Bool-cases, inl, inr, if◌then◌else◌, length, by_test, map, texts_eq,
  texts_eq-eq, sort_by, sort_by-All, ℕ,
}
use action_lineage.Detection.{
  within_window, match_ordered, match_unordered, match_stages, remove_match, take_match,
}
use action_lineage.Detection.Sequences.{Subsequence, done, skip, keep, FollowsStages, concat}
use action_lineage.Detection.Ordered.{match_ordered-IsDetected}
use action_lineage.Detection.Unordered.{match_unordered-FollowsStages}
use action_lineage.Detection.Evaluate.{
  Reader, SequenceRule, DetectionMatch, Groups, add_to_group, group_from, group_events, ids_of,
  emit_from, emit_match, Emitting, suppress_and_dedupe, comes_before, matched_sequences,
  detection_match, evaluate_group, evaluate_groups, evaluate_stages, evaluate_sequence_rule,
}

Subsequence-All :
    {A : Type 0} (P : A → Type 0) {xs ys : List A} → Subsequence xs ys → All P ys → All P xs
Subsequence-All P done h = tt
Subsequence-All P (skip s) h = Subsequence-All P s h.1
Subsequence-All P (keep s) h = (h.0, Subsequence-All P s h.1)

concat-All :
    {A : Type 0} (P : A → Type 0) (xss : List (List A)) → All P (concat xss) → All (All P) xss
concat-All P [] h = tt
concat-All P (xs ∷ xss) h = let (a, b) = All-front P xs (concat xss) h in (a, concat-All P xss b)

-- An item of a list, by what stands before and behind it.
abbrev pub IsAmong : {A : Type 0} → List A → A → Type 0
IsAmong ys x = (before after : List _) × (ys ≡ before ++ x ∷ after)

IsAmong-tail : {A : Type 0} (x y : A) (ys : List A) → IsAmong ys x → IsAmong (y ∷ ys) x
IsAmong-tail x y ys (before, after, same) = (y ∷ before, after, ap (λ zs. y ∷ zs) same)

All-IsAmong : {A : Type 0} (ys : List A) → All (IsAmong ys) ys
All-IsAmong [] = tt
All-IsAmong (y ∷ ys) = (
  ([], ys, refl),
  All-map (IsAmong ys) (IsAmong (y ∷ ys)) (λ x. IsAmong-tail x y ys) ys (All-IsAmong ys),
)

module _ {E : Type 0} (key_of : E → List String) (P : E → Type 0) where
  -- Groups whose events have the key of their group.
  abbrev AreGroups : Groups E → Type 0
  AreGroups groups = All (λ g. All (λ e. (key_of e ≡ g.0) × P e) g.1) groups

  add_to_group-AreGroups :
      (e : E) (groups : Groups E)
      → P e
      → AreGroups groups
      → AreGroups (add_to_group (key_of e) e groups)
  unfolding add_to_group
  add_to_group-AreGroups e [] h gs = (((refl, h), tt), tt)
  add_to_group-AreGroups e ((k, es) ∷ groups) h gs = elim (Bool-cases (texts_eq k (key_of e))) [
    | inl same ↦
        rw same (All-append _ es (e ∷ []) gs.0 ((sym (texts_eq-eq k (key_of e) same), h), tt), gs.1)
    | inr other ↦ rw other (gs.0, add_to_group-AreGroups e groups h gs.1)
  ]

  group_from-AreGroups :
      (groups : Groups E) (es : List E)
      → AreGroups groups
      → All P es
      → AreGroups (group_from key_of groups es)
  unfolding group_from
  group_from-AreGroups groups [] gs h = gs
  group_from-AreGroups groups (e ∷ es) gs h =
      group_from-AreGroups (add_to_group (key_of e) e groups) es
        (add_to_group-AreGroups e groups h.0 gs) h.1

module _ {E S : Type 0} (matches : E → S → Bool) (P : E → Type 0) where
  abbrev Removed : Option (E × List E) → Type 0
  Removed none = Unit {0}
  Removed (some (m, rest)) = P m × All P rest

  abbrev Matched : Option (List E) → Type 0
  Matched none = Unit {0}
  Matched (some ms) = All P ms

  remove_match-Removed : (s : S) (es : List E) → All P es → Removed (remove_match matches s es)
  unfolding remove_match
  remove_match-Removed s [] h = tt
  remove_match-Removed s (e ∷ es) h =
      by_test Removed (matches e s) (λ _. (h.0, h.1))
        (passed_over (remove_match matches s es) (remove_match-Removed s es h.1))
    where
      passed_over : (o : Option (E × List E)) → Removed o → Removed (take_match matches e s o)
      passed_over none k = tt
      passed_over (some (m, rest)) k = (k.0, (h.0, k.1))

  match_stages-Matched :
      (ss : List S) (es : List E) → All P es → Matched (match_stages matches ss es)
  unfolding match_stages
  match_stages-Matched [] es h = tt
  match_stages-Matched (s ∷ ss) es h =
      with_removed (remove_match matches s es) (remove_match-Removed s es h)
        (match_stages-Matched ss)
    where
      with_rest :
          (m : E) (o : Option (List E))
          → P m
          → Matched o
          → Matched (elim o [ none ↦ none | some ms ↦ some (m ∷ ms) ])
      with_rest m none k ks = tt
      with_rest m (some ms) k ks = (k, ks)

      with_removed :
          (o : Option (E × List E))
          → Removed o
          → ((rest : List E) → All P rest → Matched (match_stages matches ss rest))
          → Matched (elim o [
            | none ↦ none
            | some (m, rest) ↦ elim (match_stages matches ss rest) [
              | none ↦ none
              | some ms ↦ some (m ∷ ms)
            ]
          ])
      with_removed none k next = tt
      with_removed (some (m, rest)) k next =
          with_rest m (match_stages matches ss rest) k.0 (next rest k.1)

  match_unordered-All :
      (occurred_at : E → ℕ) (window : Option (ℕ → Bool)) (ss : List S) (es : List E)
      → All P es
      → All (All P) (match_unordered matches occurred_at window ss es)
  unfolding match_unordered
  match_unordered-All occurred_at window ss es h =
      reported (match_stages matches ss es) (match_stages-Matched ss es h)
    where
      reported :
          (o : Option (List E))
          → Matched o
          → All (All P) (elim o [
            | none ↦ []
            | some matched ↦ if within_window occurred_at window matched then matched ∷ [] else []
          ])
      reported none k = tt
      reported (some matched) k =
          by_test (All (All P)) (within_window occurred_at window matched) (λ _. (k, tt)) tt

module _ {E S : Type 0} (r : Reader E S) (rule : SequenceRule E S) where
  emit_from-All :
      (P : List E → Type 0) (group : List String) (ms : List (List E)) (s : Emitting)
      → All P ms
      → All P (emit_from r rule group ms s)
  unfolding emit_from
  emit_from-All P group [] s h = tt
  emit_from-All P group (m ∷ ms) s h =
      let (emits, s') = emit_match r rule group m s in
      let rest = emit_from-All P group ms s' h.1 in by_test (All P) emits (λ _. (h.0, rest)) rest

  -- The events of a match: they match the stages in turn, lie within the window, and are events
  -- that have the key of the group.
  pub record IsFoundIn (es : List E) (stages : List S) (d : DetectionMatch) : Type 0 where
    pub matched : List E
    pub ids : d.event_ids ≡ ids_of r matched
    pub follows : FollowsStages r.matches_stage stages matched
    pub within : within_window r.occurred_at rule.window matched ≡ true
    pub grouped : All (λ e. (rule.group_key e ≡ d.group_key) × IsAmong es e) matched

  -- What is known of the events of a match, before it is reported.
  abbrev IsCandidate : List E → List S → List String → List E → Type 0
  IsCandidate es stages key m =
      (FollowsStages r.matches_stage stages m × (within_window r.occurred_at rule.window m ≡ true))
      × All (λ e. (rule.group_key e ≡ key) × IsAmong es e) m

  sequences_found :
      (s : S) (ss : List S) (key : List String) (all es : List E)
      → All (λ e. (rule.group_key e ≡ key) × IsAmong all e) es
      → All (IsCandidate all (s ∷ ss) key) (matched_sequences r rule s ss es)
  unfolding matched_sequences
  sequences_found s ss key all es h =
      let ordered =
        match_ordered-IsDetected r.matches_stage r.occurred_at rule.window s ss (length es) es in
      by_test (All (IsCandidate all (s ∷ ss) key)) rule.ordered
        (λ _. All-both _ _ _ ordered.0 (
          concat-All _ (match_ordered r.matches_stage r.occurred_at rule.window (length es) s ss es)
            (Subsequence-All _ ordered.1 h)))
        (All-both _ _ _
          (match_unordered-FollowsStages r.matches_stage r.occurred_at rule.window (s ∷ ss) es)
          (match_unordered-All r.matches_stage _ r.occurred_at rule.window (s ∷ ss) es h))

  reports :
      (all : List E) (stages : List S) (key : List String) (ms : List (List E))
      → All (IsCandidate all stages key) ms
      → All (IsFoundIn all stages) (map (detection_match r rule key) ms)
  reports all stages key [] h = tt
  reports all stages key (m ∷ ms) h = (
    record { matched = m; ids = refl; follows = h.0.0.0; within = h.0.0.1; grouped = h.0.1 },
    reports all stages key ms h.1,
  )

  groups_found :
      (s : S) (ss : List S) (all : List E) (groups : Groups E)
      → All (λ g. All (λ e. (rule.group_key e ≡ g.0) × IsAmong all e) g.1) groups
      → All (IsFoundIn all (s ∷ ss)) (evaluate_groups r rule s ss groups)
  unfolding evaluate_groups evaluate_group suppress_and_dedupe
  groups_found s ss all [] h = tt
  groups_found s ss all ((key, es) ∷ groups) h =
      let sorted_es = sort_by (comes_before r rule) es in
      let candidates =
        sequences_found s ss key all sorted_es (sort_by-All (comes_before r rule) _ es h.0) in
      All-append _ _ _
        (reports all (s ∷ ss) key _
          (emit_from-All _ key (matched_sequences r rule s ss sorted_es) _ candidates))
        (groups_found s ss all groups h.1)

  -- Each match that a rule reports is of events from those that were given, all with the match's
  -- group key, whose ids it has; they match the stages of the rule one after the other, and lie
  -- within its window.
  pub evaluate-IsFoundIn :
      (es : List E) → All (IsFoundIn es rule.stages) (evaluate_sequence_rule r rule es)
  unfolding evaluate_sequence_rule group_events
  evaluate-IsFoundIn es = by_stages rule.stages
    where
      by_stages : (stages : List S) → All (IsFoundIn es stages) (evaluate_stages r rule stages es)
      by_stages [] = tt
      by_stages (s ∷ ss) =
          groups_found s ss es (group_from rule.group_key [] es)
            (group_from-AreGroups rule.group_key (IsAmong es) [] es tt (All-IsAmong es))
