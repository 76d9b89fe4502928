-- ===== src/Tests/Rules.antt =====
-- The theorems on the evaluation of rules, applied to events that are numbers.
use action_lineage.Base.{
  ℕ, ◌≡◌, refl, true, none, some, List, [], ◌∷◌, All, ◌==◌, leb, if◌then◌else◌, String, ◌-◌,
}
use action_lineage.Detection.Evaluate.{
  Reader, SequenceRule, evaluate_sequence_rule, group_events, suppress_and_dedupe,
}
use action_lineage.Detection.Found.{IsFoundIn, evaluate-IsFoundIn}
use action_lineage.Detection.Groups.{AreApart, group_of, with_key, group_events-AreApart}
use action_lineage.Detection.Distinct.{HaveDistinctIds, suppress_and_dedupe-HaveDistinctIds}

-- An event is its stage and its time, which is its id too.
abbrev Seen : Type 0
Seen = ℕ × ℕ

abbrev reader : Reader Seen ℕ
reader = record {
  matches_stage = λ e s. e.0 == s;
  occurred_at = λ e. e.1;
  sequence = λ e. e.1;
  event_id = λ e. if e.1 == 0 then "a" else "b";
}

abbrev parity : Seen → List String
parity e = (if leb e.1 50 then "early" else "late") ∷ []

abbrev rule : SequenceRule Seen ℕ
rule = record {
  rule_id = none;
  name = "two stages";
  severity = "medium";
  stages = 1 ∷ 2 ∷ [];
  ordered = true;
  window = some (λ d. leb d 10);
  deduplicate = true;
  too_soon = some (λ last first. leb (first - last) 60);
  group_key = parity;
  suppression_key = λ group _. group;
}

abbrev stream : List Seen
stream = (1, 95) ∷ (1, 0) ∷ (2, 100) ∷ []

evaluate-IsFoundIn_example :
    All (IsFoundIn reader rule stream (1 ∷ 2 ∷ [])) (evaluate_sequence_rule reader rule stream)
evaluate-IsFoundIn_example = evaluate-IsFoundIn reader rule stream

group_events-AreApart_example :
    AreApart (group_events parity stream)
    × (group_of ("late" ∷ []) (group_events parity stream) ≡ with_key parity ("late" ∷ []) stream)
group_events-AreApart_example = group_events-AreApart parity stream ("late" ∷ [])

suppress_and_dedupe-HaveDistinctIds_example :
    HaveDistinctIds reader rule
      (suppress_and_dedupe reader rule [] (((1, 0) ∷ []) ∷ ((1, 0) ∷ []) ∷ ((2, 99) ∷ []) ∷ []))
suppress_and_dedupe-HaveDistinctIds_example =
    suppress_and_dedupe-HaveDistinctIds reader rule []
      (((1, 0) ∷ []) ∷ ((1, 0) ∷ []) ∷ ((2, 99) ∷ []) ∷ []) refl
