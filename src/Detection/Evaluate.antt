-- ===== src/Detection/Evaluate.antt =====
-- The evaluation of a rule: `evaluate_sequence_rule`, `_group_events` and `_suppress_and_dedupe` of
-- src/actionlineage/detection/sequence.py.
--
-- A rule's paths into events are functions: `group_key` gives the texts of an event by which it is
-- grouped, `suppression_key` those of a match, from its group and its events. `too_soon` is the
-- comparison of the seconds since the last match. What is asked of an event is a `Reader`.
use action_lineage.Base.{
  ℕ, String, Bool, true, false, ◌&&◌, Option, none, some, List, [], ◌∷◌, ◌++◌, if◌then◌else◌, ltb,
  ◌==◌, any_of, length, map, text_le, texts_eq, sort_by,
}
use action_lineage.Detection.{match_ordered, match_unordered, earliest}

pub record Reader (E S : Type 0) : Type 0 where
  pub matches_stage : E → S → Bool
  pub occurred_at : E → ℕ
  pub sequence : E → ℕ
  pub event_id : E → String

pub record SequenceRule (E S : Type 0) : Type 0 where
  pub rule_id : Option String
  pub name : String
  pub severity : String
  pub stages : List S
  pub ordered : Bool
  pub window : Option (ℕ → Bool)
  pub deduplicate : Bool
  pub too_soon : Option (ℕ → ℕ → Bool)
  pub group_key : E → List String
  pub suppression_key : List String → List E → List String

pub record DetectionMatch : Type 0 where
  pub rule_name : String
  pub event_ids : List String
  pub group_key : List String
  pub rule_id : Option String
  pub severity : String

-- The groups of `_group_events`, in the order of their first events.
abbrev pub Groups : Type 0 → Type 0
Groups E = List (List String × List E)

-- `grouped.setdefault(key, []).append(event)`.
unfoldable pub add_to_group : {E : Type 0} → List String → E → Groups E → Groups E
add_to_group key e [] = (key, e ∷ []) ∷ []
add_to_group key e ((k, es) ∷ groups) =
    let later = add_to_group key e groups in
    if texts_eq k key then (k, es ++ e ∷ []) ∷ groups else (k, es) ∷ later

unfoldable pub group_from : {E : Type 0} → (E → List String) → Groups E → List E → Groups E
group_from key_of groups [] = groups
group_from key_of groups (e ∷ es) = group_from key_of (add_to_group (key_of e) e groups) es

unfoldable pub group_events : {E : Type 0} → (E → List String) → List E → Groups E
group_events key_of es = group_from key_of [] es

unfoldable pub find_time : List String → List (List String × ℕ) → Option ℕ
find_time key [] = none
find_time key ((k, t) ∷ times) = if texts_eq k key then some t else find_time key times

-- `seen_event_sets` and `last_emitted_by_key`, the newest first.
pub record Emitting : Type 0 where
  pub seen : List (List String)
  pub last_emitted : List (List String × ℕ)

abbrev pub is_seen : List String → List (List String) → Bool
is_seen ids seen = any_of (λ s. texts_eq s ids) seen

abbrev pub is_too_soon : Option (ℕ → ℕ → Bool) → Option ℕ → ℕ → Bool
is_too_soon none last first = false
is_too_soon (some too_soon) none first = false
is_too_soon (some too_soon) (some last) first = too_soon last first

module _ {E S : Type 0} (r : Reader E S) where
  -- `min(event.occurred_at ...)`; a match is not empty, as a rule has a stage.
  abbrev pub first_occurred_at : List E → ℕ
  first_occurred_at [] = 0
  first_occurred_at (e ∷ es) = earliest r.occurred_at e es

  abbrev pub ids_of : List E → List String
  ids_of es = map r.event_id es

  module _ (rule : SequenceRule E S) where
    -- A match that is not seen yet: whether it is emitted, and what is known then.
    abbrev pub emit_unseen : List String → List E → Emitting → Bool × Emitting
    emit_unseen key m s =
        let first = first_occurred_at m in
        if is_too_soon rule.too_soon (find_time key s.last_emitted) first
        then (false, record s { seen = ids_of m ∷ s.seen })
        else (
          true,
          record { seen = ids_of m ∷ s.seen; last_emitted = (key, first) ∷ s.last_emitted },
        )

    -- One match of `_suppress_and_dedupe`.
    unfoldable pub emit_match : List String → List E → Emitting → Bool × Emitting
    emit_match group m s =
        if rule.deduplicate && is_seen (ids_of m) s.seen
        then (false, s)
        else emit_unseen (rule.suppression_key group m) m s

    unfoldable pub emit_from : List String → List (List E) → Emitting → List (List E)
    emit_from group [] s = []
    emit_from group (m ∷ ms) s =
        let (emits, s') = emit_match group m s in
        let later = emit_from group ms s' in if emits then m ∷ later else later

    unfoldable pub suppress_and_dedupe : List String → List (List E) → List (List E)
    suppress_and_dedupe group ms = emit_from group ms (record { seen = []; last_emitted = [] })

    -- The order of `(occurred_at, sequence, event_id)`.
    unfoldable pub comes_before : E → E → Bool
    comes_before e f =
        if r.occurred_at e == r.occurred_at f
        then (if r.sequence e == r.sequence f
            then text_le (r.event_id e) (r.event_id f)
            else ltb (r.sequence e) (r.sequence f))
        else ltb (r.occurred_at e) (r.occurred_at f)

    unfoldable pub matched_sequences : S → List S → List E → List (List E)
    matched_sequences s ss es =
        if rule.ordered
        then match_ordered r.matches_stage r.occurred_at rule.window (length es) s ss es
        else match_unordered r.matches_stage r.occurred_at rule.window (s ∷ ss) es

    abbrev pub detection_match : List String → List E → DetectionMatch
    detection_match group m = record {
      rule_name = rule.name;
      event_ids = ids_of m;
      group_key = group;
      rule_id = rule.rule_id;
      severity = rule.severity;
    }

    unfoldable pub evaluate_group : S → List S → List String → List E → List DetectionMatch
    evaluate_group s ss group es =
        map (detection_match group)
          (suppress_and_dedupe group (matched_sequences s ss (sort_by comes_before es)))

    unfoldable pub evaluate_groups : S → List S → Groups E → List DetectionMatch
    evaluate_groups s ss [] = []
    evaluate_groups s ss ((key, es) ∷ groups) =
        evaluate_group s ss key es ++ evaluate_groups s ss groups

    abbrev pub evaluate_stages : List S → List E → List DetectionMatch
    evaluate_stages [] es = []
    evaluate_stages (s ∷ ss) es = evaluate_groups s ss (group_events rule.group_key es)

    unfoldable pub evaluate_sequence_rule : List E → List DetectionMatch
    evaluate_sequence_rule es = evaluate_stages rule.stages es
