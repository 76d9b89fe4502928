-- ===== src/Detection.antt =====
-- The matching of sequence rules: `_match_ordered`, `_match_unordered` and `_within_window` of
-- src/actionlineage/detection/sequence.py.
--
-- The loops ask three things of an event and of a rule: whether an event matches a stage, when an
-- event occurred, in microseconds, and whether a span of microseconds is within the window, a
-- comparison of floats. They are arguments, and the results hold for all of them. A rule has a
-- first stage and others, as `evaluate_sequence_rule` returns before the loops if it has none.
pub mod Sequences
pub mod Rounds
pub mod Ordered
pub mod Unordered
pub mod Evaluate
pub mod Found
pub mod Groups
pub mod Distinct
use action_lineage.Base.{
  ℕ, zero, suc, ◌-◌, Bool, true, false, Option, none, some, List, [], ◌∷◌, length, ltb,
  if◌then◌else◌,
}

abbrev pub smaller : ℕ → ℕ → ℕ
smaller a b = if ltb b a then b else a

abbrev pub larger : ℕ → ℕ → ℕ
larger a b = if ltb a b then b else a

abbrev pub with_first : {E : Type 0} → E → Option (List E × List E) → Option (List E × List E)
with_first e none = none
with_first e (some (matched, rest)) = some (e ∷ matched, rest)

module _ {E : Type 0} (occurred_at : E → ℕ) where
  abbrev pub earliest : E → List E → ℕ
  earliest e [] = occurred_at e
  earliest e (f ∷ es) = smaller (occurred_at e) (earliest f es)

  abbrev pub latest : E → List E → ℕ
  latest e [] = occurred_at e
  latest e (f ∷ es) = larger (occurred_at e) (latest f es)

  -- `None` is no window.
  unfoldable pub within_window : Option (ℕ → Bool) → List E → Bool
  within_window none es = true
  within_window (some within) [] = true
  within_window (some within) (e ∷ []) = true
  within_window (some within) (e ∷ f ∷ es) = within (latest e (f ∷ es) - earliest e (f ∷ es))

-- What a round's result does to the loop; `more` is the loop on the events behind the match.
abbrev pub go_on :
    {E : Type 0}
    → (List E → Bool)
    → (List E → List (List E))
    → Option (List E × List E)
    → List (List E)
go_on in_window more none = []
go_on in_window more (some (matched, rest)) =
    let later = more rest in if in_window matched then matched ∷ later else later

module _ {E S : Type 0} where
  -- What a stage that is matched leaves to do: the last ends the round, with the events behind it.
  abbrev pub after_stage :
      (S → List S → Option (List E × List E)) → E → List E → List S → Option (List E × List E)
  after_stage more e es [] = some (e ∷ [], es)
  after_stage more e es (t ∷ ts) = with_first e (more t ts)

  module _ (event_matches_stage : E → S → Bool) where
    -- One round of `_match_ordered` from its start index: the events that match the stages in
    -- turn, and the events behind the last of them.
    unfoldable pub match_round : S → List S → List E → Option (List E × List E)
    match_round s ss [] = none
    match_round s ss (e ∷ es) =
        let skipped = match_round s ss es in
        let taken = after_stage (λ t ts. match_round t ts es) e es ss in
        if event_matches_stage e s then taken else skipped

    abbrev pub take_match : E → S → Option (E × List E) → Option (E × List E)
    take_match e s none = none
    take_match e s (some (m, rest)) = some (m, e ∷ rest)

    -- The first of the remaining events that matches, and what remains without it.
    unfoldable pub remove_match : S → List E → Option (E × List E)
    remove_match s [] = none
    remove_match s (e ∷ es) =
        let later = take_match e s (remove_match s es) in
        if event_matches_stage e s then some (e, es) else later

    unfoldable pub match_stages : List S → List E → Option (List E)
    match_stages [] remaining = some []
    match_stages (s ∷ ss) remaining = elim (remove_match s remaining) [
      | none ↦ none
      | some (e, rest) ↦ elim (match_stages ss rest) [
        | none ↦ none
        | some matched ↦ some (e ∷ matched)
      ]
    ]

  module _ (event_matches_stage : E → S → Bool) (occurred_at : E → ℕ)
      (window : Option (ℕ → Bool)) where
    -- The rounds, on fuel: each starts behind the last event of the one before.
    unfoldable pub match_ordered : ℕ → S → List S → List E → List (List E)
    match_ordered zero s ss events = []
    match_ordered (suc fuel) s ss events =
        go_on (within_window occurred_at window) (λ rest. match_ordered fuel s ss rest)
          (match_round event_matches_stage s ss events)

    unfoldable pub match_unordered : List S → List E → List (List E)
    match_unordered ss events = elim (match_stages event_matches_stage ss events) [
      | none ↦ []
      | some matched ↦ if within_window occurred_at window matched then matched ∷ [] else []
    ]
