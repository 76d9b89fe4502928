-- ===== src/Detection/Ordered.antt =====
-- The loop over the rounds: its matches are sound and disjoint, and it misses none.
use action_lineage.Base.{
  ℕ, zero, suc, ◌≤◌, ◌<◌, ◌≡◌, ◌≢◌, refl, sym, ap, Bool, true, Option, none, some, List, [], ◌∷◌,
  ◌++◌, All, length, arith, Bool-cases, inl, inr, if◌then◌else◌,
}
use action_lineage.Detection.{match_round, match_ordered, within_window, go_on}
use action_lineage.Detection.Sequences.{Subsequence, FollowsStages, concat, none-Subsequence}
use action_lineage.Detection.Rounds.{match_round-IsRound, match_round-finds, without_first}

module _ {E S : Type 0} (event_matches_stage : E → S → Bool) (occurred_at : E → ℕ)
    (window : Option (ℕ → Bool)) (s : S) (ss : List S) where
  abbrev matches : ℕ → List E → List (List E)
  matches fuel es = match_ordered event_matches_stage occurred_at window fuel s ss es

  -- A match follows the stages and is within the window.
  abbrev pub IsDetected : List E → Type 0
  IsDetected m =
      FollowsStages event_matches_stage (s ∷ ss) m × (within_window occurred_at window m ≡ true)

  drop_front : (m xs es : List E) → Subsequence (m ++ xs) es → Subsequence xs es
  drop_front [] xs es k = k
  drop_front (x ∷ m) xs es k =
      drop_front m xs es (without_first event_matches_stage x (m ++ xs) es k)

  -- One turn of the loop, where the turns behind it are known.
  turn_IsDetected :
      (more : List E → List (List E)) (es : List E) (o : Option (List E × List E))
      → match_round event_matches_stage s ss es ≡ o
      → ((rest : List E) → All IsDetected (more rest) × Subsequence (concat (more rest)) rest)
      → All IsDetected (go_on (within_window occurred_at window) more o)
        × Subsequence (concat (go_on (within_window occurred_at window) more o)) es
  turn_IsDetected more es none h later = (tt, none-Subsequence es)
  turn_IsDetected more es (some (m, rest)) h later =
      let r = match_round-IsRound event_matches_stage s ss es m rest h in
      let all_in_order = r.in_order (concat (more rest)) (later rest).1 in
      elim (Bool-cases (within_window occurred_at window m)) [
        | inl within ↦ rw within (((r.follows, within), (later rest).0), all_in_order)
        | inr outside ↦
            rw outside ((later rest).0, drop_front m (concat (more rest)) es all_in_order)
      ]

  -- Every match that the loop reports follows the stages of the rule in turn and is within its
  -- window, and the events of all matches, one match after the other, are events of the list in
  -- its order, so that none is in two matches.
  pub match_ordered-IsDetected :
      (fuel : ℕ) (es : List E)
      → All IsDetected (matches fuel es) × Subsequence (concat (matches fuel es)) es
  unfolding match_ordered
  match_ordered-IsDetected zero es = (tt, none-Subsequence es)
  match_ordered-IsDetected (suc fuel) es =
      turn_IsDetected (matches fuel) es (match_round event_matches_stage s ss es) refl
        (match_ordered-IsDetected fuel)

  no_round : match_round event_matches_stage s ss [] ≡ none
  unfolding match_round
  no_round = refl

  turn_alike :
      (f g : List E → List (List E)) (es : List E) (o : Option (List E × List E))
      → match_round event_matches_stage s ss es ≡ o
      → ((rest : List E) → length rest < length es → f rest ≡ g rest)
      → go_on (within_window occurred_at window) f o ≡ go_on (within_window occurred_at window) g o
  turn_alike f g es none h alike = refl
  turn_alike f g es (some (m, rest)) h alike =
      let r = match_round-IsRound event_matches_stage s ss es m rest h in
      ap (λ later. if within_window occurred_at window m then m ∷ later else later)
        (alike rest r.fewer)

  -- Fuel for every event of the list is enough: more does not change what the loop reports.
  pub match_ordered-fuel :
      (fuel more : ℕ) (es : List E)
      → length es ≤ fuel
      → length es ≤ more
      → matches fuel es ≡ matches more es
  unfolding match_ordered
  match_ordered-fuel zero zero es h k = refl
  match_ordered-fuel zero (suc more) [] h k =
      sym (ap (go_on (within_window occurred_at window) (matches more)) no_round)
  match_ordered-fuel zero (suc more) (e ∷ es) h k = absurd (omega arith)
  match_ordered-fuel (suc fuel) zero [] h k =
      ap (go_on (within_window occurred_at window) (matches fuel)) no_round
  match_ordered-fuel (suc fuel) zero (e ∷ es) h k = absurd (omega arith)
  match_ordered-fuel (suc fuel) (suc more) es h k =
      turn_alike (matches fuel) (matches more) es (match_round event_matches_stage s ss es) refl
        (λ rest fewer. match_ordered-fuel fuel more rest (omega arith) (omega arith))

module _ {E S : Type 0} (event_matches_stage : E → S → Bool) (occurred_at : E → ℕ) (s : S)
    (ss : List S) where
  some_match :
      (more : List E → List (List E)) (o : Option (List E × List E))
      → o ≢ none
      → go_on (within_window occurred_at none) more o ≢ []
  unfolding within_window
  some_match more none found h = found refl
  some_match more (some (m, rest)) found h = cc

  -- A rule without a window reports a match whenever some events of the list, in its order, follow
  -- its stages, given fuel for every event.
  pub match_ordered-finds :
      (fuel : ℕ) (es xs : List E)
      → length es ≤ fuel
      → FollowsStages event_matches_stage (s ∷ ss) xs
      → Subsequence xs es
      → match_ordered event_matches_stage occurred_at none fuel s ss es ≢ []
  unfolding match_ordered
  match_ordered-finds zero es xs h f k none_found =
      match_round-finds event_matches_stage s ss es xs f k (empty es h)
    where
      empty : (ys : List E) → length ys ≤ 0 → match_round event_matches_stage s ss ys ≡ none
      empty [] j = no_round event_matches_stage occurred_at none s ss
      empty (y ∷ ys) j = absurd (omega arith)
  match_ordered-finds (suc fuel) es xs h f k none_found =
      some_match (λ rest. match_ordered event_matches_stage occurred_at none fuel s ss rest)
        (match_round event_matches_stage s ss es)
        (match_round-finds event_matches_stage s ss es xs f k) none_found
