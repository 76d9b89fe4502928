-- ===== src/Detection/Unordered.antt =====
-- Unordered matching: what it reports.
use action_lineage.Base.{
  ℕ, ◌≡◌, refl, sym, ap, ◌∙◌, subst, Bool, true, false, Option, none, some, List, [], ◌∷◌, All,
  Bool-cases, inl, inr, if◌then◌else◌,
}
use action_lineage.Detection.{
  take_match, remove_match, match_stages, match_unordered, within_window,
}
use action_lineage.Detection.Sequences.{FollowsStages}

module _ {E S : Type 0} (event_matches_stage : E → S → Bool) where
  remove_match-hits :
      (s : S) (es rest : List E) (m : E)
      → remove_match event_matches_stage s es ≡ some (m, rest)
      → event_matches_stage m s ≡ true
  unfolding remove_match
  remove_match-hits s [] rest m h = cc
  remove_match-hits s (e ∷ es) rest m h = elim (Bool-cases (event_matches_stage e s)) [
    | inl hit ↦ subst (λ x. event_matches_stage x s ≡ true) (head_of (sym (one_way hit) ∙ h)) hit
    | inr miss ↦
        later (remove_match event_matches_stage s es) refl (sym (other_way miss) ∙ h)
          (remove_match-hits s es)
  ]
    where
      one_way :
          event_matches_stage e s ≡ true
          → remove_match event_matches_stage s (e ∷ es) ≡ some (e, es)
      one_way hit = rw hit

      other_way :
          event_matches_stage e s ≡ false
          → remove_match event_matches_stage s (e ∷ es)
            ≡ take_match event_matches_stage e s (remove_match event_matches_stage s es)
      other_way miss = rw miss

      head_of : ◌≡◌ {A = Option (E × List E)} (some (e, es)) (some (m, rest)) → e ≡ m
      head_of k = let pairs : ◌≡◌ {A = E × List E} (e, es) (m, rest) = cc in ap (λ q. q.0) pairs

      later :
          (o : Option (E × List E))
          → remove_match event_matches_stage s es ≡ o
          → take_match event_matches_stage e s o ≡ some (m, rest)
          → ((r : List E) (x : E)
              → remove_match event_matches_stage s es ≡ some (x, r)
              → event_matches_stage x s ≡ true)
          → event_matches_stage m s ≡ true
      later none g k hits = cc
      later (some (x, r)) g k hits =
          let pairs : ◌≡◌ {A = E × List E} (x, e ∷ r) (m, rest) = cc in
          subst (λ y. event_matches_stage y s ≡ true) (ap (λ q. q.0) pairs) (hits r x g)

  -- A stage, and the events of the others.
  stage_first :
      (s : S) (ss : List S) (m : E) (o : Option (List E)) (matched : List E)
      → event_matches_stage m s ≡ true
      → ((ms : List E) → o ≡ some ms → FollowsStages event_matches_stage ss ms)
      → (elim o [ none ↦ none | some ms ↦ some (m ∷ ms) ]) ≡ some matched
      → FollowsStages event_matches_stage (s ∷ ss) matched
  stage_first s ss m none matched hit others h = cc
  stage_first s ss m (some ms) matched hit others h =
      let same : (m ∷ ms) ≡ matched = cc in
      subst (FollowsStages event_matches_stage (s ∷ ss)) same (hit, others ms refl)

  match_stages-FollowsStages :
      (ss : List S) (es matched : List E)
      → match_stages event_matches_stage ss es ≡ some matched
      → FollowsStages event_matches_stage ss matched
  unfolding match_stages
  match_stages-FollowsStages [] es matched h =
      let same : [] ≡ matched = cc in subst (FollowsStages event_matches_stage []) same tt
  match_stages-FollowsStages (s ∷ ss) es matched h =
      removed (remove_match event_matches_stage s es) (remove_match-hits s es)
        (match_stages-FollowsStages ss) h
    where
      removed :
          (o : Option (E × List E))
          → ((rest : List E) (m : E) → o ≡ some (m, rest) → event_matches_stage m s ≡ true)
          → ((es' ms : List E)
              → match_stages event_matches_stage ss es' ≡ some ms
              → FollowsStages event_matches_stage ss ms)
          → (elim o [
            | none ↦ none
            | some (m, rest) ↦ elim (match_stages event_matches_stage ss rest) [
              | none ↦ none
              | some ms ↦ some (m ∷ ms)
            ]
          ])
            ≡ some matched
          → FollowsStages event_matches_stage (s ∷ ss) matched
      removed none hits others k = cc
      removed (some (m, rest)) hits others k =
          stage_first s ss m (match_stages event_matches_stage ss rest) matched (hits rest m refl)
            (others rest) k

  -- What unordered matching reports has an event for each stage, one after the other, and is within
  -- the window.
  pub match_unordered-FollowsStages :
      (occurred_at : E → ℕ) (window : Option (ℕ → Bool)) (ss : List S) (es : List E)
      → All
          (λ m.
            FollowsStages event_matches_stage ss m × (within_window occurred_at window m ≡ true))
          (match_unordered event_matches_stage occurred_at window ss es)
  unfolding match_unordered
  match_unordered-FollowsStages occurred_at window ss es =
      reported (match_stages event_matches_stage ss es) (match_stages-FollowsStages ss es)
    where
      reported :
          (o : Option (List E))
          → ((m : List E) → o ≡ some m → FollowsStages event_matches_stage ss m)
          → All
              (λ m.
                FollowsStages event_matches_stage ss m
                × (within_window occurred_at window m ≡ true))
              (elim o [
                | none ↦ []
                | some m ↦ if within_window occurred_at window m then m ∷ [] else []
              ])
      reported none found = tt
      reported (some m) found = elim (Bool-cases (within_window occurred_at window m)) [
        | inl within ↦ rw within ((found m refl, within), tt)
        | inr outside ↦ rw outside tt
      ]
