-- ===== src/Detection/Rounds.antt =====
-- One round of ordered matching: what it finds, and that it misses nothing.
use action_lineage.Base.{
  ◌<◌, ◌≡◌, ◌≢◌, refl, sym, ap, ◌∙◌, subst, Bool, true, false, Option, none, some, List, [], ◌∷◌,
  ◌++◌, length, arith, Bool-cases, inl, inr,
}
use action_lineage.Detection.{with_first, after_stage, match_round}
use action_lineage.Detection.Sequences.{Subsequence, skip, keep, FollowsStages}

module _ {E S : Type 0} (event_matches_stage : E → S → Bool) where
  -- What a round finds follows the stages and stands in front of the events that are left.
  pub record IsRound (stages : List S) (es matched rest : List E) : Type 0 where
    pub follows : FollowsStages event_matches_stage stages matched
    pub in_order : (xs : List E) → Subsequence xs rest → Subsequence (matched ++ xs) es
    pub fewer : length rest < length es

  with_first-inverse :
      (e : E) (o : Option (List E × List E)) (matched rest : List E)
      → with_first e o ≡ some (matched, rest)
      → (ms : List E) × (o ≡ some (ms, rest)) × (matched ≡ e ∷ ms)
  with_first-inverse e none matched rest h = cc
  with_first-inverse e (some (ms, behind)) matched rest h =
      let pairs : ◌≡◌ {A = List E × List E} (e ∷ ms, behind) (matched, rest) = cc in
      (ms, ap (λ b. some (ms, b)) (ap (λ q. q.1) pairs), sym (ap (λ q. q.0) pairs))

  -- A stage that is matched, where the rounds of the other stages are known.
  taken_IsRound :
      (s : S) (left : List S) (e : E) (es matched rest : List E)
      → ((t : S) (ts : List S) (ms behind : List E)
          → match_round event_matches_stage t ts es ≡ some (ms, behind)
          → IsRound (t ∷ ts) es ms behind)
      → event_matches_stage e s ≡ true
      → after_stage (λ t ts. match_round event_matches_stage t ts es) e es left
        ≡ some (matched, rest)
      → IsRound (s ∷ left) (e ∷ es) matched rest
  taken_IsRound s [] e es matched rest rounds hit h =
      let pairs : ◌≡◌ {A = List E × List E} (e ∷ [], es) (matched, rest) = cc in
      subst (λ q. IsRound (s ∷ []) (e ∷ es) q.0 q.1) pairs
        (record { follows = (hit, tt); in_order = λ xs k. keep k; fewer = omega arith })
  taken_IsRound s (t ∷ ts) e es matched rest rounds hit h =
      let (ms, found, is) =
        with_first-inverse e (match_round event_matches_stage t ts es) matched rest h in
      let r = rounds t ts ms rest found in
      subst (λ m. IsRound (s ∷ t ∷ ts) (e ∷ es) m rest) (sym is)
        (record {
          follows = (hit, r.follows);
          in_order = λ xs k. keep (r.in_order xs k);
          fewer = omega (arith, r.fewer);
        })

  pub match_round-IsRound :
      (s : S) (ss : List S) (es matched rest : List E)
      → match_round event_matches_stage s ss es ≡ some (matched, rest)
      → IsRound (s ∷ ss) es matched rest
  unfolding match_round
  match_round-IsRound s ss [] matched rest h = cc
  match_round-IsRound s ss (e ∷ es) matched rest h = elim (Bool-cases (event_matches_stage e s)) [
    | inl hit ↦
        taken_IsRound s ss e es matched rest (λ t ts ms b k. match_round-IsRound t ts es ms b k) hit
          (sym (one_way hit) ∙ h)
    | inr miss ↦
        let r = match_round-IsRound s ss es matched rest (sym (other_way miss) ∙ h) in
        record {
          follows = r.follows;
          in_order = λ xs k. skip (r.in_order xs k);
          fewer = omega (arith, r.fewer);
        }
  ]
    where
      one_way :
          event_matches_stage e s ≡ true
          → match_round event_matches_stage s ss (e ∷ es)
            ≡ after_stage (λ t ts. match_round event_matches_stage t ts es) e es ss
      one_way hit = rw hit

      other_way :
          event_matches_stage e s ≡ false
          → match_round event_matches_stage s ss (e ∷ es) ≡ match_round event_matches_stage s ss es
      other_way miss = rw miss

  no_element : (x : E) (xs : List E) {A : Type 0} → Subsequence (x ∷ xs) [] → A
  no_element x xs k = elim k [ ]

  pub without_first : (x : E) (xs ys : List E) → Subsequence (x ∷ xs) ys → Subsequence xs ys
  without_first x xs [] k = no_element x xs k
  without_first x xs (y ∷ ys) (skip k) = skip (without_first x xs ys k)
  without_first x xs (y ∷ ys) (keep k) = skip k

  behind_first : (x y : E) (xs ys : List E) → Subsequence (x ∷ xs) (y ∷ ys) → Subsequence xs ys
  behind_first x y xs ys (skip k) = without_first x xs ys k
  behind_first x y xs ys (keep k) = k

  missed_first :
      (s : S) (x y : E) (xs ys : List E)
      → event_matches_stage x s ≡ true
      → event_matches_stage y s ≡ false
      → Subsequence (x ∷ xs) (y ∷ ys)
      → Subsequence (x ∷ xs) ys
  missed_first s x y xs ys hit miss (skip k) = k
  missed_first s x y xs ys hit miss (keep k) = cc

  first_found : (e : E) (o : Option (List E × List E)) → o ≢ none → with_first e o ≢ none
  first_found e none n m = n refl
  first_found e (some q) n m = cc

  taken_finds :
      (left : List S) (e : E) (es ys : List E)
      → ((t : S) (ts : List S)
          → FollowsStages event_matches_stage (t ∷ ts) ys
          → match_round event_matches_stage t ts es ≢ none)
      → FollowsStages event_matches_stage left ys
      → after_stage (λ t ts. match_round event_matches_stage t ts es) e es left ≢ none
  taken_finds [] e es ys rounds f m = cc
  taken_finds (t ∷ ts) e es ys rounds f m =
      first_found e (match_round event_matches_stage t ts es) (rounds t ts f) m

  -- Where some events in order follow the stages, a round finds such events.
  pub match_round-finds :
      (s : S) (ss : List S) (es xs : List E)
      → FollowsStages event_matches_stage (s ∷ ss) xs
      → Subsequence xs es
      → match_round event_matches_stage s ss es ≢ none
  unfolding match_round
  match_round-finds s ss es [] h k = absurd h
  match_round-finds s ss [] (x ∷ xs) h k = no_element x xs k
  match_round-finds s ss (e ∷ es) (x ∷ xs) h k = elim (Bool-cases (event_matches_stage e s)) [
    | inr miss ↦
        rw miss (match_round-finds s ss es (x ∷ xs) h (missed_first s x e xs es h.0 miss k))
    | inl hit ↦ rw hit (
        taken_finds ss e es xs (λ t ts f. match_round-finds t ts es xs f (behind_first x e xs es k))
          h.1)
  ]
