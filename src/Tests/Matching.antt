-- ===== src/Tests/Matching.antt =====
-- The theorems on matching, applied to events that are numbers, the stage each matches.
use action_lineage.Base.{ℕ, ◌≡◌, ◌≢◌, refl, Bool, none, some, List, [], ◌∷◌, All, ◌==◌, leb, arith}
use action_lineage.Detection.{match_round, match_ordered, within_window}
use action_lineage.Detection.Sequences.{Subsequence, done, keep, skip, concat}
use action_lineage.Detection.Ordered.{
  IsDetected, match_ordered-IsDetected, match_ordered-fuel, match_ordered-finds,
}

-- An event is its stage and its time.
abbrev Seen : Type 0
Seen = ℕ × ℕ

abbrev is_stage : Seen → ℕ → Bool
is_stage e s = e.0 == s

abbrev at_time : Seen → ℕ
at_time e = e.1

abbrev stream : List Seen
stream = (1, 0) ∷ (1, 95) ∷ (2, 100) ∷ []

match_ordered-IsDetected_example :
    All
      (IsDetected is_stage at_time none 1 (2 ∷ []))
      (match_ordered is_stage at_time none 3 1 (2 ∷ []) stream)
    × Subsequence (concat (match_ordered is_stage at_time none 3 1 (2 ∷ []) stream)) stream
match_ordered-IsDetected_example =
    match_ordered-IsDetected is_stage at_time none 1 (2 ∷ []) 3 stream

match_ordered-fuel_example :
    match_ordered is_stage at_time none 3 1 (2 ∷ []) stream
    ≡ match_ordered is_stage at_time none 7 1 (2 ∷ []) stream
match_ordered-fuel_example =
    match_ordered-fuel is_stage at_time none 1 (2 ∷ []) 3 7 stream (omega arith) (omega arith)

match_ordered-finds_example : match_ordered is_stage at_time none 3 1 (2 ∷ []) stream ≢ []
match_ordered-finds_example =
    match_ordered-finds is_stage at_time 1 (2 ∷ []) 3 stream ((1, 95) ∷ (2, 100) ∷ []) (omega arith)
      (refl, (refl, tt)) (skip (keep (keep done)))

-- With a window of ten, the round takes the first event of the first stage, finds the match too
-- long, and starts again behind it: the pair at 95 and 100 is not reported.
window_misses : match_ordered is_stage at_time (some (λ d. leb d 10)) 3 1 (2 ∷ []) stream ≡ []
unfolding match_ordered match_round within_window
window_misses = refl
