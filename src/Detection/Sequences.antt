-- ===== src/Detection/Sequences.antt =====
-- What matches are compared with: subsequences, and sequences of events that match stages in turn.
use action_lineage.Base.{◌≡◌, Bool, true, List, [], ◌∷◌, ◌++◌}

pub data Subsequence {A : Type 0} : List A → List A → Type 0 where
  done : Subsequence [] []
  skip : {x : A} {xs ys : List A} → Subsequence xs ys → Subsequence xs (x ∷ ys)
  keep : {x : A} {xs ys : List A} → Subsequence xs ys → Subsequence (x ∷ xs) (x ∷ ys)

abbrev pub FollowsStages : {E S : Type 0} → (E → S → Bool) → List S → List E → Type 0
FollowsStages matches [] [] = Unit
FollowsStages matches [] (_ ∷ _) = ⊥
FollowsStages matches (_ ∷ _) [] = ⊥
FollowsStages matches (s ∷ ss) (e ∷ es) = (matches e s ≡ true) × FollowsStages matches ss es

abbrev pub concat : {A : Type 0} → List (List A) → List A
concat [] = []
concat (xs ∷ xss) = xs ++ concat xss

pub none-Subsequence : {A : Type 0} (ys : List A) → Subsequence [] ys
none-Subsequence [] = done
none-Subsequence (y ∷ ys) = skip (none-Subsequence ys)
