-- ===== src/Base/Sort.antt =====
-- Texts in the order of their code points, and the stable sort of Python's `sorted`.
use Prim.Native.Char.{code}
use Prim.Native.String.{String}
use mathlib.Core.Path.{◌≡◌, refl, ap₂}
use mathlib.Core.Logic.{inl, inr}
use mathlib.Core.Bool.{Bool, true, false}
use mathlib.Core.List.{List, [], ◌∷◌}
use action_lineage.Base.Lists.{All}
use action_lineage.Base.Tests.{ltb, if◌then◌else◌, by_test, Bool-cases, str_eq, eq_iff, eq_refl}

-- `a <= b` on texts.
unfoldable pub text_le : String → String → Bool
text_le String.[] t = true
text_le (String.◌∷◌ c s) String.[] = false
text_le (String.◌∷◌ c s) (String.◌∷◌ d t) =
    if ltb (code c) (code d) then true else if ltb (code d) (code c) then false else text_le s t

abbrev pub texts_eq : List String → List String → Bool
texts_eq [] [] = true
texts_eq [] (_ ∷ _) = false
texts_eq (_ ∷ _) [] = false
texts_eq (s ∷ ss) (t ∷ ts) = if str_eq s t then texts_eq ss ts else false

pub texts_eq-eq : (ss ts : List String) → texts_eq ss ts ≡ true → ss ≡ ts
texts_eq-eq [] [] h = refl
texts_eq-eq [] (_ ∷ _) h = cc
texts_eq-eq (_ ∷ _) [] h = cc
texts_eq-eq (s ∷ ss) (t ∷ ts) h = elim (Bool-cases (str_eq s t)) [
  | inl same ↦ ap₂ ◌∷◌ ((eq_iff s t).0 same) (texts_eq-eq ss ts (rw same at h))
  | inr other ↦ cc (rw other at h)
]

pub texts_eq_refl : (ss : List String) → texts_eq ss ss ≡ true
texts_eq_refl [] = refl
texts_eq_refl (s ∷ ss) = rw (eq_refl s) (texts_eq_refl ss)

module _ {A : Type 0} (comes_first : A → A → Bool) where
  unfoldable pub insert_by : A → List A → List A
  insert_by x [] = x ∷ []
  insert_by x (y ∷ ys) =
      let later = insert_by x ys in if comes_first x y then x ∷ y ∷ ys else y ∷ later

  unfoldable pub sort_by : List A → List A
  sort_by [] = []
  sort_by (x ∷ xs) = insert_by x (sort_by xs)

  insert_by-All : (P : A → Type 0) (x : A) (ys : List A) → P x → All P ys → All P (insert_by x ys)
  unfolding insert_by
  insert_by-All P x [] h hs = (h, tt)
  insert_by-All P x (y ∷ ys) h hs =
      by_test (All P) (comes_first x y) (λ _. (h, hs)) (hs.0, insert_by-All P x ys h hs.1)

  -- A sort keeps what holds of all items.
  pub sort_by-All : (P : A → Type 0) (xs : List A) → All P xs → All P (sort_by xs)
  unfolding sort_by
  sort_by-All P [] h = tt
  sort_by-All P (x ∷ xs) h = insert_by-All P x (sort_by xs) h.0 (sort_by-All P xs h.1)
