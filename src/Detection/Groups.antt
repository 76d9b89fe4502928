-- ===== src/Detection/Groups.antt =====
-- The groups of events are a partition: `_group_events` of src/actionlineage/detection/sequence.py.
use mathlib.Core.List.{append_assoc, append-nil}
use action_lineage.Base.{
  ◌≡◌, refl, sym, ap, ◌∙◌, String, Bool, true, false, List, [], ◌∷◌, ◌++◌, All, Bool-cases, inl,
  inr, if◌then◌else◌, by_test, texts_eq, texts_eq-eq, texts_eq_refl,
}
use action_lineage.Detection.Evaluate.{Groups, add_to_group, group_from, group_events}

module _ {E : Type 0} where
  -- The events of the first group with a key.
  unfoldable pub group_of : List String → Groups E → List E
  group_of key [] = []
  group_of key ((k, es) ∷ groups) = if texts_eq k key then es else group_of key groups

  -- The events of a list that have a key, in their order.
  unfoldable pub with_key : (E → List String) → List String → List E → List E
  with_key key_of key [] = []
  with_key key_of key (e ∷ es) =
      let later = with_key key_of key es in if texts_eq (key_of e) key then e ∷ later else later

  -- No two groups have one key.
  abbrev pub AreApart : Groups E → Type 0
  AreApart [] = Unit {0}
  AreApart ((k, es) ∷ groups) = All (λ g. texts_eq k g.0 ≡ false) groups × AreApart groups

  add_to_group-All :
      (Q : List String → Type 0) (k : List String) (e : E) (groups : Groups E)
      → Q k
      → All (λ g. Q g.0) groups
      → All (λ g. Q g.0) (add_to_group k e groups)
  unfolding add_to_group
  add_to_group-All Q k e [] q h = (q, tt)
  add_to_group-All Q k e ((j, es) ∷ groups) q h =
      by_test (All (λ g. Q g.0)) (texts_eq j k) (λ _. (h.0, h.1))
        (h.0, add_to_group-All Q k e groups q h.1)

  add_to_group-AreApart :
      (k : List String) (e : E) (groups : Groups E)
      → AreApart groups
      → AreApart (add_to_group k e groups)
  unfolding add_to_group
  add_to_group-AreApart k e [] h = (tt, tt)
  add_to_group-AreApart k e ((j, es) ∷ groups) h = elim (Bool-cases (texts_eq j k)) [
    | inl same ↦ rw same (h.0, h.1)
    | inr other ↦ rw other (
      add_to_group-All (λ x. texts_eq j x ≡ false) k e groups other h.0,
      add_to_group-AreApart k e groups h.1,
    )
  ]

  group_of-add :
      (key k : List String) (e : E) (groups : Groups E)
      → group_of key (add_to_group k e groups)
        ≡ group_of key groups ++ (if texts_eq k key then e ∷ [] else [])
  unfolding group_of add_to_group
  group_of-add key k e [] = refl
  group_of-add key k e ((j, es) ∷ groups) = elim (Bool-cases (texts_eq j k)) [
    | inl same ↦
        let is = texts_eq-eq j k same in
        elim (Bool-cases (texts_eq j key)) [
          | inl hit ↦ rw (same, hit, sym (ap (λ x. texts_eq x key) is) ∙ hit) refl
          | inr miss ↦
              rw (same, miss, sym (ap (λ x. texts_eq x key) is) ∙ miss) (sym (append-nil _))
        ]
    | inr other ↦ elim (Bool-cases (texts_eq j key)) [
      | inl hit ↦ elim (Bool-cases (texts_eq k key)) [
        | inl both ↦ cc (sym other ∙ equal hit both)
        | inr miss ↦ rw (other, hit, miss) (sym (append-nil es))
      ]
      | inr miss ↦ rw (other, miss) (group_of-add key k e groups)
    ]
  ]
    where
      equal : texts_eq j key ≡ true → texts_eq k key ≡ true → texts_eq j k ≡ true
      equal hit both =
          ap (λ x. texts_eq j x) (texts_eq-eq k key both ∙ sym (texts_eq-eq j key hit))
          ∙ texts_eq_refl j

module _ {E : Type 0} (key_of : E → List String) where
  group_from-group_of :
      (key : List String) (groups : Groups E) (es : List E)
      → group_of key (group_from key_of groups es) ≡ group_of key groups ++ with_key key_of key es
  unfolding group_from with_key
  group_from-group_of key groups [] = sym (append-nil _)
  group_from-group_of key groups (e ∷ es) =
      group_from-group_of key (add_to_group (key_of e) e groups) es
      ∙ ap (λ x. x ++ with_key key_of key es) (group_of-add key (key_of e) e groups)
      ∙ append_assoc (group_of key groups) _ (with_key key_of key es)
      ∙ ap (λ x. group_of key groups ++ x) (front (texts_eq (key_of e) key))
    where
      front :
          (b : Bool)
          → (if b then e ∷ [] else []) ++ with_key key_of key es
            ≡ (if b then e ∷ with_key key_of key es else with_key key_of key es)
      front true = refl
      front false = refl

  group_from-AreApart :
      (groups : Groups E) (es : List E) → AreApart groups → AreApart (group_from key_of groups es)
  unfolding group_from
  group_from-AreApart groups [] h = h
  group_from-AreApart groups (e ∷ es) h =
      group_from-AreApart (add_to_group (key_of e) e groups) es
        (add_to_group-AreApart (key_of e) e groups h)

  -- The groups of events have different keys, and the group of each key has the events with that
  -- key, all of them and in their order.
  pub group_events-AreApart :
      (es : List E) (key : List String)
      → AreApart (group_events key_of es)
        × (group_of key (group_events key_of es) ≡ with_key key_of key es)
  unfolding group_events group_of
  group_events-AreApart es key = (group_from-AreApart [] es tt, group_from-group_of key [] es)
