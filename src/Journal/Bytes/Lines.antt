-- ===== src/Journal/Bytes/Lines.antt =====
-- Lines of a file: splitting and joining, and what a line without a newline inside looks like.
use mathlib.Core.List.{append_assoc}
use action_lineage.Base.{
  ◌≡◌, ◌≢◌, ◌↔◌, refl, ap, ◌∙◌, Bool, true, false, List, [], ◌∷◌, ◌++◌, All, Bool-cases, inl, inr,
}
use action_lineage.Journal.Bytes.{
  bytes_eq, split_lines, onto_first, ends_with_newline, rstrip_newlines, join_lines,
}

join-onto_first {ℓ} :
    {A : Type ℓ} (b : A) (lines : List (List A))
    → join_lines (onto_first b lines) ≡ b ∷ join_lines lines
unfolding join_lines
join-onto_first b [] = refl
join-onto_first b (line ∷ lines) = refl

regroup {ℓ} :
    {A : Type ℓ} (n : A) (xs ys zs : List A) → ((xs ++ n ∷ []) ++ ys) ++ zs ≡ xs ++ n ∷ (ys ++ zs)
regroup n xs ys zs = simp append_assoc

module _ {Byte : Type 0} (byte_eq : Byte → Byte → Bool)
    (byte_eq_iff : (a b : Byte) → (byte_eq a b ≡ true) ↔ (a ≡ b)) where
  pub bytes_eq_refl : (xs : List Byte) → bytes_eq byte_eq xs xs ≡ true
  unfolding bytes_eq
  bytes_eq_refl [] = refl
  bytes_eq_refl (x ∷ xs) = rw ((byte_eq_iff x x).1 refl) (bytes_eq_refl xs)

  pub byte-ne : (a b : Byte) → a ≢ b → byte_eq a b ≡ false
  byte-ne a b h = elim (Bool-cases (byte_eq a b)) [
    | inl same ↦ absurd (h ((byte_eq_iff a b).0 same))
    | inr other ↦ other
  ]

  module _ (newline : Byte) where
    abbrev pub NoNewline : List Byte → Type 0
    NoNewline = All (λ b. b ≢ newline)

    -- A whole line of a file.
    pub record IsLine (raw : List Byte) : Type 0 where
      pub body : List Byte
      pub clean : NoNewline body
      pub whole : raw ≡ body ++ newline ∷ []

    pub ends_with_newline-append :
        (xs : List Byte) → ends_with_newline byte_eq newline (xs ++ newline ∷ []) ≡ true
    unfolding ends_with_newline
    ends_with_newline-append [] = (byte_eq_iff newline newline).1 refl
    ends_with_newline-append (x ∷ []) = (byte_eq_iff newline newline).1 refl
    ends_with_newline-append (x ∷ y ∷ ys) = ends_with_newline-append (y ∷ ys)

    pub rstrip-clean :
        (xs : List Byte) → NoNewline xs → rstrip_newlines byte_eq newline (xs ++ newline ∷ []) ≡ xs
    unfolding rstrip_newlines
    rstrip-clean [] h = rw ((byte_eq_iff newline newline).1 refl)
    rstrip-clean (x ∷ []) h = rw ((byte_eq_iff newline newline).1 refl, byte-ne x newline h.0)
    rstrip-clean (x ∷ y ∷ ys) h = rw (rstrip-clean (y ∷ ys) h.1)

    pub split_lines-line :
        (xs ys : List Byte)
        → NoNewline xs
        → split_lines byte_eq newline (xs ++ newline ∷ ys)
          ≡ (xs ++ newline ∷ []) ∷ split_lines byte_eq newline ys
    unfolding split_lines
    split_lines-line [] ys h = rw ((byte_eq_iff newline newline).1 refl)
    split_lines-line (x ∷ xs) ys h = rw (split_lines-line xs ys h.1, byte-ne x newline h.0)

    -- What a file ends in without a newline is one more item.
    pub split_lines-tail :
        (x : Byte) (xs : List Byte)
        → NoNewline (x ∷ xs)
        → split_lines byte_eq newline (x ∷ xs) ≡ (x ∷ xs) ∷ []
    unfolding split_lines
    split_lines-tail x [] h = rw (byte-ne x newline h.0)
    split_lines-tail x (y ∷ ys) h = rw (split_lines-tail y ys h.1, byte-ne x newline h.0)

    pub split_lines-join :
        (lines : List (List Byte)) (rest : List Byte)
        → All IsLine lines
        → split_lines byte_eq newline (join_lines lines ++ rest)
          ≡ lines ++ split_lines byte_eq newline rest
    unfolding join_lines
    split_lines-join [] rest h = refl
    split_lines-join (raw ∷ lines) rest h =
        let first = h.0 in
        rw (first.whole) (
          rw (regroup newline first.body (join_lines lines) rest) (
            split_lines-line first.body (join_lines lines ++ rest) first.clean
            ∙ ap (λ ls. (first.body ++ newline ∷ []) ∷ ls) (split_lines-join lines rest h.1)))

    -- Splitting loses nothing.
    pub join-split_lines : (xs : List Byte) → join_lines (split_lines byte_eq newline xs) ≡ xs
    unfolding split_lines join_lines
    join-split_lines [] = refl
    join-split_lines (x ∷ xs) = elim (Bool-cases (byte_eq x newline)) [
      | inl end ↦ rw end (ap (λ ys. x ∷ ys) (join-split_lines xs))
      | inr inside ↦ rw inside (
          join-onto_first x (split_lines byte_eq newline xs)
          ∙ ap (λ ys. x ∷ ys) (join-split_lines xs))
    ]
