-- ===== src/Journal/Bytes.antt =====
-- The bytes of a file: its lines, as Python iterates over them, and tests on a line.
pub mod Lines
use action_lineage.Base.{ℕ, zero, suc, Bool, true, false, ◌&&◌, List, [], ◌∷◌, ◌++◌, if◌then◌else◌}

-- A byte in front of the lines that follow.
abbrev pub onto_first {ℓ} : {A : Type ℓ} → A → List (List A) → List (List A)
onto_first b [] = (b ∷ []) ∷ []
onto_first b (line ∷ lines) = (b ∷ line) ∷ lines

module _ {Byte : Type 0} (byte_eq : Byte → Byte → Bool) where
  unfoldable pub bytes_eq : List Byte → List Byte → Bool
  bytes_eq [] [] = true
  bytes_eq [] (_ ∷ _) = false
  bytes_eq (_ ∷ _) [] = false
  bytes_eq (a ∷ xs) (b ∷ ys) = byte_eq a b && bytes_eq xs ys

  module _ (newline : Byte) where
    -- The lines of a binary file, each with its newline.
    unfoldable pub split_lines : List Byte → List (List Byte)
    split_lines [] = []
    split_lines (b ∷ bs) =
        let rest = split_lines bs in
        if byte_eq b newline then (b ∷ []) ∷ rest else onto_first b rest

    -- `raw_line.endswith(b"\n")`
    unfoldable pub ends_with_newline : List Byte → Bool
    ends_with_newline [] = false
    ends_with_newline (b ∷ []) = byte_eq b newline
    ends_with_newline (b ∷ c ∷ bs) = ends_with_newline (c ∷ bs)

    abbrev pub unless_blank : Byte → List Byte → List Byte
    unless_blank b [] = if byte_eq b newline then [] else b ∷ []
    unless_blank b (c ∷ bs) = b ∷ c ∷ bs

    -- `raw_line.rstrip(b"\n")`
    unfoldable pub rstrip_newlines : List Byte → List Byte
    rstrip_newlines [] = []
    rstrip_newlines (b ∷ bs) = unless_blank b (rstrip_newlines bs)

-- The bytes of a file from its lines.
unfoldable pub join_lines {ℓ} : {A : Type ℓ} → List (List A) → List A
join_lines [] = []
join_lines (line ∷ lines) = line ++ join_lines lines

-- `value[:n]`
unfoldable pub take {ℓ} : {A : Type ℓ} → ℕ → List A → List A
take zero xs = []
take (suc n) [] = []
take (suc n) (x ∷ xs) = x ∷ take n xs
