-- ===== src/Tests/Logs.antt =====
-- A log of anchors on a platform where an object is one byte: src/actionlineage/journal/anchors.py.
use action_lineage.Base.{ℕ, suc, ◌≡◌, refl, String, Option, none, some, List, [], ◌∷◌, ◌++◌, ℤ}
use action_lineage.Domain.Value.{Value, null, int, str}
use action_lineage.Journal.{Platform}
use action_lineage.Journal.Hashing.{Bytes}
use action_lineage.Anchors.Log.{
  LogLibrary, Loaded, value, malformed, LogEntry, log_entry_dict, log_version_name,
}
use action_lineage.Anchors.Appends.{logged}
use action_lineage.Tests.Decode.{strokes, count_strokes}
use action_lineage.Tests.Place.{place, Byte}
use action_lineage.Tests.Anchoring.{anchor}

-- No time has an empty text.
abbrev paper : Platform
paper = record place { isoformat = λ n. strokes (suc n) }

abbrev pub read_strokes : String → Option ℕ
read_strokes String.[] = none
read_strokes (String.◌∷◌ c s) = some (count_strokes s)

abbrev pub load_object : List Byte → Loaded
load_object (some v ∷ []) = value v
load_object _ = malformed

abbrev onto : Byte → List (List Byte) → List (List Byte)
onto b [] = (b ∷ []) ∷ []
onto b (line ∷ lines) = (b ∷ line) ∷ lines

unfoldable pub cut : List Byte → List (List Byte)
cut [] = []
cut (none ∷ bs) = [] ∷ cut bs
cut (some v ∷ bs) = onto (some v) (cut bs)

abbrev library : LogLibrary paper
library = record {
  loads = load_object;
  read_time = read_strokes;
  split = cut;
  dumps = λ v. some (some v ∷ []);
}

onto-append :
    (b : Byte) (l : List Byte) (ls more : List (List Byte))
    → onto b ((l ∷ ls) ++ more) ≡ onto b (l ∷ ls) ++ more
onto-append b l ls more = refl

abbrev first_entry : LogEntry
first_entry = record {
  sequence = int (ℤ.pos 1);
  anchor = logged paper library anchor 7;
  previous_entry_hash = null;
  entry_hash = str "sha256:1";
  created_at = 9;
  log_version = log_version_name;
}

abbrev first_content : Bytes paper
first_content = some (log_entry_dict paper library first_entry) ∷ none ∷ []
