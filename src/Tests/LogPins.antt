-- ===== src/Tests/LogPins.antt =====
-- Two logs of one entry, in other words: src/actionlineage/journal/anchors.py.
use action_lineage.Base.{
  ◌≡◌, ◌⊎◌, refl, ap, ◌∙◌, sym, String, Option, none, some, List, [], ◌∷◌, true, ok, ℤ,
}
use action_lineage.Domain.Value.{Value, null, int, str, map, field, text}
use action_lineage.Domain.Value.Members.{get}
use action_lineage.Journal.Hashing.{Bytes}
use action_lineage.Journal.Tamper.{Collision}
use action_lineage.Anchors.Log.{
  LogLibrary, LogEntry, LogVerification, hash_value, hash_input_dict, log_entry_dict,
  log_entry_hash, log_version_name, anchor_from_dict, log_entry_from_dict, required_str,
  required_int, number_is, text_is,
}
use action_lineage.Anchors.Appends.{
  logged, verify_journal_anchor_log, scan_log, check_line, check_entry,
}
use action_lineage.Anchors.Passed.{KeepsLinks, inputs, file_lines}
use action_lineage.Anchors.LogTamper.{verify_journal_anchor_log-pins_entries}
use action_lineage.Tests.Decode.{strokes}
use action_lineage.Tests.Place.{place, place-IsPlatform, Byte}
use action_lineage.Tests.Anchoring.{anchor}
use action_lineage.Tests.Logs.{read_strokes, load_object, cut}

abbrev pinning : LogLibrary place
pinning = record {
  loads = load_object;
  read_time = read_strokes;
  split = cut;
  dumps = λ v. some (some v ∷ []);
}

abbrev pinned_entry : LogEntry
pinned_entry = record {
  sequence = int (ℤ.pos 1);
  anchor = logged place pinning anchor 7;
  previous_entry_hash = null;
  entry_hash = str "sha256:1";
  created_at = 9;
  log_version = log_version_name;
}

abbrev noted : Value → Value
noted (map c fs) = map c (field (text "note") (str "seen") fs)
noted v = v

abbrev pinned_log : Option (Bytes place)
pinned_log = some (some (log_entry_dict place pinning pinned_entry) ∷ none ∷ [])

-- The same with a member that the log does not read.
abbrev noted_log : Option (Bytes place)
noted_log = some (some (noted (log_entry_dict place pinning pinned_entry)) ∷ none ∷ [])

abbrev one_entry : LogVerification
one_entry = record {
  ok_flag = true;
  records_verified = 1;
  last_entry_hash = some "sha256:1";
  issues = [];
}

pinned_verifies : verify_journal_anchor_log place pinning pinned_log none none ≡ ok one_entry
unfolding verify_journal_anchor_log scan_log cut check_line log_entry_dict log_entry_from_dict
    required_str get strokes anchor_from_dict required_int check_entry number_is text_is
    log_entry_hash
pinned_verifies = refl

noted_verifies : verify_journal_anchor_log place pinning noted_log none none ≡ ok one_entry
unfolding verify_journal_anchor_log scan_log cut check_line log_entry_dict log_entry_from_dict
    required_str get strokes anchor_from_dict required_int check_entry number_is text_is
    log_entry_hash
noted_verifies = refl

pinning-KeepsLinks : KeepsLinks place pinning
unfolding hash_input_dict log_entry_dict get
pinning-KeepsLinks e f s t b h k link_e link_f =
    same_hash s t (sym link_e ∙ ap previous (object (h ∙ sym k)) ∙ link_f)
  where
    previous : Value → Value
    previous (map _ fs) = get "previous_entry_hash" fs
    previous v = v

    object :
        {v w : Value}
        → ◌≡◌ {A = Option (List Byte)} (some (some v ∷ [])) (some (some w ∷ []))
        → v ≡ w
    object g = cc

    same_hash : (s t : Option String) → hash_value s ≡ hash_value t → s ≡ t
    same_hash none none g = refl
    same_hash (some x) (some y) g = cc
    same_hash none (some y) g = cc
    same_hash (some x) none g = cc

verify_journal_anchor_log-pins_entries_example :
    (inputs place pinning (file_lines place pinning pinned_log)
      ≡ inputs place pinning (file_lines place pinning noted_log))
    ⊎ Collision place
verify_journal_anchor_log-pins_entries_example =
    verify_journal_anchor_log-pins_entries place pinning place-IsPlatform pinning-KeepsLinks
      pinned_log noted_log one_entry one_entry pinned_verifies noted_verifies refl refl refl refl
