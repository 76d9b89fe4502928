-- ===== src/Anchors/Appends.antt =====
-- The log of anchors: `append_journal_anchor_log` and `verify_journal_anchor_log` of
-- src/actionlineage/journal/anchors.py. Of an issue, the code is modelled.
use action_lineage.Base.{
  ℕ, suc, String, Bool, true, false, not, Option, none, some, List, [], ◌∷◌, ◌++◌, if◌then◌else◌,
  ◌==◌, Outcome, ok, err, require, ◌>>=◌, ◌>>◌, ℤ,
}
use action_lineage.Domain.Value.{null, int, str, map, Datetime, naive, aware}
use action_lineage.Journal.{Platform}
use action_lineage.Journal.Hashing.{Bytes}
use action_lineage.Anchors.{JournalAnchor}
use action_lineage.Anchors.Log.{
  log_version_name, Loaded, LogLibrary, LoggedAnchor, LogEntry, LogIssue, LogError, LogScan,
  LogVerification, number_is, text_is, hash_value, value, undecodable, empty_record, parse_error,
  sequence_mismatch, previous_hash_mismatch, entry_hash_missing, entry_hash_mismatch,
  expected_record_count_mismatch, expected_last_hash_mismatch, not_decodable, not_writable,
  unverified_log, log_entry_from_dict, log_entry_dict, written, log_entry_hash,
}

module _ (p : Platform) (lib : LogLibrary p) where
  -- An entry that is read, against the records before it: its hash, or an issue.
  unfoldable pub check_entry :
      ℕ → Option String → LogEntry → Outcome LogError (Outcome LogIssue String)
  check_entry records last e =
      if not (number_is e.sequence (suc records))
      then ok (err sequence_mismatch)
      else if not (text_is e.previous_entry_hash last)
      then ok (err previous_hash_mismatch)
      else if text_is e.entry_hash none
      then ok (err entry_hash_missing)
      else log_entry_hash p lib e >>= λ expected.
          ok (if text_is e.entry_hash (some expected) then ok expected else err entry_hash_mismatch)

  abbrev pub check_read :
      ℕ → Option String → Option LogEntry → Outcome LogError (Outcome LogIssue String)
  check_read records last none = ok (err parse_error)
  check_read records last (some e) = check_entry records last e

  abbrev pub check_loaded : ℕ → Option String → Loaded → Outcome LogError (Outcome LogIssue String)
  check_loaded records last undecodable = err not_decodable
  check_loaded records last (value (map _ fs)) =
      check_read records last (log_entry_from_dict p lib fs)
  check_loaded records last _ = ok (err parse_error)

  unfoldable pub check_line :
      ℕ → Option String → Bytes p → Outcome LogError (Outcome LogIssue String)
  check_line records last [] = ok (err empty_record)
  check_line records last (b ∷ bs) = check_loaded records last (lib.loads (b ∷ bs))

  abbrev pub next_line :
      ℕ
      → Option String
      → (Option String → Outcome LogError LogScan)
      → Outcome LogIssue String
      → Outcome LogError LogScan
  next_line records last rest (err i) =
      ok (record { records_verified = records; last_entry_hash = last; issue = some i })
  next_line records last rest (ok hash) = rest (some hash)

  -- The loop.
  unfoldable pub scan_log : ℕ → Option String → List (Bytes p) → Outcome LogError LogScan
  scan_log records last [] =
      ok (record { records_verified = records; last_entry_hash = last; issue = none })
  scan_log records last (line ∷ lines) =
      check_line records last line
      >>= next_line records last (λ hash. scan_log (suc records) hash lines)

  abbrev pub scan_file : Option (Bytes p) → Outcome LogError LogScan
  scan_file none = scan_log 0 none []
  scan_file (some content) = scan_log 0 none (lib.split content)

  abbrev pub issue_list : Option LogIssue → List LogIssue
  issue_list none = []
  issue_list (some i) = i ∷ []

  abbrev pub count_issues : Option ℕ → ℕ → List LogIssue
  count_issues none n = []
  count_issues (some expected) n = if n == expected then [] else expected_record_count_mismatch ∷ []

  abbrev pub last_issues : Option String → Option String → List LogIssue
  last_issues none last = []
  last_issues (some expected) last =
      if text_is (hash_value last) (some expected) then [] else expected_last_hash_mismatch ∷ []

  abbrev pub is_clean : List LogIssue → Bool
  is_clean [] = true
  is_clean (_ ∷ _) = false

  abbrev pub log_verification : Option ℕ → Option String → LogScan → LogVerification
  log_verification count last s =
      let issues =
        issue_list s.issue
        ++ (count_issues count s.records_verified ++ last_issues last s.last_entry_hash) in
      record {
        ok_flag = is_clean issues;
        records_verified = s.records_verified;
        last_entry_hash = s.last_entry_hash;
        issues = issues;
      }

  unfoldable pub verify_journal_anchor_log :
      Option (Bytes p) → Option ℕ → Option String → Outcome LogError LogVerification
  verify_journal_anchor_log file count last = do
    s ← scan_file file
    ok (log_verification count last s)

  abbrev pub file_content : Option (Bytes p) → Bytes p
  file_content none = []
  file_content (some content) = content

  abbrev pub logged : JournalAnchor → ℕ → LoggedAnchor
  logged a created = record {
    journal_path = a.journal_path;
    record_count = int (ℤ.pos a.record_count);
    last_event_hash = hash_value a.last_event_hash;
    created_at = created;
    version = a.version;
    signature_algorithm = hash_value a.signature_algorithm;
    signature = hash_value a.signature;
  }

  abbrev pub unsigned_entry : LogVerification → LoggedAnchor → ℕ → LogEntry
  unsigned_entry v a created = record {
    sequence = int (ℤ.pos (suc v.records_verified));
    anchor = a;
    previous_entry_hash = hash_value v.last_entry_hash;
    entry_hash = null;
    created_at = created;
    log_version = log_version_name;
  }

  -- `_timestamp` raises for a naive time.
  abbrev pub aware_time : Datetime → Outcome LogError ℕ
  aware_time (naive _) = err not_writable
  aware_time (aware t) = ok t

  abbrev pub sealed_entry : LogEntry → String → LogEntry
  sealed_entry e hash = record e { entry_hash = str hash }

  -- The entry with its hash, and the file after its line is written.
  unfoldable pub write_entry : Option (Bytes p) → LogEntry → Outcome LogError (LogEntry × Bytes p)
  write_entry file e = do
    hash ← log_entry_hash p lib e
    line ← written p lib (lib.dumps (log_entry_dict p lib (sealed_entry e hash)))
    ok (sealed_entry e hash, file_content file ++ (line ++ p.newline ∷ []))

  unfoldable pub append_journal_anchor_log :
      Option (Bytes p) → JournalAnchor → Datetime → Outcome LogError (LogEntry × Bytes p)
  append_journal_anchor_log file a created = do
    v ← verify_journal_anchor_log file none none
    require v.ok_flag unverified_log
    anchored ← aware_time a.created_at
    time ← aware_time created
    write_entry file (unsigned_entry v (logged a anchored) time)
