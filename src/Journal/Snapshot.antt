-- ===== src/Journal/Snapshot.antt =====
-- `verified_journal_snapshot` of src/actionlineage/journal/local.py, with the issues and results of
-- journal/verify.py. The messages of the issues, the path and the lock are left out here; a file
-- that cannot be read is a case of `append_event`. A fault is an exception that the code does not
-- catch.
use action_lineage.Base.{
  ℕ, suc, String, str_eq, Bool, true, false, not, ◌&&◌, Option, none, some, List, [], ◌∷◌, ◌++◌,
  length, ◌==◌, if◌then◌else◌, Outcome, ok, err, ◌>>=◌,
}
use action_lineage.Domain.Event.{Event}
use action_lineage.Journal.{Platform}
use action_lineage.Journal.Bytes.{bytes_eq, split_lines, ends_with_newline, rstrip_newlines}
use action_lineage.Journal.Hashing.{
  HashFault, unsupported_label, Bytes, sha256_digest, serialize_event, compute_event_hash,
}

pub data VerificationCode : Type 0 where
  empty_record truncated_record parse_error unsupported_canonicalization : VerificationCode
  sequence_mismatch previous_hash_mismatch event_hash_missing : VerificationCode
  event_hash_mismatch noncanonical_record journal_changed_during_read : VerificationCode
  expected_record_count_mismatch expected_last_hash_mismatch : VerificationCode

-- `str | int | None`
pub data Detail : Type 0 where
  nothing : Detail
  label : String → Detail
  number : ℕ → Detail

pub record Issue : Type 0 where
  pub record_number : ℕ
  pub code : VerificationCode
  pub event_id : Option String
  pub expected : Detail
  pub actual : Detail

abbrev pub plain_issue : ℕ → VerificationCode → Issue
plain_issue n c = record {
  record_number = n;
  code = c;
  event_id = none;
  expected = nothing;
  actual = nothing;
}

abbrev pub event_issue : ℕ → VerificationCode → Event → Detail → Detail → Issue
event_issue n c e x a = record {
  record_number = n;
  code = c;
  event_id = some e.event_id;
  expected = x;
  actual = a;
}

abbrev pub text_detail : Option String → Detail
text_detail none = nothing
text_detail (some s) = label s

-- Python's `==` on `str | None`.
abbrev pub option_eq : Option String → Option String → Bool
option_eq none none = true
option_eq none (some _) = false
option_eq (some _) none = false
option_eq (some s) (some t) = str_eq s t

pub record JournalFileMetadata : Type 0 where
  pub device : ℕ
  pub inode : ℕ
  pub size : ℕ
  pub modified_ns : ℕ

-- What one pass over a file saw: its bytes, and its metadata before and after.
pub record FileRead (p : Platform) : Type 0 where
  pub content : List p.Byte
  pub before : JournalFileMetadata
  pub after : JournalFileMetadata

pub data Verdict : Type 0 where
  accept : Event → Verdict
  reject : Issue → Verdict

-- The events accepted before the loop ended, the hash of the last, and what ended it early.
pub record Scan : Type 0 where
  pub events : List Event
  pub last_event_hash : Option String
  pub issue : Option Issue

pub record Snapshot : Type 0 where
  pub events : List Event
  pub ok_flag : Bool
  pub records_verified : ℕ
  pub last_event_hash : Option String
  pub issues : List Issue
  pub journal_sha256 : Option String

module _ (p : Platform) where
  abbrev pub check_digest :
      ℕ → Event → String → Outcome HashFault String → Outcome HashFault Verdict
  check_digest n e hash (ok computed) = ok (
      if str_eq hash computed
      then accept e
      else reject (event_issue n event_hash_mismatch e (label computed) (label hash)))
  check_digest n e hash (err unsupported_label) = ok (
      reject (
        event_issue n unsupported_canonicalization e
          (label "supported_persisted_event_canonicalization")
          (label e.integrity.canonicalization)))
  check_digest n e hash (err f) = err f

  abbrev pub check_hash : ℕ → Event → Option String → Outcome HashFault Verdict
  check_hash n e none = ok (reject (event_issue n event_hash_missing e nothing nothing))
  check_hash n e (some hash) = check_digest n e hash (compute_event_hash p e)

  -- An event that parses: its line, its place in the order, the chain, and its own hash.
  abbrev check_against : ℕ → Option String → Bytes p → Event → Bytes p → Outcome HashFault Verdict
  check_against index previous raw e canonical =
      if not (bytes_eq p.byte_eq raw (canonical ++ p.newline ∷ []))
      then ok (
          reject (
            event_issue (suc index) noncanonical_record e (label "canonical_event_line")
              (label "journal_record_line")))
      else if not (e.causality.sequence == index)
      then ok (
          reject (
            event_issue (suc index) sequence_mismatch e (number index)
              (number e.causality.sequence)))
      else if not (option_eq e.integrity.previous_event_hash previous)
      then ok (
          reject (
            event_issue (suc index) previous_hash_mismatch e (text_detail previous)
              (text_detail e.integrity.previous_event_hash)))
      else check_hash (suc index) e e.integrity.event_hash

  unfoldable pub check_event : ℕ → Option String → Bytes p → Event → Outcome HashFault Verdict
  check_event index previous raw e =
      serialize_event p e >>= λ canonical. check_against index previous raw e canonical

  abbrev check_parsed : ℕ → Option String → Bytes p → Option Event → Outcome HashFault Verdict
  check_parsed index previous raw none = ok (reject (plain_issue (suc index) parse_error))
  check_parsed index previous raw (some e) = check_event index previous raw e

  abbrev pub is_empty : Bytes p → Bool
  is_empty [] = true
  is_empty (_ ∷ _) = false

  -- One round of the loop, over the line at `index`.
  unfoldable pub check_record : ℕ → Option String → Bytes p → Outcome HashFault Verdict
  check_record index previous raw =
      if not (ends_with_newline p.byte_eq p.newline raw)
      then ok (reject (plain_issue (suc index) truncated_record))
      else if is_empty (rstrip_newlines p.byte_eq p.newline raw)
      then ok (reject (plain_issue (suc index) empty_record))
      else check_parsed index previous raw (p.load (rstrip_newlines p.byte_eq p.newline raw))

  -- What a verdict does to the loop: it breaks, or goes on with the rounds that follow.
  abbrev pub proceed :
      Option String → (Event → Outcome HashFault Scan) → Verdict → Outcome HashFault Scan
  proceed previous rounds (reject i) =
      ok (record { events = []; last_event_hash = previous; issue = some i })
  proceed previous rounds (accept e) =
      rounds e >>= λ rest. ok (record rest { events = e ∷ rest.events })

  -- The loop, which ends at the first record that is refused.
  unfoldable pub scan : ℕ → Option String → List (Bytes p) → Outcome HashFault Scan
  scan index previous [] = ok (record { events = []; last_event_hash = previous; issue = none })
  scan index previous (raw ∷ raws) =
      check_record index previous raw
      >>= proceed previous (λ e. scan (suc index) e.integrity.event_hash raws)

  abbrev pub metadata_eq : JournalFileMetadata → JournalFileMetadata → Bool
  metadata_eq a b =
      a.device == b.device
      && a.inode == b.inode
      && a.size == b.size
      && a.modified_ns == b.modified_ns

  abbrev pub if_issue : Option Issue → List Issue
  if_issue none = []
  if_issue (some i) = i ∷ []

  abbrev pub changed_issue : ℕ → FileRead p → List Issue
  changed_issue n f =
      if metadata_eq f.before f.after then [] else plain_issue n journal_changed_during_read ∷ []

  abbrev pub count_issue : Option ℕ → ℕ → List Issue
  count_issue none n = []
  count_issue (some count) n =
      if n == count
      then []
      else (record {
        record_number = n;
        code = expected_record_count_mismatch;
        event_id = none;
        expected = number count;
        actual = number n;
      })
        ∷ []

  abbrev pub hash_issue : Option String → ℕ → Option String → List Issue
  hash_issue none n last = []
  hash_issue (some hash) n last =
      if option_eq last (some hash)
      then []
      else (record {
        record_number = n;
        code = expected_last_hash_mismatch;
        event_id = none;
        expected = label hash;
        actual = text_detail last;
      })
        ∷ []

  abbrev pub no_issues : List Issue → Bool
  no_issues [] = true
  no_issues (_ ∷ _) = false

  -- The issues that the code appends after the loop, in their order, and the result.
  unfoldable pub conclude :
      Option ℕ → Option String → (ℕ → List Issue) → Option String → Scan → Snapshot
  conclude count hash changed digest s =
      let n = length s.events in
      let issues =
        if_issue s.issue
        ++ (changed n ++ (count_issue count n ++ hash_issue hash n s.last_event_hash)) in
      record {
        events = s.events;
        ok_flag = no_issues issues;
        records_verified = n;
        last_event_hash = s.last_event_hash;
        issues = issues;
        journal_sha256 = if no_issues issues then digest else none;
      }

  -- `none` is a path that does not exist.
  unfoldable pub verified_journal_snapshot :
      Option ℕ → Option String → Option (FileRead p) → Outcome HashFault Snapshot
  unfolding conclude
  verified_journal_snapshot count hash none = ok (
      conclude count hash (λ n. []) none
        (record { events = []; last_event_hash = none; issue = none }))
  verified_journal_snapshot count hash (some f) =
      scan 0 none (split_lines p.byte_eq p.newline f.content) >>= λ s.
      ok (conclude count hash (λ n. changed_issue n f) (some (sha256_digest p f.content)) s)
