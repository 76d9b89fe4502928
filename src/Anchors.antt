-- ===== src/Anchors.antt =====
-- Anchors of a journal, and the export of a verified prefix: src/actionlineage/journal/anchors.py.
--
-- A count is a natural number, as `create_journal_anchor` makes them. HMAC-SHA-256 is a parameter;
-- of a file, the bytes are modelled, and `none` is a path that does not exist. A time is a datetime
-- that may be naive, which has no text.
pub mod Pins
pub mod Signed
pub mod Export
pub mod Log
pub mod Appends
pub mod LogScans
pub mod Passed
pub mod LogTamper
pub mod Chained
use action_lineage.Base.{
  ℕ, String, ◌<>◌, Bool, true, false, not, Option, none, some, List, [], ◌∷◌, ◌++◌, if◌then◌else◌,
  str_eq, Outcome, ok, err, require, ◌>>=◌, ◌>>◌, ℤ, all_of,
}
use action_lineage.Domain.Value.{Value, null, int, str, map, plain, end, Datetime, naive, aware}
use action_lineage.Domain.Event.{Event, entry, text_or_null}
use action_lineage.Journal.{Platform}
use action_lineage.Journal.Hashing.{HashFault, encoded, Bytes, serialize_event}
use action_lineage.Journal.Snapshot.{Snapshot, FileRead, verified_journal_snapshot}

abbrev pub anchor_version : String
anchor_version = "actionlineage.dev/journal-anchor-v1"

abbrev pub signature_algorithm_name : String
signature_algorithm_name = "hmac-sha256"

pub record JournalAnchor : Type 0 where
  pub journal_path : String
  pub record_count : ℕ
  pub last_event_hash : Option String
  pub created_at : Datetime
  pub version : String
  pub signature_algorithm : Option String
  pub signature : Option String

pub data AnchorError : Type 0 where
  unverified naive_timestamp same_path : AnchorError
  raised : HashFault → AnchorError

pub data AnchorIssue : Type 0 where
  journal_verification_failed signature_key_missing signature_mismatch : AnchorIssue

pub record AnchorVerification : Type 0 where
  pub ok_flag : Bool
  pub journal : Snapshot
  pub issues : List AnchorIssue

abbrev pub anchor_raising : {A : Type 0} → Outcome HashFault A → Outcome AnchorError A
anchor_raising (ok a) = ok a
anchor_raising (err f) = err (raised f)

abbrev pub is_empty_list : {A : Type 0} → List A → Bool
is_empty_list [] = true
is_empty_list (_ ∷ _) = false

module _ (p : Platform) where
  -- `_timestamp`.
  unfoldable pub timestamp : Datetime → Outcome AnchorError String
  timestamp (naive _) = err naive_timestamp
  timestamp (aware t) = ok (p.isoformat t)

  -- `as_dict` and `unsigned_dict`.
  unfoldable pub anchor_as_dict : JournalAnchor → Outcome AnchorError Value
  anchor_as_dict a = timestamp a.created_at >>= λ created. ok (
      map plain (
        entry "anchor_version" (str a.version) (
          entry "created_at" (str created) (
            entry "journal_path" (str a.journal_path) (
              entry "last_event_hash" (text_or_null a.last_event_hash) (
                entry "record_count" (int (ℤ.pos a.record_count)) (
                  entry "signature" (text_or_null a.signature)
                    (entry "signature_algorithm" (text_or_null a.signature_algorithm) end))))))))

  unfoldable pub unsigned_dict : JournalAnchor → Outcome AnchorError Value
  unsigned_dict a = anchor_as_dict (record a { signature = none })

  module _ (hmac : Bytes p → Bytes p → String) where
    -- `_anchor_signature`.
    unfoldable pub anchor_signature : JournalAnchor → Bytes p → Outcome AnchorError String
    anchor_signature a key = do
      dict ← unsigned_dict a
      bytes ← anchor_raising (encoded (p.dumps dict))
      ok (signature_algorithm_name <> (":" <> hmac key bytes))

    abbrev pub unsigned_anchor : String → Datetime → Snapshot → JournalAnchor
    unsigned_anchor path created s = record {
      journal_path = path;
      record_count = s.records_verified;
      last_event_hash = s.last_event_hash;
      created_at = created;
      version = anchor_version;
      signature_algorithm = none;
      signature = none;
    }

    -- The anchor of a verified journal, signed if there is a key.
    unfoldable pub sign_anchor :
        Option (Bytes p) → JournalAnchor → Outcome AnchorError JournalAnchor
    sign_anchor none a = ok a
    sign_anchor (some key) a = do
      signed ←
          anchor_signature (record a { signature_algorithm = some signature_algorithm_name }) key
      ok (record a { signature_algorithm = some signature_algorithm_name; signature = some signed })

    unfoldable pub create_journal_anchor :
        String
        → Option (FileRead p)
        → Option (Bytes p)
        → Datetime
        → Outcome AnchorError JournalAnchor
    create_journal_anchor path file key created = do
      verification ← anchor_raising (verified_journal_snapshot p none none file)
      require verification.ok_flag unverified
      sign_anchor key (unsigned_anchor path created verification)

    abbrev pub matching : String → String → List AnchorIssue
    matching given computed = if str_eq given computed then [] else signature_mismatch ∷ []

    unfoldable pub signature_issues :
        JournalAnchor → Option String → Option (Bytes p) → Outcome AnchorError (List AnchorIssue)
    signature_issues a none key = ok []
    signature_issues a (some given) none = ok (signature_key_missing ∷ [])
    signature_issues a (some given) (some key) =
        anchor_signature a key >>= λ computed. ok (matching given computed)

    abbrev pub journal_issues : Snapshot → List AnchorIssue
    journal_issues s = if s.ok_flag then [] else journal_verification_failed ∷ []

    unfoldable pub verify_journal_anchor :
        Option (FileRead p)
        → JournalAnchor
        → Option (Bytes p)
        → Outcome AnchorError AnchorVerification
    verify_journal_anchor file a key = do
      signing ← signature_issues a a.signature key
      verification ←
          anchor_raising (verified_journal_snapshot p (some a.record_count) a.last_event_hash file)
      ok (record {
        ok_flag = is_empty_list (signing ++ journal_issues verification);
        journal = verification;
        issues = signing ++ journal_issues verification;
      })

  -- What `export_verified_prefix` writes.
  unfoldable pub exported : List Event → Outcome HashFault (Bytes p)
  exported [] = ok []
  exported (e ∷ es) = do
    line ← serialize_event p e
    rest ← exported es
    ok ((line ++ p.newline ∷ []) ++ rest)

  -- The snapshot, and the bytes of the output file.
  unfoldable pub export_verified_prefix :
      Bool
      → Option ℕ
      → Option String
      → Option (FileRead p)
      → Outcome AnchorError (Snapshot × Bytes p)
  export_verified_prefix is_same_path count hash file = do
    require (not is_same_path) same_path
    snapshot ← anchor_raising (verified_journal_snapshot p count hash file)
    content ← anchor_raising (exported snapshot.events)
    ok (snapshot, content)
