-- ===== src/Anchors/Log.antt =====
-- The entries of the log of anchors: src/actionlineage/journal/anchors.py.
--
-- The reading of JSON, of times and of lines, and the writing of JSON, which may raise, are a
-- `LogLibrary`. What the code takes from an object without a check stays a value; a number may be a
-- bool, which Python counts as an int.
use action_lineage.Base.{
  ℕ, String, ◌<>◌, Bool, true, false, Option, none, some, List, if◌then◌else◌, str_eq, ◌==◌,
  Outcome, ok, err, ◌>>=◌, ℤ,
}
use action_lineage.Domain.Value.{Value, null, bool, int, str, map, plain, Fields, end}
use action_lineage.Domain.Value.Members.{get}
use action_lineage.Domain.Event.{entry, nonempty}
use action_lineage.Journal.{Platform}
use action_lineage.Journal.Hashing.{Bytes}

abbrev pub log_version_name : String
log_version_name = "actionlineage.dev/journal-anchor-log-v1"

-- What json.loads makes of bytes: a value, a JSONDecodeError, or an error of their encoding.
pub data Loaded : Type 0 where
  value : Value → Loaded
  malformed undecodable : Loaded

pub record LogLibrary (p : Platform) : Type 0 where
  pub loads : Bytes p → Loaded
  -- `datetime.fromisoformat(...).astimezone(UTC)`, in microseconds; a ValueError is none.
  pub read_time : String → Option ℕ
  pub split : Bytes p → List (Bytes p)
  pub dumps : Value → Option (Bytes p)

-- An anchor as it is read from an object.
pub record LoggedAnchor : Type 0 where
  pub journal_path : String
  pub record_count : Value
  pub last_event_hash : Value
  pub created_at : ℕ
  pub version : String
  pub signature_algorithm : Value
  pub signature : Value

pub record LogEntry : Type 0 where
  pub sequence : Value
  pub anchor : LoggedAnchor
  pub previous_entry_hash : Value
  pub entry_hash : Value
  pub created_at : ℕ
  pub log_version : String

pub data LogIssue : Type 0 where
  empty_record parse_error sequence_mismatch previous_hash_mismatch entry_hash_missing : LogIssue
  entry_hash_mismatch expected_record_count_mismatch expected_last_hash_mismatch : LogIssue

-- An exception that the verification does not catch.
pub data LogError : Type 0 where
  not_decodable not_writable unverified_log : LogError

-- The state of the loop at its end.
pub record LogScan : Type 0 where
  pub records_verified : ℕ
  pub last_entry_hash : Option String
  pub issue : Option LogIssue

pub record LogVerification : Type 0 where
  pub ok_flag : Bool
  pub records_verified : ℕ
  pub last_entry_hash : Option String
  pub issues : List LogIssue

-- `_required_str` and `_required_int`.
unfoldable pub required_str : Fields → String → Option String
required_str raw key = elim (get key raw) [ str s ↦ if nonempty s then some s else none | _ ↦ none ]

unfoldable pub required_int : Fields → String → Option Value
required_int raw key = elim (get key raw) [
  | int i ↦ some (int i)
  | bool b ↦ some (bool b)
  | _ ↦ none
]

abbrev pub and_some : {A B : Type 0} → Option A → (A → Option B) → Option B
and_some none next = none
and_some (some a) next = next a

-- `sequence != expected`, of an int or a bool.
unfoldable pub number_is : Value → ℕ → Bool
number_is (int (ℤ.pos n)) expected = n == expected
number_is (bool true) expected = 1 == expected
number_is (bool false) expected = 0 == expected
number_is _ expected = false

-- `previous_entry_hash != last_entry_hash`.
unfoldable pub text_is : Value → Option String → Bool
text_is null none = true
text_is (str s) (some t) = str_eq s t
text_is _ _ = false

abbrev pub hash_value : Option String → Value
hash_value none = null
hash_value (some h) = str h

module _ (p : Platform) (lib : LogLibrary p) where
  -- `_anchor_from_dict`; none is a JournalAnchorError or a ValueError.
  unfoldable pub anchor_from_dict : Fields → Option LoggedAnchor
  anchor_from_dict raw = and_some (required_str raw "created_at") (λ created_text.
      and_some (lib.read_time created_text) (λ created.
        and_some (required_str raw "anchor_version") (λ version.
          and_some (required_str raw "journal_path") (λ path.
            and_some (required_int raw "record_count") (λ count. some (record {
              journal_path = path;
              record_count = count;
              last_event_hash = get "last_event_hash" raw;
              created_at = created;
              version = version;
              signature_algorithm = get "signature_algorithm" raw;
              signature = get "signature" raw;
            }))))))

  abbrev pub anchor_of_value : Value → Option LoggedAnchor
  anchor_of_value (map _ fs) = anchor_from_dict fs
  anchor_of_value _ = none

  unfoldable pub log_entry_from_dict : Fields → Option LogEntry
  log_entry_from_dict raw = and_some (required_str raw "created_at") (λ created_text.
      and_some (lib.read_time created_text) (λ created.
        and_some (anchor_of_value (get "anchor" raw)) (λ anchor.
          and_some (required_str raw "log_version") (λ version.
            and_some (required_int raw "sequence") (λ sequence. some (record {
              sequence = sequence;
              anchor = anchor;
              previous_entry_hash = get "previous_entry_hash" raw;
              entry_hash = get "entry_hash" raw;
              created_at = created;
              log_version = version;
            }))))))

  abbrev pub logged_anchor_dict : LoggedAnchor → Value
  logged_anchor_dict a = map plain (
      entry "anchor_version" (str a.version) (
        entry "created_at" (str (p.isoformat a.created_at)) (
          entry "journal_path" (str a.journal_path) (
            entry "last_event_hash" a.last_event_hash (
              entry "record_count" a.record_count (
                entry "signature" a.signature
                  (entry "signature_algorithm" a.signature_algorithm end)))))))

  -- `as_dict` and `hash_input_dict`.
  unfoldable pub log_entry_dict : LogEntry → Value
  log_entry_dict e = map plain (
      entry "anchor" (logged_anchor_dict e.anchor) (
        entry "created_at" (str (p.isoformat e.created_at)) (
          entry "entry_hash" e.entry_hash (
            entry "log_version" (str e.log_version) (
              entry "previous_entry_hash" e.previous_entry_hash
                (entry "sequence" e.sequence end))))))

  unfoldable pub hash_input_dict : LogEntry → Value
  hash_input_dict e = log_entry_dict (record e { entry_hash = null })

  abbrev pub written : Option (Bytes p) → Outcome LogError (Bytes p)
  written none = err not_writable
  written (some b) = ok b

  -- `_anchor_log_entry_hash`.
  unfoldable pub log_entry_hash : LogEntry → Outcome LogError String
  log_entry_hash e = do
    bytes ← written (lib.dumps (hash_input_dict e))
    ok ("sha256:" <> p.hexdigest bytes)
