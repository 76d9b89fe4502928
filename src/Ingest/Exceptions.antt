-- ===== src/Ingest/Exceptions.antt =====
-- The exceptions of an import in src/actionlineage/evidence/ingestion.py, told apart by what its
-- except clauses catch: a JournalError, with its class, a ValueError, or another.
use action_lineage.Base.{String, Outcome, ok, err}
use action_lineage.Domain.Value.{naive_time, recursion}
use action_lineage.Domain.Event.{bad_payload}
use action_lineage.Journal.Hashing.{
  HashFault, unsupported_label, redaction_failed, non_object, not_an_event, not_encodable, not_json,
  invalid,
}
use action_lineage.Journal.Append.{
  AppendError, directory_failed, directory_not_private, lock_timed_out, unreadable, unverified,
  wrong_sequence, write_failed, file_not_private, raised,
}
use action_lineage.Evidence.{NormalizerError}

pub data Exception : Type 0 where
  journal_error : String → Exception
  value_error other_error : Exception

unfoldable pub exception_of_hash_fault : HashFault → Exception
exception_of_hash_fault unsupported_label = value_error
exception_of_hash_fault redaction_failed = other_error
exception_of_hash_fault non_object = other_error
exception_of_hash_fault not_an_event = value_error
exception_of_hash_fault not_encodable = value_error
exception_of_hash_fault (not_json naive_time) = value_error
exception_of_hash_fault (not_json _) = other_error
exception_of_hash_fault (invalid (bad_payload recursion)) = other_error
exception_of_hash_fault (invalid _) = value_error

unfoldable pub exception_of : AppendError → Exception
exception_of directory_failed = journal_error "JournalAppendError"
exception_of directory_not_private = journal_error "JournalAppendError"
exception_of lock_timed_out = journal_error "JournalLockError"
exception_of unreadable = journal_error "JournalAppendError"
exception_of unverified = journal_error "JournalAppendError"
exception_of wrong_sequence = journal_error "JournalAppendError"
exception_of write_failed = journal_error "JournalAppendError"
exception_of file_not_private = journal_error "JournalStoragePermissionError"
exception_of (raised f) = exception_of_hash_fault f

abbrev pub from_append : {A : Type 0} → Outcome AppendError A → Outcome Exception A
from_append (ok a) = ok a
from_append (err x) = err (exception_of x)

abbrev pub from_normalizer : {A : Type 0} → Outcome NormalizerError A → Outcome Exception A
from_normalizer (ok a) = ok a
from_normalizer (err _) = err value_error

-- `_safe_error_message`.
abbrev pub safe_error_message : Exception → String
safe_error_message (journal_error name) = name
safe_error_message _ = "evidence record could not be imported"
