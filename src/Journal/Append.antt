-- ===== src/Journal/Append.antt =====
-- `append_event` of src/actionlineage/journal/local.py. What the file system and the lock do in one
-- attempt is an input of it; `none` is a journal that does not exist yet.
use action_lineage.Base.{
  ℕ, Bool, Option, none, some, [], ◌∷◌, ◌++◌, ◌==◌, Outcome, ok, err, require, ◌>>=◌, ◌>>◌,
}
use action_lineage.Domain.Event.{Event}
use action_lineage.Journal.{Platform}
use action_lineage.Journal.Bytes.{take}
use action_lineage.Journal.Hashing.{HashFault, RedactionBoundary, Bytes, prepare_event_for_append}
use action_lineage.Journal.Snapshot.{JournalFileMetadata, FileRead, verified_journal_snapshot}

-- `_ensure_private_directory`
pub data Directory : Type 0 where
  private_directory no_directory shared_directory : Directory

-- `_append_line`: all is written; the file cannot be opened; it is opened, which creates it, and is
-- not private; or a write or sync fails when so many bytes have reached the file.
pub data Write : Type 0 where
  complete open_fails shared_file : Write
  torn : ℕ → Write

pub record Attempt : Type 0 where
  pub directory : Directory
  pub lock_acquired : Bool
  pub readable : Bool
  pub before : JournalFileMetadata
  pub after : JournalFileMetadata
  pub write : Write

pub data AppendError : Type 0 where
  directory_failed directory_not_private lock_timed_out unreadable unverified : AppendError
  wrong_sequence write_failed file_not_private : AppendError
  raised : HashFault → AppendError

abbrev pub raising : {A : Type 0} → Outcome HashFault A → Outcome AppendError A
raising (ok a) = ok a
raising (err f) = err (raised f)

abbrev pub check_directory : Directory → Outcome AppendError (Unit {0})
check_directory private_directory = ok tt
check_directory no_directory = err directory_failed
check_directory shared_directory = err directory_not_private

module _ (p : Platform) where
  abbrev pub File : Type 0
  File = Option (Bytes p)

  abbrev pub content_of : File → Bytes p
  content_of none = []
  content_of (some b) = b

  abbrev pub read_file : JournalFileMetadata → JournalFileMetadata → File → Option (FileRead p)
  read_file before after none = none
  read_file before after (some b) = some (record { content = b; before = before; after = after })

  -- Everything before the write.
  unfoldable pub check_append :
      Attempt → RedactionBoundary → Event → File → Outcome AppendError (Event × Bytes p)
  check_append a redact e file = do
    check_directory a.directory
    require a.lock_acquired lock_timed_out
    require a.readable unreadable
    snapshot ← raising (verified_journal_snapshot p none none (read_file a.before a.after file))
    require snapshot.ok_flag unverified
    require (e.causality.sequence == snapshot.records_verified) wrong_sequence
    raising (prepare_event_for_append p redact e snapshot.last_event_hash)

  unfoldable pub append_line : Write → File → Bytes p → Outcome AppendError (Unit {0}) × File
  append_line complete file line = (ok tt, some (content_of file ++ (line ++ p.newline ∷ [])))
  append_line open_fails file line = (err write_failed, file)
  append_line shared_file file line = (err file_not_private, some (content_of file))
  append_line (torn n) file line =
      (err write_failed, some (content_of file ++ take n (line ++ p.newline ∷ [])))

  abbrev pub commit :
      Write → File → Outcome AppendError (Event × Bytes p) → Outcome AppendError Event × File
  commit w file (err x) = (err x, file)
  commit w file (ok (e, line)) =
      let (written, file') = append_line w file line in (written >> ok e, file')

  -- The event as it was persisted, or the error, and the file that is left.
  unfoldable pub append_event :
      Attempt → RedactionBoundary → Event → File → Outcome AppendError Event × File
  append_event a redact e file = commit a.write file (check_append a redact e file)
