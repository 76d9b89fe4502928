-- ===== src/Ingest/Batch.antt =====
-- `import_evidence_batch_atomically` of src/actionlineage/evidence/ingestion.py.
--
-- What the identifier generator, the clock and the file system do in the turn of a record is its
-- `Turn`. What is raised leaves the state that it was raised in.
pub mod Turns
pub mod Kept
pub mod TurnKeys
pub mod Keys
use action_lineage.Base.{
  ℕ, suc, String, ◌<>◌, Bool, true, false, not, Option, none, some, List, [], ◌∷◌, ◌==◌,
  if◌then◌else◌, Outcome, ok, err, require, ◌>>=◌, ◌>>◌, ℤ, map,
}
use action_lineage.Domain.Value.{Value, Datetime, naive_time, recursion}
use action_lineage.Domain.Event.{Event, Fault, bad_payload}
use action_lineage.Journal.{Platform}
use action_lineage.Journal.Hashing.{
  HashFault, unsupported_label, redaction_failed, non_object, not_an_event, not_json, invalid,
  RedactionBoundary, Bytes, prepare_event_for_append,
}
use action_lineage.Journal.Snapshot.{Snapshot, verified_journal_snapshot}
use action_lineage.Journal.Append.{
  Attempt, Write, AppendError, directory_failed, directory_not_private, lock_timed_out, unreadable,
  unverified, wrong_sequence, write_failed, file_not_private, raised, File, read_file, append_line,
  check_directory, raising,
}
use action_lineage.Evidence.{
  Normalizer, NormalizerError, Entry, rebase_initial_sequence, record_event,
}
use action_lineage.Ingest.{
  EvidenceRecord, IngestOutcome, IngestOutcomeStatus, imported, duplicate, conflict, failed,
  KnownRecord, Known, find_known, payload_with_ingest_metadata, existing_idempotency_entries,
  matched_idempotency_outcome,
}
use action_lineage.Ingest.Exceptions.{
  Exception, journal_error, value_error, other_error, exception_of_hash_fault, exception_of,
  from_append, from_normalizer, safe_error_message,
}
use action_lineage.Ingest.Order.{sorted}
use action_lineage.Ingest.Fingerprint.{fingerprint_preimage}

pub record Turn : Type 0 where
  pub event_id : String
  pub occurred_at : Datetime
  pub observed_at : Datetime
  pub write : Write

-- What a turn of the loop comes to: the next turn, the end of the loop, or an exception.
pub data Step : Type 0 where
  continued stopped : IngestOutcome → Step
  thrown : Exception → Step

abbrev pub failed_outcome : EvidenceRecord → Exception → IngestOutcome
failed_outcome r x = record {
  idempotency_key = r.idempotency_key;
  status = failed;
  event_id = none;
  error = some (safe_error_message x);
}

abbrev pub imported_outcome : EvidenceRecord → Event → IngestOutcome
imported_outcome r e = record {
  idempotency_key = r.idempotency_key;
  status = imported;
  event_id = some e.event_id;
  error = none;
}

abbrev pub entry_of : EvidenceRecord → String → Turn → Entry
entry_of r fingerprint t = record {
  event_id = t.event_id;
  occurred_at = t.occurred_at;
  observed_at = t.observed_at;
  event_type = r.event_type;
  payload = payload_with_ingest_metadata r fingerprint;
  source = r.source;
  principal = r.principal;
  classification = r.classification;
  parent_event_id = none;
  root_event_id = none;
}

-- The `except` clauses of a turn, with the records that are imported so far.
unfoldable pub caught : EvidenceRecord → Known → Exception → Step
caught r [] (journal_error name) = thrown (journal_error name)
caught r (_ ∷ _) (journal_error name) = stopped (failed_outcome r (journal_error name))
caught r batch_seen value_error = continued (failed_outcome r value_error)
caught r batch_seen other_error = thrown other_error

module _ (p : Platform) where
  -- The variables of the loop, and the file.
  pub record Importing : Type 0 where
    pub normalizer : Normalizer
    pub batch_seen : Known
    pub next_sequence : ℕ
    pub previous_event_hash : Option String
    pub file : File p

  abbrev pub either : Option KnownRecord → Option KnownRecord → Option KnownRecord
  either none second = second
  either (some k) second = some k

  module _ (redact : RedactionBoundary) where
    abbrev pub write_prepared :
        Write → File p → Outcome HashFault (Event × Bytes p) → Outcome Exception Event × File p
    write_prepared w file (err f) = (err (exception_of_hash_fault f), file)
    write_prepared w file (ok (e, line)) =
        let (written, file') = append_line p w file line in (from_append written >> ok e, file')

    unfoldable pub append_event_inside_lock :
        Write → Event → Option String → File p → Outcome Exception Event × File p
    append_event_inside_lock w e previous file =
        write_prepared w file (prepare_event_for_append p redact e previous)

    -- A turn after its append.
    abbrev pub after_append :
        EvidenceRecord → String → Importing → Outcome Exception Event × File p → Step × Importing
    after_append r fingerprint s (err x, file) = (caught r s.batch_seen x, record s { file = file })
    after_append r fingerprint s (ok e, file) = (
      continued (imported_outcome r e),
      record s {
        batch_seen =
            (
              r.idempotency_key,
              record { event_id = e.event_id; record_fingerprint = some fingerprint },
            )
            ∷ s.batch_seen;
        next_sequence = suc s.next_sequence;
        previous_event_hash = e.integrity.event_hash;
        file = file;
      },
    )

    -- A turn after the normalizer's call.
    abbrev pub after_record :
        EvidenceRecord
        → String
        → Turn
        → Importing
        → Outcome NormalizerError Event × Normalizer
        → Step × Importing
    after_record r fingerprint t s (err _, n) =
        (caught r s.batch_seen value_error, record s { normalizer = n })
    after_record r fingerprint t s (ok e, n) =
        if e.causality.sequence == s.next_sequence
        then after_append r fingerprint (record s { normalizer = n })
            (append_event_inside_lock t.write e s.previous_event_hash s.file)
        else (caught r s.batch_seen (exception_of wrong_sequence), record s { normalizer = n })

    -- A record with its fingerprint, and the entry that has its key.
    abbrev pub with_match :
        EvidenceRecord → Turn → Importing → String → Option KnownRecord → Step × Importing
    with_match r t s fingerprint (some known) =
        (continued (matched_idempotency_outcome r known fingerprint), s)
    with_match r t s fingerprint none =
        after_record r fingerprint t s (record_event s.normalizer (entry_of r fingerprint t))

    module _ (encode : Value → Outcome Exception (Bytes p)) where
      unfoldable pub record_idempotency_fingerprint :
          EvidenceRecord → Normalizer → Outcome Exception String
      record_idempotency_fingerprint r n = do
        preimage ← encode (fingerprint_preimage r n)
        ok ("sha256:" <> p.hexdigest preimage)

      abbrev pub with_fingerprint :
          Known → EvidenceRecord → Turn → Importing → Outcome Exception String → Step × Importing
      with_fingerprint seen r t s (err x) = (thrown x, s)
      with_fingerprint seen r t s (ok fingerprint) =
          with_match r t s fingerprint
            (either (find_known r.idempotency_key seen) (find_known r.idempotency_key s.batch_seen))

      -- One turn of the loop.
      unfoldable pub import_record : Known → EvidenceRecord → Turn → Importing → Step × Importing
      import_record seen r t s =
          with_fingerprint seen r t s (record_idempotency_fingerprint r s.normalizer)

      abbrev pub with_first :
          IngestOutcome
          → Outcome Exception (List IngestOutcome)
          → Outcome Exception (List IngestOutcome)
      with_first o (ok os) = ok (o ∷ os)
      with_first o (err x) = err x

      abbrev pub Imported : Type 0
      Imported = Outcome Exception (List IngestOutcome) × Importing

      abbrev pub go_on : (Importing → Imported) → Step × Importing → Imported
      go_on rest (continued o, s) = let (os, s') = rest s in (with_first o os, s')
      go_on rest (stopped o, s) = (ok (o ∷ []), s)
      go_on rest (thrown x, s) = (err x, s)

      -- The loop. A turn stands with its record.
      unfoldable pub import_records :
          Known → List EvidenceRecord → (ℕ → Turn) → Importing → Imported
      import_records seen [] turns s = (ok [], s)
      import_records seen (r ∷ rs) turns s =
          go_on (λ s'. import_records seen rs (λ k. turns (suc k)) s')
            (import_record seen r (turns 0) s)

      -- What stands before the loop: the snapshot under the lock, and the normalizer after its
      -- rebase.
      unfoldable pub prepare_import :
          Attempt → Normalizer → File p → Outcome Exception (Snapshot × Normalizer)
      prepare_import a n file = do
        from_append (check_directory a.directory)
        from_append (require a.lock_acquired lock_timed_out)
        from_append (require a.readable unreadable)
        snapshot ←
            from_append
              (raising (verified_journal_snapshot p none none (read_file p a.before a.after file)))
        from_append (require snapshot.ok_flag unverified)
        rebased ← from_normalizer (rebase_initial_sequence n (ℤ.pos snapshot.records_verified))
        ok (snapshot, rebased)

      abbrev pub start_import : Snapshot → Normalizer → File p → Importing
      start_import snapshot n file = record {
        normalizer = n;
        batch_seen = [];
        next_sequence = snapshot.records_verified;
        previous_event_hash = snapshot.last_event_hash;
        file = file;
      }

      abbrev pub import_prepared :
          List EvidenceRecord
          → (ℕ → Turn)
          → File p
          → Outcome Exception (Snapshot × Normalizer)
          → Outcome Exception (List IngestOutcome) × File p
      import_prepared records turns file (err x) = (err x, file)
      import_prepared records turns file (ok (snapshot, n)) =
          let (outcomes, s) =
            import_records (existing_idempotency_entries [] snapshot.events) (sorted records) turns
              (start_import snapshot n file) in
          (outcomes, s.file)

      unfoldable pub import_evidence_batch_atomically :
          Attempt
          → (ℕ → Turn)
          → Normalizer
          → File p
          → List EvidenceRecord
          → Outcome Exception (List IngestOutcome) × File p
      import_evidence_batch_atomically a turns n file records =
          import_prepared records turns file (prepare_import a n file)
