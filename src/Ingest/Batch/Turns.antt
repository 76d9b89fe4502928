-- ===== src/Ingest/Batch/Turns.antt =====
-- What one turn of an import leaves in the journal.
use mathlib.Core.List.{append-nil}
use action_lineage.Base.{
  ◌≡◌, ◌⊎◌, inl, inr, refl, sym, ◌∙◌, subst, String, Option, none, some, List, [], ◌∷◌, ◌++◌,
  length, length-append, Outcome, ok, err, arith, by_test, if◌then◌else◌, ◌==◌, ==_iff,
}
use action_lineage.Domain.Value.{Value}
use action_lineage.Domain.Event.{Event}
use action_lineage.Journal.{Platform, IsPlatform}
use action_lineage.Journal.Hashing.{HashFault, RedactionBoundary, Bytes, prepare_event_for_append}
use action_lineage.Journal.Append.{
  Write, complete, open_fails, shared_file, torn, content_of, append_line,
}
use action_lineage.Journal.Verified.{Holds}
use action_lineage.Journal.Prepare.{KeepsPlace, prepare-IsRecord}
use action_lineage.Journal.Chain.{IsRecord}
use action_lineage.Journal.Extend.{Holds-IsDigest, Holds-append}
use action_lineage.Evidence.{Normalizer, NormalizerError, record_event}
use action_lineage.Ingest.Exceptions.{
  Exception, journal_error, value_error, other_error, exception_of_hash_fault, exception_of,
}
use action_lineage.Ingest.{
  EvidenceRecord, IngestOutcome, imported, failed, Known, KnownRecord, same_status,
  matched_idempotency_outcome,
}
use action_lineage.Ingest.Batch.{
  Turn, Step, continued, stopped, thrown, Importing, caught, write_prepared, after_append,
  imported_outcome, after_record, with_match, with_fingerprint, import_record,
  append_event_inside_lock, record_idempotency_fingerprint, entry_of,
}

unfoldable pub id_if_imported : IngestOutcome → List (Option String)
id_if_imported o = if same_status o.status imported then o.event_id ∷ [] else []

module _ (p : Platform) where
  -- Between two turns the file holds a chain, of which the variables of the loop know the end.
  pub record Stands (s : Importing p) (es : List Event) : Type 0 where
    pub holds : Holds p (content_of p s.file) es s.previous_event_hash
    pub counted : s.next_sequence ≡ length es

  -- The file has its old content still, and something behind it.
  abbrev pub Torn : Importing p → Importing p → Type 0
  Torn s s' = (rest : Bytes p) × (content_of p s'.file ≡ content_of p s.file ++ rest)

  -- What a turn leaves.
  abbrev pub StepKept : List Event → Importing p → Step × Importing p → Type 0
  StepKept es s (continued o, s') =
      ((e : Event) × (id_if_imported o ≡ some e.event_id ∷ []) × Stands s' (es ++ e ∷ []))
      ⊎ ((id_if_imported o ≡ []) × Stands s' es)
  StepKept es s (stopped o, s') = (o.status ≡ failed) × (id_if_imported o ≡ []) × Torn s s'
  StepKept es s (thrown x, s') = Torn s s'

  Stands-same :
      (s s' : Importing p) (es : List Event)
      → Stands s es
      → content_of p s'.file ≡ content_of p s.file
      → s'.previous_event_hash ≡ s.previous_event_hash
      → s'.next_sequence ≡ s.next_sequence
      → Stands s' es
  Stands-same s s' es h same hash number = record {
    holds =
        subst (λ c. Holds p c es s'.previous_event_hash) (sym same)
          (subst (Holds p (content_of p s.file) es) (sym hash) h.holds);
    counted = number ∙ h.counted;
  }

  caught-kept :
      (r : EvidenceRecord) (seen : Known) (x : Exception) (s s' : Importing p) (es : List Event)
      → Stands s' es
      → content_of p s'.file ≡ content_of p s.file
      → StepKept es s (caught r seen x, s')
  unfolding caught id_if_imported
  caught-kept r [] (journal_error name) s s' es h same = ([], same ∙ sym (append-nil _))
  caught-kept r (_ ∷ _) (journal_error name) s s' es h same =
      (refl, refl, ([], same ∙ sym (append-nil _)))
  caught-kept r [] value_error s s' es h same = inr (refl, h)
  caught-kept r (_ ∷ _) value_error s s' es h same = inr (refl, h)
  caught-kept r [] other_error s s' es h same = ([], same ∙ sym (append-nil _))
  caught-kept r (_ ∷ _) other_error s s' es h same = ([], same ∙ sym (append-nil _))

  caught-Torn :
      (r : EvidenceRecord) (seen : Known) (name : String) (s s' : Importing p) (es : List Event)
      → Torn s s'
      → StepKept es s (caught r seen (journal_error name), s')
  unfolding caught id_if_imported
  caught-Torn r [] name s s' es h = h
  caught-Torn r (_ ∷ _) name s s' es h = (refl, refl, h)

  imported-id :
      (r : EvidenceRecord) (e : Event)
      → id_if_imported (imported_outcome r e) ≡ some e.event_id ∷ []
  unfolding id_if_imported
  imported-id r e = refl

  matched-id :
      (r : EvidenceRecord) (known : KnownRecord) (fingerprint : String)
      → id_if_imported (matched_idempotency_outcome r known fingerprint) ≡ []
  unfolding id_if_imported matched_idempotency_outcome
  matched-id r known fingerprint = ground arith

module _ (p : Platform) (laws : IsPlatform p) (redact : RedactionBoundary)
    (keeps : KeepsPlace p redact) where
  written-kept :
      (r : EvidenceRecord) (fingerprint : String) (w : Write) (e : Event) (s : Importing p)
      (es : List Event) (m : Outcome HashFault (Event × Bytes p))
      → prepare_event_for_append p redact e s.previous_event_hash ≡ m
      → e.causality.sequence ≡ s.next_sequence
      → Stands p s es
      → StepKept p es s (after_append p redact r fingerprint s (write_prepared p redact w s.file m))
  unfolding append_line exception_of
  written-kept r fingerprint w e s es (err f) h number stands =
      caught-kept p r s.batch_seen (exception_of_hash_fault f) s s es stands refl
  written-kept r fingerprint complete e s es (ok (f, line)) h number stands =
      let at =
        prepare-IsRecord p laws redact keeps e f s.previous_event_hash line
          (Holds-IsDigest p (content_of p s.file) es s.previous_event_hash stands.holds) h in
      let placed =
        subst (λ n. IsRecord p n s.previous_event_hash f (line ++ p.newline ∷ []))
          (number ∙ stands.counted) at in
      inl (
        f,
        imported-id p r f,
        record {
          holds =
              Holds-append p (content_of p s.file) (line ++ p.newline ∷ []) es s.previous_event_hash
                f stands.holds placed;
          counted = omega (arith, stands.counted, length-append es (f ∷ []));
        },
      )
  written-kept r fingerprint open_fails e s es (ok (f, line)) h number stands =
      caught-kept p r s.batch_seen (journal_error "JournalAppendError") s s es stands refl
  written-kept r fingerprint shared_file e s es (ok (f, line)) h number stands =
      caught-Torn p r s.batch_seen "JournalStoragePermissionError" s _ es ([], sym (append-nil _))
  written-kept r fingerprint (torn n) e s es (ok (f, line)) h number stands =
      caught-Torn p r s.batch_seen "JournalAppendError" s _ es (_, refl)

  append-kept :
      (r : EvidenceRecord) (fingerprint : String) (w : Write) (e : Event) (s : Importing p)
      (es : List Event)
      → e.causality.sequence ≡ s.next_sequence
      → Stands p s es
      → StepKept p es s (
          after_append p redact r fingerprint s
            (append_event_inside_lock p redact w e s.previous_event_hash s.file))
  unfolding append_event_inside_lock
  append-kept r fingerprint w e s es number stands =
      written-kept r fingerprint w e s es
        (prepare_event_for_append p redact e s.previous_event_hash) refl number stands

  recorded-kept :
      (r : EvidenceRecord) (fingerprint : String) (t : Turn) (s : Importing p) (es : List Event)
      (result : Outcome NormalizerError Event × Normalizer)
      → Stands p s es
      → StepKept p es s (after_record p redact r fingerprint t s result)
  unfolding exception_of
  recorded-kept r fingerprint t s es (err x, n) stands =
      caught-kept p r s.batch_seen value_error s (record s { normalizer = n }) es
        (Stands-same p s (record s { normalizer = n }) es stands refl refl refl) refl
  recorded-kept r fingerprint t s es (ok e, n) stands =
      let s' : Importing p = record s { normalizer = n } in
      let stands' = Stands-same p s s' es stands refl refl refl in
      by_test (StepKept p es s) (e.causality.sequence == s.next_sequence)
        (λ same.
          append-kept r fingerprint t.write e s' es
            ((==_iff e.causality.sequence s.next_sequence).0 same) stands')
        (caught-kept p r s.batch_seen (journal_error "JournalAppendError") s s' es stands' refl)

  matched-kept :
      (r : EvidenceRecord) (t : Turn) (s : Importing p) (es : List Event) (fingerprint : String)
      (known : Option KnownRecord)
      → Stands p s es
      → StepKept p es s (with_match p redact r t s fingerprint known)
  matched-kept r t s es fingerprint (some known) stands =
      inr (matched-id p r known fingerprint, stands)
  matched-kept r t s es fingerprint none stands =
      recorded-kept r fingerprint t s es (record_event s.normalizer (entry_of r fingerprint t))
        stands

  module _ (encode : Value → Outcome Exception (Bytes p)) where
    fingerprinted-kept :
        (seen : Known) (r : EvidenceRecord) (t : Turn) (s : Importing p) (es : List Event)
        (o : Outcome Exception String)
        → Stands p s es
        → StepKept p es s (with_fingerprint p redact encode seen r t s o)
    fingerprinted-kept seen r t s es (err x) stands = ([], sym (append-nil _))
    fingerprinted-kept seen r t s es (ok fingerprint) stands =
        matched-kept r t s es fingerprint _ stands

    pub import_record-kept :
        (seen : Known) (r : EvidenceRecord) (t : Turn) (s : Importing p) (es : List Event)
        → Stands p s es
        → StepKept p es s (import_record p redact encode seen r t s)
    unfolding import_record
    import_record-kept seen r t s es stands =
        fingerprinted-kept seen r t s es
          (record_idempotency_fingerprint p redact encode r s.normalizer) stands
