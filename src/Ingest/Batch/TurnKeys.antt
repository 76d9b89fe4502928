-- ===== src/Ingest/Batch/TurnKeys.antt =====
-- What a turn of the atomic import does to the idempotency keys of the batch:
-- src/actionlineage/evidence/ingestion.py.
use action_lineage.Base.{
  ◌≡◌, ◌≢◌, ◌⊎◌, inl, inr, refl, sym, ap, ◌∙◌, String, Option, none, some, List, [], ◌∷◌, ◌++◌, All,
  Outcome, ok, err, by_test, Bool-cases, if◌then◌else◌, ◌==◌, str_eq, eq_refl, arith,
}
use action_lineage.Domain.Value.{Value}
use action_lineage.Domain.Event.{Event}
use action_lineage.Journal.{Platform}
use action_lineage.Journal.Hashing.{RedactionBoundary, Bytes}
use action_lineage.Journal.Append.{File}
use action_lineage.Evidence.{Normalizer, NormalizerError, record_event}
use action_lineage.Ingest.Exceptions.{Exception, journal_error, value_error, other_error}
use action_lineage.Ingest.{
  EvidenceRecord, IngestOutcome, imported, same_status, Known, KnownRecord, find_known,
  matched_idempotency_outcome, event_idempotency_key, known_with, existing_idempotency_entries,
}
use action_lineage.Ingest.Batch.{
  Turn, Step, continued, stopped, thrown, Importing, caught, after_append, after_record, with_match,
  with_fingerprint, append_event_inside_lock, either, entry_of,
}

unfoldable pub key_if_imported : IngestOutcome → List String
key_if_imported o = if same_status o.status imported then o.idempotency_key ∷ [] else []

-- The keys of the records that the outcomes report as imported.
unfoldable pub imported_keys : List IngestOutcome → List String
imported_keys [] = []
imported_keys (o ∷ os) = key_if_imported o ++ imported_keys os

-- No text stands twice in a list.
abbrev pub AreDistinct : List String → Type 0
AreDistinct [] = Unit {0}
AreDistinct (k ∷ ks) = All (λ j. j ≢ k) ks × AreDistinct ks

find-known_with :
    (o : Option String) (known : KnownRecord) (batch : Known) (key : String)
    → find_known key (known_with o known batch) ≡ none
    → (find_known key batch ≡ none) × (o ≢ some key)
unfolding find_known
find-known_with none known batch key h = (h, λ e. cc)
find-known_with (some k) known batch key h = elim (Bool-cases (str_eq k key)) [
  | inl same ↦ cc (rw same at h)
  | inr other ↦
      (rw other at h, λ e. cc (sym other ∙ ap (λ x. str_eq x key) (some_eq e) ∙ eq_refl key))
]
  where
    some_eq : ◌≡◌ {A = Option String} (some k) (some key) → k ≡ key
    some_eq e = cc

-- A key without an entry is the key of no event.
pub existing-absent :
    (es : List Event) (known : Known) (key : String)
    → find_known key (existing_idempotency_entries known es) ≡ none
    → (find_known key known ≡ none) × All (λ e. event_idempotency_key e ≢ some key) es
unfolding existing_idempotency_entries
existing-absent [] known key h = (h, tt)
existing-absent (e ∷ es) known key h =
    let (there, others) = existing-absent es _ key h in
    let (before, apart) = find-known_with (event_idempotency_key e) _ known key there in
    (before, (apart, others))

module _ (p : Platform) where
  -- What a turn does to the keys of the batch.
  abbrev pub StepKeys : Known → Importing p → Step × Importing p → Type 0
  StepKeys seen s (continued o, s') =
      ((key : String) × (known : KnownRecord) × (key_if_imported o ≡ key ∷ [])
        × (find_known key seen ≡ none)
        × (find_known key s.batch_seen ≡ none)
        × (s'.batch_seen ≡ (key, known) ∷ s.batch_seen))
      ⊎ ((key_if_imported o ≡ []) × (s'.batch_seen ≡ s.batch_seen))
  StepKeys seen s (stopped o, s') = key_if_imported o ≡ []
  StepKeys seen s (thrown x, s') = Unit {0}

  caught-keys :
      (seen : Known) (r : EvidenceRecord) (batch : Known) (x : Exception) (s s' : Importing p)
      → s'.batch_seen ≡ s.batch_seen
      → StepKeys seen s (caught r batch x, s')
  unfolding caught key_if_imported
  caught-keys seen r [] (journal_error name) s s' h = tt
  caught-keys seen r (_ ∷ _) (journal_error name) s s' h = refl
  caught-keys seen r [] value_error s s' h = inr (refl, h)
  caught-keys seen r (_ ∷ _) value_error s s' h = inr (refl, h)
  caught-keys seen r [] other_error s s' h = tt
  caught-keys seen r (_ ∷ _) other_error s s' h = tt

  matched-key :
      (r : EvidenceRecord) (known : KnownRecord) (fingerprint : String)
      → key_if_imported (matched_idempotency_outcome r known fingerprint) ≡ []
  unfolding key_if_imported matched_idempotency_outcome
  matched-key r known fingerprint = ground arith

  module _ (redact : RedactionBoundary) where
    appended-keys :
        (seen : Known) (r : EvidenceRecord) (fingerprint : String) (s : Importing p)
        (result : Outcome Exception Event × File p)
        → find_known r.idempotency_key seen ≡ none
        → find_known r.idempotency_key s.batch_seen ≡ none
        → StepKeys seen s (after_append p redact r fingerprint s result)
    unfolding key_if_imported
    appended-keys seen r fingerprint s (err x, file) new_there new_here =
        caught-keys seen r s.batch_seen x s (record s { file = file }) refl
    appended-keys seen r fingerprint s (ok e, file) new_there new_here =
        inl (r.idempotency_key, _, refl, new_there, new_here, refl)

    recorded-keys :
        (seen : Known) (r : EvidenceRecord) (fingerprint : String) (t : Turn) (s : Importing p)
        (result : Outcome NormalizerError Event × Normalizer)
        → find_known r.idempotency_key seen ≡ none
        → find_known r.idempotency_key s.batch_seen ≡ none
        → StepKeys seen s (after_record p redact r fingerprint t s result)
    recorded-keys seen r fingerprint t s (err x, n) new_there new_here =
        caught-keys seen r s.batch_seen value_error s (record s { normalizer = n }) refl
    recorded-keys seen r fingerprint t s (ok e, n) new_there new_here =
        let s' : Importing p = record s { normalizer = n } in
        by_test (StepKeys seen s) (e.causality.sequence == s.next_sequence)
          (λ _.
            appended-keys seen r fingerprint s'
              (append_event_inside_lock p redact t.write e s.previous_event_hash s.file) new_there
              new_here)
          (caught-keys seen r s.batch_seen _ s s' refl)

    matched-keys :
        (seen : Known) (r : EvidenceRecord) (t : Turn) (s : Importing p) (fingerprint : String)
        (there here : Option KnownRecord)
        → find_known r.idempotency_key seen ≡ there
        → find_known r.idempotency_key s.batch_seen ≡ here
        → StepKeys seen s (with_match p redact r t s fingerprint (either p there here))
    matched-keys seen r t s fingerprint (some known) here h k =
        inr (matched-key r known fingerprint, refl)
    matched-keys seen r t s fingerprint none (some known) h k =
        inr (matched-key r known fingerprint, refl)
    matched-keys seen r t s fingerprint none none h k =
        recorded-keys seen r fingerprint t s (record_event s.normalizer (entry_of r fingerprint t))
          h k

    module _ (encode : Value → Outcome Exception (Bytes p)) where
      pub fingerprinted-keys :
          (seen : Known) (r : EvidenceRecord) (t : Turn) (s : Importing p)
          (o : Outcome Exception String)
          → StepKeys seen s (with_fingerprint p redact encode seen r t s o)
      fingerprinted-keys seen r t s (err x) = tt
      fingerprinted-keys seen r t s (ok fingerprint) =
          matched-keys seen r t s fingerprint _ _ refl refl
