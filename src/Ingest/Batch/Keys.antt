-- ===== src/Ingest/Batch/Keys.antt =====
-- No idempotency key is imported twice.
use action_lineage.Base.{
  ◌≡◌, ◌≢◌, inl, inr, sym, ap, ◌∙◌, subst, ℕ, suc, String, none, some, List, [], ◌∷◌, All, Outcome,
  ok, err, Bool-cases, str_eq, eq_refl,
}
use action_lineage.Domain.Value.{Value}
use action_lineage.Journal.{Platform}
use action_lineage.Journal.Hashing.{RedactionBoundary, Bytes}
use action_lineage.Journal.Snapshot.{Snapshot}
use action_lineage.Journal.Append.{Attempt, File}
use action_lineage.Evidence.{Normalizer}
use action_lineage.Ingest.Order.{sorted}
use action_lineage.Ingest.Exceptions.{Exception}
use action_lineage.Ingest.{
  EvidenceRecord, IngestOutcome, Known, KnownRecord, find_known, event_idempotency_key,
  existing_idempotency_entries,
}
use action_lineage.Ingest.Batch.{
  Turn, Step, continued, stopped, thrown, Importing, import_record, record_idempotency_fingerprint,
  with_first, Imported, go_on, import_records, prepare_import, import_evidence_batch_atomically,
  start_import, import_prepared,
}
use action_lineage.Ingest.Batch.TurnKeys.{
  imported_keys, AreDistinct, existing-absent, StepKeys, fingerprinted-keys,
}

module _ (p : Platform) (redact : RedactionBoundary)
    (encode : Value → Outcome Exception (Bytes p)) where
  -- A key that no entry has.
  abbrev IsNew : Known → Known → String → Type 0
  IsNew seen batch key = (find_known key seen ≡ none) × (find_known key batch ≡ none)

  abbrev FreshKeys : Known → Known → Outcome Exception (List IngestOutcome) → Type 0
  FreshKeys seen batch (err _) = Unit {0}
  FreshKeys seen batch (ok os) =
      All (IsNew seen batch) (imported_keys os) × AreDistinct (imported_keys os)

  behind_key :
      (seen batch : Known) (key : String) (known : KnownRecord) (keys : List String)
      → All (IsNew seen ((key, known) ∷ batch)) keys
      → All (IsNew seen batch) keys × All (λ j. j ≢ key) keys
  unfolding find_known
  behind_key seen batch key known [] h = (tt, tt)
  behind_key seen batch key known (k ∷ keys) h =
      let (new, others) = behind_key seen batch key known keys h.1 in
      let (absent, apart) = not_found (h.0.1) in (((h.0.0, absent), new), (apart, others))
    where
      not_found :
          find_known k ((key, known) ∷ batch) ≡ none → (find_known k batch ≡ none) × (k ≢ key)
      not_found e = elim (Bool-cases (str_eq key k)) [
        | inl same ↦ cc (rw same at e)
        | inr other ↦ (rw other at e, λ same. cc (sym other ∙ ap (str_eq key) same ∙ eq_refl key))
      ]

  continued-keys :
      (seen : Known) (o : IngestOutcome) (s s' : Importing p)
      (result : Outcome Exception (List IngestOutcome))
      → StepKeys p seen s (continued o, s')
      → FreshKeys seen s'.batch_seen result
      → FreshKeys seen s.batch_seen (with_first p redact encode o result)
  unfolding imported_keys
  continued-keys seen o s s' (err x) step h = tt
  continued-keys seen o s s' (ok os) (inl (key, known, is, there, here, batch)) (new, distinct) =
      let (new', others) =
        behind_key seen s.batch_seen key known (imported_keys os)
          (subst (λ b. All (IsNew seen b) (imported_keys os)) batch new) in
      rw is (((there, here), new'), (others, distinct))
  continued-keys seen o s s' (ok os) (inr (is, batch)) (new, distinct) =
      rw is (subst (λ b. All (IsNew seen b) (imported_keys os)) batch new, distinct)

  turn_keys :
      (seen : Known) (rest : Importing p → Imported p redact encode) (step : Step)
      (s s' : Importing p)
      → ((s' : Importing p) → FreshKeys seen s'.batch_seen (rest s').0)
      → StepKeys p seen s (step, s')
      → FreshKeys seen s.batch_seen (go_on p redact encode rest (step, s')).0
  unfolding imported_keys
  turn_keys seen rest (continued o) s s' next h = continued-keys seen o s s' _ h (next s')
  turn_keys seen rest (stopped o) s s' next h = rw h (tt, tt)
  turn_keys seen rest (thrown x) s s' next h = tt

  import_records-keys :
      (seen : Known) (rs : List EvidenceRecord) (turns : ℕ → Turn) (s : Importing p)
      → FreshKeys seen s.batch_seen (import_records p redact encode seen rs turns s).0
  unfolding import_records import_record imported_keys
  import_records-keys seen [] turns s = (tt, tt)
  import_records-keys seen (r ∷ rs) turns s =
      let (step, s') = import_record p redact encode seen r (turns 0) s in
      turn_keys seen (λ s'. import_records p redact encode seen rs (λ k. turns (suc k)) s') step s
        s' (λ s'. import_records-keys seen rs (λ k. turns (suc k)) s')
        (fingerprinted-keys p redact encode seen r (turns 0) s
          (record_idempotency_fingerprint p redact encode r s.normalizer))

  started-keys :
      (turns : ℕ → Turn) (file : File p) (records : List EvidenceRecord)
      (m : Outcome Exception (Snapshot × Normalizer)) (s : Snapshot) (n : Normalizer)
      (os : List IngestOutcome)
      → m ≡ ok (s, n)
      → (import_prepared p redact encode records turns file m).0 ≡ ok os
      → FreshKeys (existing_idempotency_entries [] s.events) [] (ok os)
  started-keys turns file records m s n os begun done =
      let known = existing_idempotency_entries [] s.events in
      subst (FreshKeys known [])
        (sym (ap (λ x. (import_prepared p redact encode records turns file x).0) begun) ∙ done)
        (import_records-keys known (sorted records) turns (start_import p redact encode s n file))

  -- Where an import returns outcomes, the records that are reported as imported have distinct
  -- idempotency keys, and none of them is read from an event that the journal held before, as it
  -- was persisted.
  pub import-AreDistinct :
      (a : Attempt) (turns : ℕ → Turn) (n n' : Normalizer) (file : File p)
      (records : List EvidenceRecord) (s : Snapshot) (os : List IngestOutcome)
      → prepare_import p redact encode a n file ≡ ok (s, n')
      → (import_evidence_batch_atomically p redact encode a turns n file records).0 ≡ ok os
      → AreDistinct (imported_keys os)
        × All (λ key. All (λ e. event_idempotency_key e ≢ some key) s.events) (imported_keys os)
  unfolding import_evidence_batch_atomically
  import-AreDistinct a turns n n' file records s os begun done =
      let (new, distinct) =
        started-keys turns file records (prepare_import p redact encode a n file) s n' os begun
          done in
      (distinct, absent (imported_keys os) new)
    where
      absent :
          (keys : List String)
          → All (IsNew (existing_idempotency_entries [] s.events) []) keys
          → All (λ key. All (λ e. event_idempotency_key e ≢ some key) s.events) keys
      absent [] h = tt
      absent (k ∷ keys) h = ((existing-absent s.events [] k h.0.0).1, absent keys h.1)
