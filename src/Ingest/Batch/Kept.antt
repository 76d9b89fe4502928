-- ===== src/Ingest/Batch/Kept.antt =====
-- What an import leaves in the journal: the old chain with the imported events at its end.
use mathlib.Core.List.{append_assoc, append-nil, map-append}
use action_lineage.Base.{
  ◌+◌, ◌≡◌, ◌<◌, ◌⊎◌, inl, inr, refl, sym, ap, ◌∙◌, subst, ℕ, suc, String, Option, none, some, List,
  [], ◌∷◌, ◌++◌, length, map, Outcome, ok, err, >>=-eq-ok, arith, ok_injective, true, false, Bool,
  if◌then◌else◌, ap₂, ℤ, require,
}
use action_lineage.Domain.Value.{Value}
use action_lineage.Domain.Event.{Event}
use action_lineage.Journal.{Platform, IsPlatform}
use action_lineage.Journal.Hashing.{RedactionBoundary, Bytes}
use action_lineage.Journal.Snapshot.{Snapshot, verified_journal_snapshot}
use action_lineage.Journal.Append.{
  Attempt, File, content_of, AppendError, check_directory, lock_timed_out, unreadable, unverified,
  raising, read_file,
}
use action_lineage.Journal.Verified.{Holds}
use action_lineage.Journal.Prepare.{KeepsPlace}
use action_lineage.Journal.Extend.{raising-eq-ok, require-eq-ok, file-Holds}
use action_lineage.Evidence.{Normalizer, rebase_initial_sequence}
use action_lineage.Ingest.Order.{sorted}
use action_lineage.Ingest.Exceptions.{Exception, from_append, from_normalizer}
use action_lineage.Ingest.{
  EvidenceRecord, IngestOutcome, failed, Known, count_status, same_status,
  existing_idempotency_entries,
}
use action_lineage.Ingest.Batch.Turns.{id_if_imported, Stands, StepKept, import_record-kept}
use action_lineage.Ingest.Batch.{
  Turn, Step, continued, stopped, thrown, Importing, import_record, with_first, Imported, go_on,
  import_records, prepare_import, import_evidence_batch_atomically, start_import,
}

-- The events that the outcomes report as imported.
unfoldable pub imported_ids : List IngestOutcome → List (Option String)
imported_ids [] = []
imported_ids (o ∷ os) = id_if_imported o ++ imported_ids os

module _ (p : Platform) (laws : IsPlatform p) (redact : RedactionBoundary)
    (keeps : KeepsPlace p redact) where
  module _ (encode : Value → Outcome Exception (Bytes p)) where
    -- What is reported of the events that an import added, with the rest of a torn write.
    abbrev Reported : Outcome Exception (List IngestOutcome) → List Event → Bytes p → Type 0
    Reported (err _) new rest = Unit {0}
    Reported (ok os) new rest =
        (imported_ids os ≡ map (λ e. some e.event_id) new)
        × ((0 < count_status failed os) ⊎ (rest ≡ []))

    -- The file holds the chain with new events at its end, and then perhaps a torn line.
    pub record Kept (es : List Event) (result : Outcome Exception (List IngestOutcome))
        (file : File p) : Type 0 where
      pub new : List Event
      pub last : Option String
      pub whole : Bytes p
      pub rest : Bytes p
      pub content : content_of p file ≡ whole ++ rest
      pub holds : Holds p whole (es ++ new) last
      pub reported : Reported result new rest

    stopped_with :
        (s s' : Importing p) (es : List Event) (result : Outcome Exception (List IngestOutcome))
        → Stands p s es
        → (torn_off : (rest : Bytes p) × (content_of p s'.file ≡ content_of p s.file ++ rest))
        → Reported result [] torn_off.0
        → Kept es result s'.file
    stopped_with s s' es result stands (rest, content) reported = record {
      new = [];
      last = s.previous_event_hash;
      whole = content_of p s.file;
      rest = rest;
      content = content;
      holds =
          subst (λ x. Holds p (content_of p s.file) x s.previous_event_hash) (sym (append-nil es))
            stands.holds;
      reported = reported;
    }

    Reported-first :
        (o : IngestOutcome) (result : Outcome Exception (List IngestOutcome)) (new : List Event)
        (rest : Bytes p) (added : List Event)
        → id_if_imported o ≡ map (λ e. some e.event_id) added
        → Reported result new rest
        → Reported (with_first p redact encode o result) (added ++ new) rest
    unfolding count_status imported_ids
    Reported-first o (err x) new rest added ids h = tt
    Reported-first o (ok os) new rest added ids (same, h) = (
      ap₂ ◌++◌ ids same ∙ sym (map-append (λ e. some e.event_id) added new),
      elim h [ inl n ↦ inl (more (same_status o.status failed) n) | inr e ↦ inr e ],
    )
      where
        more :
            (b : Bool)
            → 0 < count_status failed os
            → 0 < (if b then 1 else 0) + count_status failed os
        more true n = omega arith
        more false n = omega (arith, n)

    continued-Kept :
        (o : IngestOutcome) (es added : List Event)
        (result : Outcome Exception (List IngestOutcome)) (file : File p)
        → id_if_imported o ≡ map (λ e. some e.event_id) added
        → Kept (es ++ added) result file
        → Kept es (with_first p redact encode o result) file
    continued-Kept o es added result file ids k = record {
      new = added ++ k.new;
      last = k.last;
      whole = k.whole;
      rest = k.rest;
      content = k.content;
      holds = subst (λ x. Holds p k.whole x k.last) (append_assoc es added k.new) k.holds;
      reported = Reported-first o result k.new k.rest added ids k.reported;
    }

    go_on-Kept :
        (rest : Importing p → Imported p redact encode) (step : Step) (s s' : Importing p)
        (es : List Event)
        → Stands p s es
        → ((s' : Importing p) (es : List Event)
            → Stands p s' es
            → Kept es ((rest s').0) ((rest s').1.file))
        → StepKept p es s (step, s')
        → Kept es
            (go_on p redact encode rest (step, s')).0
            (go_on p redact encode rest (step, s')).1.file
    unfolding imported_ids id_if_imported count_status
    go_on-Kept rest (continued o) s s' es stands next (inl (e, id, stands')) =
        continued-Kept o es (e ∷ []) _ _ id (next s' (es ++ e ∷ []) stands')
    go_on-Kept rest (continued o) s s' es stands next (inr (id, stands')) =
        continued-Kept o es [] _ _ id
          (next s' (es ++ []) (subst (Stands p s') (sym (append-nil es)) stands'))
    go_on-Kept rest (stopped o) s s' es stands next (is_failed, id, torn_off) =
        stopped_with s s' es (ok (o ∷ [])) stands torn_off
          (ap (λ x. x ++ []) id, inl (one_failed o is_failed))
      where
        one_failed : (o : IngestOutcome) → o.status ≡ failed → 0 < count_status failed (o ∷ [])
        one_failed o h = rw h (omega arith)
    go_on-Kept rest (thrown x) s s' es stands next torn_off =
        stopped_with s s' es (err x) stands torn_off tt

    import_records-Kept :
        (seen : Known) (rs : List EvidenceRecord) (turns : ℕ → Turn) (s : Importing p)
        (es : List Event)
        → Stands p s es
        → Kept es
            (import_records p redact encode seen rs turns s).0
            (import_records p redact encode seen rs turns s).1.file
    unfolding import_records imported_ids
    import_records-Kept seen [] turns s es stands =
        stopped_with s s es (ok []) stands ([], sym (append-nil _)) (refl, inr refl)
    import_records-Kept seen (r ∷ rs) turns s es stands =
        let (step, s') = import_record p redact encode seen r (turns 0) s in
        go_on-Kept (λ s'. import_records p redact encode seen rs (λ k. turns (suc k)) s') step s s'
          es stands
          (λ s' es stands'. import_records-Kept seen rs (λ k. turns (suc k)) s' es stands')
          (import_record-kept p laws redact keeps encode seen r (turns 0) s es stands)

    from_append-eq-ok :
        {A : Type 0} (m : Outcome AppendError A) {v : A} → from_append m ≡ ok v → m ≡ ok v
    from_append-eq-ok (ok v) h = cc
    from_append-eq-ok (err x) h = cc

    prepared-Holds :
        (a : Attempt) (n n' : Normalizer) (file : File p) (s : Snapshot)
        → prepare_import p redact encode a n file ≡ ok (s, n')
        → Holds p (content_of p file) s.events s.last_event_hash
          × (s.records_verified ≡ length s.events)
    unfolding prepare_import
    prepared-Holds a n n' file s h =
        let (_, _, h₁) = >>=-eq-ok (from_append (check_directory a.directory)) _ h in
        let (_, _, h₂) = >>=-eq-ok (from_append (require a.lock_acquired lock_timed_out)) _ h₁ in
        let (_, _, h₃) = >>=-eq-ok (from_append (require a.readable unreadable)) _ h₂ in
        let verify =
          raising (verified_journal_snapshot p none none (read_file p a.before a.after file)) in
        let (snapshot, v, h₄) = >>=-eq-ok (from_append verify) _ h₃ in
        let (_, k, h₅) = >>=-eq-ok (from_append (require snapshot.ok_flag unverified)) _ h₄ in
        let (_, _, h₆) =
          >>=-eq-ok (from_normalizer (rebase_initial_sequence n (ℤ.pos snapshot.records_verified)))
            _ h₅ in
        let same : snapshot ≡ s = ap (λ x. x.0) (ok_injective h₆) in
        let held =
          file-Holds p laws redact keeps a.before a.after file snapshot
            (raising-eq-ok _ (from_append-eq-ok verify v))
            (require-eq-ok snapshot.ok_flag unverified (from_append-eq-ok _ k)) in
        subst
          (λ x.
            Holds p (content_of p file) x.events x.last_event_hash
            × (x.records_verified ≡ length x.events))
          same held

    -- With a redaction boundary that keeps an event at its place, an import that gets past the verification of the journal, whatever happens in its turns,
    -- leaves the chain that the file held with new events at its end, and behind them at most the
    -- rest of one torn line. Where it returns outcomes, the new events are those that are reported
    -- as imported, in that order, and without a failure among the outcomes nothing is torn.
    pub import-Kept :
        (a : Attempt) (turns : ℕ → Turn) (n n' : Normalizer) (file : File p)
        (records : List EvidenceRecord) (s : Snapshot)
        → prepare_import p redact encode a n file ≡ ok (s, n')
        → Holds p (content_of p file) s.events s.last_event_hash
          × Kept s.events
              (import_evidence_batch_atomically p redact encode a turns n file records).0
              (import_evidence_batch_atomically p redact encode a turns n file records).1
    unfolding import_evidence_batch_atomically
    import-Kept a turns n n' file records s h =
        let (holds, counted) = prepared-Holds a n n' file s h in
        (
          holds,
          rw h (
              import_records-Kept (existing_idempotency_entries [] s.events) (sorted records) turns
                (start_import p redact encode s n' file) s.events
                (record { holds = holds; counted = counted })),
        )
