-- ===== src/Journal/Torn.antt =====
-- An append whose write fails part of the way, and errors that leave the file alone.
use mathlib.Core.List.{append-nil}
use action_lineage.Base.{
  ℕ, zero, suc, String, ◌≡◌, ◌≢◌, refl, ap, ◌∙◌, true, false, Option, none, some, List, [], ◌∷◌,
  ◌++◌, All, length, ◌<◌, ◌≤◌, arith, ok, err,
}
use action_lineage.Domain.Event.{Event}
use action_lineage.Journal.{Platform, IsPlatform}
use action_lineage.Journal.Bytes.{take, split_lines, ends_with_newline}
use action_lineage.Journal.Bytes.Lines.{split_lines-tail, byte-ne}
use action_lineage.Journal.Hashing.{RedactionBoundary, Bytes}
use action_lineage.Journal.Snapshot.{
  Snapshot, JournalFileMetadata, Scan, truncated_record, plain_issue, scan, check_record,
  metadata_eq, verified_journal_snapshot,
}
use action_lineage.Journal.Append.{
  Attempt, private_directory, torn, unverified, write_failed, File, check_append, append_event,
  append_line,
}
use action_lineage.Journal.Scan.{after, serialize_event-clean}
use action_lineage.Journal.Verified.{Holds, scan-Holds}
use action_lineage.Journal.Extend.{check_append-eq-ok, after-length}
use action_lineage.Journal.Prepare.{prepare-IsPrepared}

take-clean {ℓ κ} :
    {A : Type ℓ} (P : A → Type κ) (n : ℕ) (xs ys : List A)
    → All P xs
    → n ≤ length xs
    → All P (take n (xs ++ ys))
unfolding take
take-clean P zero xs ys h k = tt
take-clean P (suc n) [] ys h k = absurd (omega arith)
take-clean P (suc n) (x ∷ xs) ys h k = (h.0, take-clean P n xs ys h.1 (omega arith))

take-ne-nil {ℓ} :
    {A : Type ℓ} (n : ℕ) (xs ys : List A) → 0 < n → n ≤ length xs → take n (xs ++ ys) ≢ []
unfolding take
take-ne-nil zero xs ys h k e = absurd (omega arith)
take-ne-nil (suc n) [] ys h k e = absurd (omega arith)
take-ne-nil (suc n) (x ∷ xs) ys h k e = cc

-- The file that a torn append leaves, verified: all events that were there, and one issue.
abbrev pub torn_snapshot : List Event → Option String → Snapshot
torn_snapshot es last = record {
  events = es;
  ok_flag = false;
  records_verified = length es;
  last_event_hash = last;
  issues = plain_issue (suc (length es)) truncated_record ∷ [];
  journal_sha256 = none;
}

module _ (p : Platform) (laws : IsPlatform p) where
  unended :
      (xs : Bytes p)
      → All (λ b. b ≢ p.newline) xs
      → ends_with_newline p.byte_eq p.newline xs ≡ false
  unfolding ends_with_newline
  unended [] h = refl
  unended (x ∷ []) h = byte-ne p.byte_eq laws.byte_eq_iff x p.newline h.0
  unended (x ∷ y ∷ ys) h = unended (y ∷ ys) h.1

  -- What the loop finds in a chain followed by a piece of a line.
  abbrev torn_scan : List Event → Option String → Scan
  torn_scan es last = record {
    events = es ++ [];
    last_event_hash = last;
    issue = some (plain_issue (suc (after es 0)) truncated_record);
  }

  scan-torn :
      (content piece : Bytes p) (es : List Event) (last : Option String)
      → Holds p content es last
      → All (λ b. b ≢ p.newline) piece
      → piece ≢ []
      → scan p 0 none (split_lines p.byte_eq p.newline (content ++ piece)) ≡ ok (torn_scan es last)
  unfolding scan check_record
  scan-torn content [] es last h clean full = absurd (full refl)
  scan-torn content (x ∷ xs) es last h clean full =
      scan-Holds p laws content (x ∷ xs) es last h
      ∙ rw (split_lines-tail p.byte_eq laws.byte_eq_iff p.newline x xs clean)
          (rw (unended (x ∷ xs) clean))

  metadata_eq_refl : (m : JournalFileMetadata) → metadata_eq p m m ≡ true
  metadata_eq_refl m = ground arith

  torn_scan-eq :
      (es : List Event) (last : Option String)
      → torn_scan es last ≡ record {
        events = es;
        last_event_hash = last;
        issue = some (plain_issue (suc (length es)) truncated_record);
      }
  torn_scan-eq es last = λ i. record {
    events = append-nil es i;
    last_event_hash = last;
    issue = some (plain_issue (suc (after_is i)) truncated_record);
  }
    where
      after_is : after es 0 ≡ length es
      after_is = omega (arith, after-length es 0)

  snapshot-torn :
      (content piece : Bytes p) (es : List Event) (last : Option String) (m : JournalFileMetadata)
      → Holds p content es last
      → All (λ b. b ≢ p.newline) piece
      → piece ≢ []
      → verified_journal_snapshot p none none
          (some (record { content = content ++ piece; before = m; after = m }))
        ≡ ok (torn_snapshot es last)
  unfolding verified_journal_snapshot
  snapshot-torn content piece es last m h clean full =
      rw (scan-torn content piece es last h clean full ∙ ap ok (torn_scan-eq es last))
        (rw (metadata_eq_refl m))

  prepared-clean :
      (a : Attempt) (redact : RedactionBoundary) (e f : Event) (file : File p) (line : Bytes p)
      → check_append p a redact e file ≡ ok (f, line)
      → All (λ b. b ≢ p.newline) line
  prepared-clean a redact e f file line checked =
      let (s, _, _, _, prepared) = check_append-eq-ok p redact a e f file line checked in
      (serialize_event-clean p laws f line
        (prepare-IsPrepared p redact e f s.last_event_hash line prepared).serialized).0

  refused_flag :
      (b : Attempt) (redact : RedactionBoundary) (g : Event) (content piece : Bytes p)
      (es : List Event) (last : Option String)
      → Holds p content es last
      → All (λ b. b ≢ p.newline) piece
      → piece ≢ []
      → b.directory ≡ private_directory
      → b.lock_acquired ≡ true
      → b.readable ≡ true
      → append_event p b redact g (some (content ++ piece))
        ≡ (err unverified, some (content ++ piece))
  unfolding append_event check_append verified_journal_snapshot
  refused_flag b redact g content piece es last h clean full dir lock readable =
      rw (dir, lock, readable) (rw (scan-torn content piece es last h clean full))

  -- When the write of an append to a journal stops after some bytes of the line, all events that
  -- the journal held still verify, with their last hash; the verifier reports one truncated
  -- record behind them, and the next append finds the journal unverified and leaves it alone.
  pub torn-append :
      (a b : Attempt) (redact redact' : RedactionBoundary) (e f g : Event) (content line : Bytes p)
      (es : List Event) (last : Option String) (n : ℕ) (m : JournalFileMetadata)
      → Holds p content es last
      → check_append p a redact e (some content) ≡ ok (f, line)
      → a.write ≡ torn n
      → 0 < n
      → n ≤ length line
      → b.directory ≡ private_directory
      → b.lock_acquired ≡ true
      → b.readable ≡ true
      → (piece : Bytes p) × (append_event p a redact e (some content)
          ≡ (err write_failed, some (content ++ piece)))
        × (verified_journal_snapshot p none none
              (some (record { content = content ++ piece; before = m; after = m }))
            ≡ ok (torn_snapshot es last))
        × (append_event p b redact' g (some (content ++ piece))
            ≡ (err unverified, some (content ++ piece)))
  unfolding append_event append_line
  torn-append a b redact redact' e f g content line es last n m h checked write pos le dir lock
        readable =
      let piece = take n (line ++ p.newline ∷ []) in
      let clean =
        take-clean (λ b. b ≢ p.newline) n line (p.newline ∷ [])
          (prepared-clean a redact e f (some content) line checked) le in
      let full = take-ne-nil n line (p.newline ∷ []) pos le in
      (
        piece,
        rw (checked, write),
        snapshot-torn content piece es last m h clean full,
        refused_flag b redact' g content piece es last h clean full dir lock readable,
      )
