-- ===== src/Journal/Extend.antt =====
-- What a successful append leaves: the old journal with one more record of its chain.
use mathlib.Core.List.{append_assoc, append-nil}
use action_lineage.Base.{
  ok_injective, inl, inr, ℕ, suc, String, ◌≡◌, refl, sym, ap, ◌∙◌, subst, Bool, true, false, Option,
  none, some, List, [], ◌∷◌, ◌++◌, length, ◌+◌, arith, Outcome, ok, err, require, >>=-eq-ok, ==_iff,
  ◌==◌,
}
use action_lineage.Domain.Event.{Event}
use action_lineage.Journal.{Platform, IsPlatform}
use action_lineage.Journal.Bytes.{join_lines}
use action_lineage.Journal.Hashing.{HashFault, RedactionBoundary, Bytes, prepare_event_for_append}
use action_lineage.Journal.Snapshot.{Snapshot, JournalFileMetadata, verified_journal_snapshot}
use action_lineage.Journal.Append.{
  Attempt, complete, AppendError, File, content_of, read_file, check_append, append_event,
  append_line, raising, commit, Write, open_fails, shared_file, torn, check_directory,
  lock_timed_out, unreadable, unverified, wrong_sequence,
}
use action_lineage.Journal.Chain.{IsRecord, Chain}
use action_lineage.Journal.Scan.{after}
use action_lineage.Journal.Verified.{Holds, snapshot_sound}
use action_lineage.Journal.Prepare.{IsDigest, KeepsPlace, prepare-IsRecord}
use action_lineage.Journal.Integrity.{compute_event_hash-IsHash}

pub after-length : (es : List Event) (n : ℕ) → after es n ≡ length es + n
after-length [] n = omega arith
after-length (e ∷ es) n = omega (arith, after-length es (suc n))

module _ (p : Platform) where
  pub Chain-append :
      (index : ℕ) (previous : Option String) (es : List Event) (raws : List (Bytes p))
      (last : Option String) (e : Event) (raw : Bytes p)
      → Chain p index previous es raws last
      → IsRecord p (after es index) last e raw
      → Chain p index previous (es ++ e ∷ []) (raws ++ raw ∷ []) e.integrity.event_hash
  Chain-append index previous [] [] last e raw c r =
      (subst (λ h. IsRecord p index h e raw) (sym c) r, refl)
  Chain-append index previous [] (_ ∷ _) last e raw c r = absurd c
  Chain-append index previous (_ ∷ _) [] last e raw c r = absurd c
  Chain-append index previous (f ∷ es) (l ∷ raws) last e raw c r =
      (c.0, Chain-append (suc index) f.integrity.event_hash es raws last e raw c.1 r)

  join-append :
      (lines : List (Bytes p)) (raw : Bytes p)
      → join_lines (lines ++ raw ∷ []) ≡ join_lines lines ++ raw
  unfolding join_lines
  join-append [] raw = simp append-nil
  join-append (l ∷ lines) raw =
      rw (join-append lines raw) (sym (append_assoc l (join_lines lines) raw))

  pub Holds-append :
      (content raw : Bytes p) (es : List Event) (last : Option String) (e : Event)
      → Holds p content es last
      → IsRecord p (length es) last e raw
      → Holds p (content ++ raw) (es ++ e ∷ []) e.integrity.event_hash
  Holds-append content raw es last e h r = record {
    lines = h.lines ++ raw ∷ [];
    bytes = ap (λ c. c ++ raw) h.bytes ∙ sym (join-append h.lines raw);
    chain =
        Chain-append 0 none es h.lines last e raw h.chain
          (subst (λ n. IsRecord p n last e raw) (omega (arith, after-length es 0)) r);
  }

module _ (p : Platform) where
  Chain-IsDigest :
      (index : ℕ) (previous : Option String) (es : List Event) (raws : List (Bytes p))
      (last : Option String)
      → IsDigest p previous
      → Chain p index previous es raws last
      → IsDigest p last
  Chain-IsDigest index previous [] [] last d c = subst (IsDigest p) c d
  Chain-IsDigest index previous [] (_ ∷ _) last d c = absurd c
  Chain-IsDigest index previous (_ ∷ _) [] last d c = absurd c
  Chain-IsDigest index previous (e ∷ es) (raw ∷ raws) last d (r, c) =
      let made = compute_event_hash-IsHash p e r.hash r.digest in
      Chain-IsDigest (suc index) e.integrity.event_hash es raws last
        (inr (made.bytes, r.hashed ∙ ap some made.digest)) c

  -- The last hash of a journal that holds a chain is a digest.
  pub Holds-IsDigest :
      (content : Bytes p) (es : List Event) (last : Option String)
      → Holds p content es last
      → IsDigest p last
  Holds-IsDigest content es last h = Chain-IsDigest 0 none es h.lines last (inl refl) h.chain

pub raising-eq-ok : {A : Type 0} (m : Outcome HashFault A) {a : A} → raising m ≡ ok a → m ≡ ok a
raising-eq-ok (ok a) h = cc
raising-eq-ok (err f) h = cc

pub require-eq-ok : {E : Type 0} {u : Unit {0}} (b : Bool) (e : E) → require b e ≡ ok u → b ≡ true
require-eq-ok true e h = refl
require-eq-ok false e h = cc

module _ (p : Platform) (redact : RedactionBoundary) where
  pub check_append-eq-ok :
      (a : Attempt) (e f : Event) (file : File p) (line : Bytes p)
      → check_append p a redact e file ≡ ok (f, line)
      → (s : Snapshot) × (verified_journal_snapshot p none none (read_file p a.before a.after file)
          ≡ ok s)
        × (s.ok_flag ≡ true)
        × (e.causality.sequence ≡ s.records_verified)
        × (prepare_event_for_append p redact e s.last_event_hash ≡ ok (f, line))
  unfolding check_append
  check_append-eq-ok a e f file line h =
      let (_, _, h₁) = >>=-eq-ok (check_directory a.directory) _ h in
      let (_, _, h₂) = >>=-eq-ok (require a.lock_acquired lock_timed_out) _ h₁ in
      let (_, _, h₃) = >>=-eq-ok (require a.readable unreadable) _ h₂ in
      let (s, v, h₄) =
        >>=-eq-ok
          (raising (verified_journal_snapshot p none none (read_file p a.before a.after file))) _
          h₃ in
      let (_, k, h₅) = >>=-eq-ok (require s.ok_flag unverified) _ h₄ in
      let (_, n, h₆) =
        >>=-eq-ok (require (e.causality.sequence == s.records_verified) wrong_sequence) _ h₅ in
      (
        s,
        raising-eq-ok _ v,
        require-eq-ok s.ok_flag unverified k,
        (==_iff e.causality.sequence s.records_verified).0 (require-eq-ok _ wrong_sequence n),
        raising-eq-ok _ h₆,
      )

module _ (p : Platform) where
  -- Before an append the file holds a chain, and after it the chain with one more event.
  pub record Extends (before after : File p) (f : Event) : Type 0 where
    pub events : List Event
    pub last : Option String
    pub added : Bytes p
    pub held : Holds p (content_of p before) events last
    pub after_is : after ≡ some (content_of p before ++ added)
    pub holds : Holds p (content_of p before ++ added) (events ++ f ∷ []) f.integrity.event_hash
    pub number : f.causality.sequence ≡ length events
    pub linked : f.integrity.previous_event_hash ≡ last

module _ (p : Platform) (laws : IsPlatform p) (redact : RedactionBoundary)
    (keeps : KeepsPlace p redact) where
  commit-ok :
      (w : Write) (file file' : File p) (m : Outcome AppendError (Event × Bytes p)) (f : Event)
      → commit p w file m ≡ (ok f, file')
      → (line : Bytes p) × (m ≡ ok (f, line))
        × (file' ≡ some (content_of p file ++ (line ++ p.newline ∷ [])))
  unfolding append_line
  commit-ok w file file' (err x) f h = cc (ap (λ r. r.0) h)
  commit-ok complete file file' (ok (g, line)) f h =
      let same : g ≡ f = ok_injective (ap (λ r. r.0) h) in
      (line, ap (λ x. ok (x, line)) same, sym (ap (λ r. r.1) h))
  commit-ok open_fails file file' (ok (g, line)) f h = cc (ap (λ r. r.0) h)
  commit-ok shared_file file file' (ok (g, line)) f h = cc (ap (λ r. r.0) h)
  commit-ok (torn n) file file' (ok (g, line)) f h = cc (ap (λ r. r.0) h)

  pub file-Holds :
      (a b : JournalFileMetadata) (file : File p) (s : Snapshot)
      → verified_journal_snapshot p none none (read_file p a b file) ≡ ok s
      → s.ok_flag ≡ true
      → Holds p (content_of p file) s.events s.last_event_hash
        × (s.records_verified ≡ length s.events)
  unfolding verified_journal_snapshot
  file-Holds a b none s h k =
      let same = ok_injective h in
      subst (λ x. Holds p [] x.events x.last_event_hash × (x.records_verified ≡ length x.events))
        same (record { lines = []; bytes = unfold join_lines in refl; chain = refl }, refl)
  file-Holds a b (some content) s h k =
      let v =
        snapshot_sound p laws none none (record { content = content; before = a; after = b }) s h
          k in
      (v.holds, v.records)

  -- With a redaction boundary that keeps an event at its place, an append that returns an event has
  -- added one line to the file. The file held a chain before,
  -- and holds the chain with that event at its end, numbered and linked behind the others.
  pub append-Extends :
      (a : Attempt) (e f : Event) (file file' : File p)
      → append_event p a redact e file ≡ (ok f, file')
      → Extends p file file' f
  unfolding append_event
  append-Extends a e f file file' h =
      let (line, checked, written) =
        commit-ok a.write file file' (check_append p a redact e file) f h in
      let (s, verified, flag, number, prepared) =
        check_append-eq-ok p redact a e f file line checked in
      let (held, records) = file-Holds a.before a.after file s verified flag in
      let place : e.causality.sequence ≡ length s.events = number ∙ records in
      let r =
        prepare-IsRecord p laws redact keeps e f s.last_event_hash line
          (Holds-IsDigest p (content_of p file) s.events s.last_event_hash held) prepared in
      let at_end = subst (λ n. IsRecord p n s.last_event_hash f (line ++ p.newline ∷ [])) place r in
      record {
        events = s.events;
        last = s.last_event_hash;
        added = line ++ p.newline ∷ [];
        held = held;
        after_is = written;
        holds =
            Holds-append p (content_of p file) (line ++ p.newline ∷ []) s.events s.last_event_hash f
              held at_end;
        number = at_end.in_order;
        linked = at_end.chained;
      }
