-- ===== src/Journal/Verified.antt =====
-- What a verified snapshot of a journal says of its bytes, and which bytes verify.
use mathlib.Core.List.{append-nil}
use action_lineage.Base.{
  ℕ, String, ◌≡◌, refl, sym, ap, subst, ◌∙◌, true, Option, none, some, List, [], ◌∷◌, ◌++◌, arith,
  ok, ◌>>=◌, >>=-eq-ok, ==_iff, length, Bool-cases, inl, inr, eq_iff, eq_refl,
}
use action_lineage.Domain.Event.{Event}
use action_lineage.Journal.{Platform, IsPlatform}
use action_lineage.Journal.Bytes.{split_lines, join_lines, take}
use action_lineage.Journal.Bytes.Lines.{split_lines-join, join-split_lines}
use action_lineage.Journal.Hashing.{Bytes, sha256_digest}
use action_lineage.Journal.Snapshot.{
  Issue, Scan, Snapshot, FileRead, scan, conclude, no_issues, if_issue, changed_issue, count_issue,
  hash_issue, metadata_eq, option_eq, verified_journal_snapshot,
}
use action_lineage.Journal.Chain.{Chain}
use action_lineage.Journal.Scan.{Chain-lines, scan-Chain, scan-IsSound, push_all, after}

-- What an expected count or last hash says, where it is given.
abbrev pub Counts : Option ℕ → ℕ → Type 0
Counts none n = Unit
Counts (some count) n = n ≡ count

abbrev pub Ends : Option String → Option String → Type 0
Ends none last = Unit
Ends (some hash) last = last ≡ some hash

take-length {ℓ} : {A : Type ℓ} (n : ℕ) (xs : List A) → n ≡ length xs → take n xs ≡ xs
unfolding take
take-length n [] h = rw h
take-length n (x ∷ xs) h = rw h (ap (λ ys. x ∷ ys) (take-length (length xs) xs refl))

module _ (p : Platform) where
  -- The journal's bytes are the canonical lines of a chain of events that starts at nothing.
  pub record Holds (content : Bytes p) (es : List Event) (last : Option String) : Type 0 where
    pub lines : List (Bytes p)
    pub bytes : content ≡ join_lines lines
    pub chain : Chain p 0 none es lines last

module _ (p : Platform) where
  no_issues-append :
      (xs ys : List Issue)
      → no_issues p (xs ++ ys) ≡ true
      → (no_issues p xs ≡ true) × (no_issues p ys ≡ true)
  no_issues-append [] ys h = (refl, h)
  no_issues-append (x ∷ xs) ys h = cc

  no_issue : (o : Option Issue) → no_issues p (if_issue p o) ≡ true → o ≡ none
  no_issue none h = refl
  no_issue (some i) h = cc

  agreed_count :
      (count : Option ℕ) (n : ℕ) → no_issues p (count_issue p count n) ≡ true → Counts count n
  agreed_count none n h = tt
  agreed_count (some c) n h = ground arith

  option_eq-some : (o : Option String) (s : String) → option_eq o (some s) ≡ true → o ≡ some s
  option_eq-some none s h = cc
  option_eq-some (some t) s h = cc ((eq_iff t s).0 h)

  agreed_hash :
      (hash : Option String) (n : ℕ) (last : Option String)
      → no_issues p (hash_issue p hash n last) ≡ true
      → Ends hash last
  agreed_hash none n last h = tt
  agreed_hash (some x) n last h = elim (Bool-cases (option_eq last (some x))) [
    | inl same ↦ option_eq-some last x same
    | inr other ↦ cc (rw other at h)
  ]

  unchanged :
      (n : ℕ) (f : FileRead p)
      → no_issues p (changed_issue p n f) ≡ true
      → metadata_eq p f.before f.after ≡ true
  unchanged n f h = elim (Bool-cases (metadata_eq p f.before f.after)) [
    | inl same ↦ same
    | inr other ↦ cc (rw other at h)
  ]

  -- What a result without issues says, by the scan that it concludes.
  pub record IsClean (count : Option ℕ) (hash : Option String) (f : FileRead p) (s : Scan)
      : Type 0 where
    pub clean : s.issue ≡ none
    pub stable : metadata_eq p f.before f.after ≡ true
    pub counted : Counts count (length s.events)
    pub ended : Ends hash s.last_event_hash

  conclude-IsClean :
      (count : Option ℕ) (hash digest : Option String) (f : FileRead p) (s : Scan)
      → (conclude p count hash (λ n. changed_issue p n f) digest s).ok_flag ≡ true
      → IsClean count hash f s
  unfolding conclude
  conclude-IsClean count hash digest f s h =
      let n = length s.events in
      let (a, h₁) = no_issues-append (if_issue p s.issue) _ h in
      let (b, h₂) = no_issues-append (changed_issue p n f) _ h₁ in
      let (c, d) = no_issues-append (count_issue p count n) _ h₂ in
      record {
        clean = no_issue s.issue a;
        stable = unchanged n f b;
        counted = agreed_count count n c;
        ended = agreed_hash hash n s.last_event_hash d;
      }

  -- What a snapshot without issues says: the file is the canonical bytes of the chain that it
  -- reports, did not change while it was read, and is what was expected.
  pub record IsVerified (count : Option ℕ) (hash : Option String) (f : FileRead p) (s : Snapshot)
      : Type 0 where
    pub holds : Holds p f.content s.events s.last_event_hash
    pub records : s.records_verified ≡ length s.events
    pub stable : metadata_eq p f.before f.after ≡ true
    pub counted : Counts count s.records_verified
    pub ended : Ends hash s.last_event_hash
    pub no_issue_left : s.issues ≡ []
    pub digest : s.journal_sha256 ≡ some (sha256_digest p f.content)

  none_left : (issues : List Issue) → no_issues p issues ≡ true → issues ≡ []
  none_left [] h = refl
  none_left (_ ∷ _) h = cc

  abbrev result : Option ℕ → Option String → FileRead p → Scan → Snapshot
  result count hash f t =
      conclude p count hash (λ n. changed_issue p n f) (some (sha256_digest p f.content)) t

module _ (p : Platform) where
  abbrev pub clean_snapshot : FileRead p → List Event → Option String → Snapshot
  clean_snapshot f es last = record {
    events = es;
    ok_flag = true;
    records_verified = length es;
    last_event_hash = last;
    issues = [];
    journal_sha256 = some (sha256_digest p f.content);
  }

module _ (p : Platform) (laws : IsPlatform p) where
  result-IsVerified :
      (count : Option ℕ) (hash : Option String) (f : FileRead p) (t : Scan)
      → scan p 0 none (split_lines p.byte_eq p.newline f.content) ≡ ok t
      → (result p count hash f t).ok_flag ≡ true
      → IsVerified p count hash f (result p count hash f t)
  unfolding conclude
  result-IsVerified count hash f t scanned flag =
      let lines = split_lines p.byte_eq p.newline f.content in
      let clean = conclude-IsClean p count hash (some (sha256_digest p f.content)) f t flag in
      let sound = scan-IsSound p laws 0 none lines t scanned in
      record {
        holds = record {
          lines = lines;
          bytes = sym (join-split_lines p.byte_eq laws.byte_eq_iff p.newline f.content);
          chain =
              subst (λ ls. Chain p 0 none t.events ls t.last_event_hash)
                (take-length (length t.events) lines (sound.whole clean.clean)) sound.chain;
        };
        records = refl;
        stable = clean.stable;
        counted = clean.counted;
        ended = clean.ended;
        no_issue_left = none_left p _ flag;
        digest = rw flag;
      }

  -- A snapshot whose `ok` is set is of the canonical bytes of a hash chain, whose events, number
  -- and last hash it reports, with the digest of the bytes and no issue. The file's metadata was
  -- the same before and after, and a count or last hash that was expected is the chain's.
  pub snapshot_sound :
      (count : Option ℕ) (hash : Option String) (f : FileRead p) (s : Snapshot)
      → verified_journal_snapshot p count hash (some f) ≡ ok s
      → s.ok_flag ≡ true
      → IsVerified p count hash f s
  unfolding verified_journal_snapshot
  snapshot_sound count hash f s h flag =
      let (t, scanned, h₁) =
        >>=-eq-ok (scan p 0 none (split_lines p.byte_eq p.newline f.content)) _ h in
      let same : result p count hash f t ≡ s = cc in
      subst (λ x. x.ok_flag ≡ true → IsVerified p count hash f x) same
        (result-IsVerified count hash f t scanned) flag

  -- The loop over a chain's bytes goes on with what stands behind them.
  pub scan-Holds :
      (content rest : Bytes p) (es : List Event) (last : Option String)
      → Holds p content es last
      → scan p 0 none (split_lines p.byte_eq p.newline (content ++ rest)) ≡ (
          scan p (after es 0) last (split_lines p.byte_eq p.newline rest) >>= λ s.
          ok (push_all es s))
  scan-Holds content rest es last h =
      let lines = h.lines in
      subst
        (λ c. scan p 0 none (split_lines p.byte_eq p.newline (c ++ rest)) ≡ (
          scan p (after es 0) last (split_lines p.byte_eq p.newline rest) >>= λ s.
          ok (push_all es s)))
        (sym h.bytes)
        (ap (scan p 0 none) (
            split_lines-join p.byte_eq laws.byte_eq_iff p.newline lines rest
              (Chain-lines p laws 0 none es lines last h.chain))
          ∙ scan-Chain p laws 0 none es lines (split_lines p.byte_eq p.newline rest) last h.chain)

  scan-Holds_all :
      (content : Bytes p) (es : List Event) (last : Option String)
      → Holds p content es last
      → scan p 0 none (split_lines p.byte_eq p.newline content)
        ≡ ok (record { events = es; last_event_hash = last; issue = none })
  unfolding scan split_lines
  scan-Holds_all content es last h =
      ap (λ c. scan p 0 none (split_lines p.byte_eq p.newline c)) (sym (append-nil content))
      ∙ scan-Holds content [] es last h
      ∙ ap (λ xs. ok (record { events = xs; last_event_hash = last; issue = none })) (append-nil es)

  count-agrees : (count : Option ℕ) (n : ℕ) → Counts count n → count_issue p count n ≡ []
  count-agrees none n h = refl
  count-agrees (some c) n h = rw ((==_iff n c).1 h)

  hash-agrees :
      (hash : Option String) (n : ℕ) (last : Option String)
      → Ends hash last
      → hash_issue p hash n last ≡ []
  hash-agrees none n last h = refl
  hash-agrees (some x) n last h = rw (h, eq_refl x)

  -- The canonical bytes of a chain verify, when the file does not change while it is read and a
  -- count and last hash that are expected are the chain's: the snapshot has the chain's events,
  -- their number, the last hash, and no issue.
  pub snapshot_complete :
      (count : Option ℕ) (hash : Option String) (es : List Event) (last : Option String)
      (f : FileRead p)
      → Holds p f.content es last
      → metadata_eq p f.before f.after ≡ true
      → Counts count (length es)
      → Ends hash last
      → verified_journal_snapshot p count hash (some f) ≡ ok (clean_snapshot p f es last)
  unfolding verified_journal_snapshot
  snapshot_complete count hash es last f h stable counts ends =
      rw (scan-Holds_all f.content es last h)
        (rw (stable, count-agrees count (length es) counts, hash-agrees hash (length es) last ends))
