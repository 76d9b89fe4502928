-- ===== src/Anchors/LogScans.antt =====
-- What is relied on of the libraries of a log of anchors, and what its scan makes of lines:
-- src/actionlineage/journal/anchors.py.
use action_lineage.Base.{
  ℕ, suc, ◌≡◌, ◌≢◌, ◌⊎◌, refl, ap, ap₂, ◌∙◌, subst, String, true, false, Option, none, some, List,
  [], ◌∷◌, ◌++◌, Outcome, ok, err, ◌>>=◌, >>=-eq-ok, ok_injective, eq_refl, ==_iff, ℤ,
}
use action_lineage.Domain.Value.{Value, int, str}
use action_lineage.Domain.Value.Members.{get}
use action_lineage.Domain.Event.{nonempty}
use action_lineage.Journal.{Platform}
use action_lineage.Journal.Hashing.{Bytes}
use action_lineage.Anchors.{JournalAnchor}
use action_lineage.Anchors.Log.{
  LogLibrary, value, LoggedAnchor, LogIssue, LogError, LogScan, LogVerification, hash_value,
  number_is, text_is, required_str, required_int, anchor_from_dict, log_entry_from_dict,
  log_entry_dict, hash_input_dict, log_entry_hash,
}
use action_lineage.Anchors.Appends.{
  check_entry, check_loaded, check_line, next_line, scan_log, scan_file, issue_list, is_clean,
  log_verification, verify_journal_anchor_log, file_content, logged, unsigned_entry,
}

-- A file that ends with a line.
abbrev pub EndsLine : (p : Platform) → Bytes p → Type 0
EndsLine p content = (content ≡ []) ⊎ ((front : Bytes p) × (content ≡ front ++ p.newline ∷ []))

-- What is documented of json and of bytes: an object of an entry that the log writes is read back,
-- it is not empty, it has no line break, so that `splitlines` finds it behind whole lines, and a
-- text of a time is not empty and is read back as the time.
pub record IsLogLibrary (p : Platform) (lib : LogLibrary p) : Type 0 where
  pub reads :
      (v : LogVerification) (a : JournalAnchor) (t u : ℕ) (hash : String) (line : Bytes p)
      → lib.dumps (
          log_entry_dict p lib
            (record (unsigned_entry p lib v (logged p lib a t) u) { entry_hash = str hash }))
        ≡ some line
      → lib.loads line
        ≡ value (
            log_entry_dict p lib
              (record (unsigned_entry p lib v (logged p lib a t) u) { entry_hash = str hash }))
  pub writes : (v : Value) → lib.dumps v ≢ some []
  pub splits :
      (v : Value) (content line : Bytes p)
      → lib.dumps v ≡ some line
      → EndsLine p content
      → lib.split (content ++ (line ++ p.newline ∷ [])) ≡ lib.split content ++ line ∷ []
  pub splits_nothing : lib.split [] ≡ []
  pub time : (t : ℕ) → lib.read_time (p.isoformat t) ≡ some t
  pub time_text : (t : ℕ) → nonempty (p.isoformat t) ≡ true

module _ (p : Platform) (lib : LogLibrary p) where
  -- A scan without an issue goes on with what stands behind its lines.
  pub scan_log-append :
      (k : ℕ) (last : Option String) (lines more : List (Bytes p)) (n : ℕ) (final : Option String)
      → scan_log p lib k last lines
        ≡ ok (record { records_verified = n; last_entry_hash = final; issue = none })
      → scan_log p lib k last (lines ++ more) ≡ scan_log p lib n final more
  unfolding scan_log
  scan_log-append k last [] more n final h =
      let same = ok_injective h in
      ap₂ (λ i l. scan_log p lib i l more) (ap (λ s. s.records_verified) same)
        (ap (λ s. s.last_entry_hash) same)
  scan_log-append k last (line ∷ lines) more n final h =
      by_check (check_line p lib k last line) h
        (λ hash g. scan_log-append (suc k) (some hash) lines more n final g)
    where
      by_check :
          (m : Outcome LogError (Outcome LogIssue String))
          → (m >>= next_line p lib k last (λ hash. scan_log p lib (suc k) hash lines))
            ≡ ok (record { records_verified = n; last_entry_hash = final; issue = none })
          → ((hash : String)
              → scan_log p lib (suc k) (some hash) lines
                ≡ ok (record { records_verified = n; last_entry_hash = final; issue = none })
              → scan_log p lib (suc k) (some hash) (lines ++ more) ≡ scan_log p lib n final more)
          → (m >>= next_line p lib k last (λ hash. scan_log p lib (suc k) hash (lines ++ more)))
            ≡ scan_log p lib n final more
      by_check (err x) g next = cc
      by_check (ok (err i)) g next = absurd (no_issue (ap (λ s. s.issue) (ok_injective g)))
        where
          no_issue : ◌≡◌ {A = Option LogIssue} (some i) none → ⊥
          no_issue e = cc
      by_check (ok (ok hash)) g next = next hash g

  pub read_back :
      (laws : IsLogLibrary p lib) (v : LogVerification) (a : JournalAnchor) (t u : ℕ)
      (hash : String) (n : ℕ) (last : Option String)
      → nonempty a.journal_path ≡ true
      → nonempty a.version ≡ true
      → check_loaded p lib n last (
          value (
            log_entry_dict p lib
              (record (unsigned_entry p lib v (logged p lib a t) u) { entry_hash = str hash })))
        ≡ check_entry p lib n last
            (record (unsigned_entry p lib v (logged p lib a t) u) { entry_hash = str hash })
  unfolding log_entry_dict log_entry_from_dict anchor_from_dict required_str required_int get
  read_back laws v a t u hash n last path version =
      rw (laws.time_text u, laws.time u, laws.time_text t, laws.time t, version, path) refl

  pub text_is_same : (o : Option String) → text_is (hash_value o) o ≡ true
  unfolding text_is
  text_is_same none = refl
  text_is_same (some s) = eq_refl s

  sealed_hash :
      (v : LogVerification) (a : LoggedAnchor) (u : ℕ) (hash : String)
      → log_entry_hash p lib (record (unsigned_entry p lib v a u) { entry_hash = str hash })
        ≡ log_entry_hash p lib (unsigned_entry p lib v a u)
  unfolding log_entry_hash hash_input_dict
  sealed_hash v a u hash = refl

  has_hash : (hash : String) → text_is (str hash) none ≡ false
  unfolding text_is
  has_hash hash = refl

  is_next : (n : ℕ) → number_is (int (ℤ.pos (suc n))) (suc n) ≡ true
  unfolding number_is
  is_next n = (==_iff (suc n) (suc n)).1 refl

  -- An entry with the next number, the last hash and its own hash passes.
  pub checked_entry :
      (v : LogVerification) (a : LoggedAnchor) (u : ℕ) (hash : String)
      → log_entry_hash p lib (unsigned_entry p lib v a u) ≡ ok hash
      → check_entry p lib v.records_verified v.last_entry_hash
          (record (unsigned_entry p lib v a u) { entry_hash = str hash })
        ≡ ok (ok hash)
  unfolding check_entry
  checked_entry v a u hash h =
      rw
        (
          is_next v.records_verified,
          text_is_same v.last_entry_hash,
          has_hash hash,
          sealed_hash v a u hash ∙ h,
          text_is_same (some hash),
        )
        refl

  pub checked_line :
      (n : ℕ) (last : Option String) (line : Bytes p)
      → line ≢ []
      → check_line p lib n last line ≡ check_loaded p lib n last (lib.loads line)
  unfolding check_line
  checked_line n last [] h = absurd (h refl)
  checked_line n last (_ ∷ _) h = refl

  -- A log that verifies: its scan has no issue.
  pub verified_scan :
      (file : Option (Bytes p)) (v : LogVerification)
      → verify_journal_anchor_log p lib file none none ≡ ok v
      → v.ok_flag ≡ true
      → scan_file p lib file
        ≡ ok (record {
          records_verified = v.records_verified;
          last_entry_hash = v.last_entry_hash;
          issue = none;
        })
  unfolding verify_journal_anchor_log
  verified_scan file v h flag =
      let (s, scanned, h₁) = >>=-eq-ok (scan_file p lib file) _ h in
      subst
        (λ x.
          scan_file p lib file
          ≡ ok (record {
            records_verified = x.records_verified;
            last_entry_hash = x.last_entry_hash;
            issue = none;
          }))
        (ok_injective h₁) (scanned ∙ ap ok (clean s (ap (λ x. x.ok_flag) (ok_injective h₁) ∙ flag)))
    where
      clean :
          (s : LogScan)
          → (log_verification p lib none none s).ok_flag ≡ true
          → s ≡ record {
            records_verified = s.records_verified;
            last_entry_hash = s.last_entry_hash;
            issue = none;
          }
      clean s k = by_issue s.issue refl k
        where
          by_issue :
              (o : Option LogIssue)
              → s.issue ≡ o
              → is_clean p lib (issue_list p lib s.issue ++ ([] ++ [])) ≡ true
              → s ≡ record {
                records_verified = s.records_verified;
                last_entry_hash = s.last_entry_hash;
                issue = none;
              }
          by_issue none e k =
              ap
                (λ i. record {
                  records_verified = s.records_verified;
                  last_entry_hash = s.last_entry_hash;
                  issue = i;
                })
                e
          by_issue (some i) e k = cc (rw e at k)

  pub scan_whole :
      (laws : IsLogLibrary p lib) (file : Option (Bytes p)) (n : ℕ) (last : Option String)
      → scan_file p lib file
        ≡ ok (record { records_verified = n; last_entry_hash = last; issue = none })
      → scan_log p lib 0 none (lib.split (file_content p lib file))
        ≡ ok (record { records_verified = n; last_entry_hash = last; issue = none })
  scan_whole laws none n last h = ap (scan_log p lib 0 none) laws.splits_nothing ∙ h
  scan_whole laws (some content) n last h = h
