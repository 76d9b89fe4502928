-- ===== src/Anchors/Passed.antt =====
-- What the lines of a log of anchors hold that its scan lets pass:
-- src/actionlineage/journal/anchors.py.
use action_lineage.Base.{
  ◌<>◌, ℕ, suc, ◌+◌, ◌≡◌, inl, inr, refl, sym, ap, ◌∙◌, String, Bool, true, false, Option, none,
  some, List, [], ◌∷◌, length, if◌then◌else◌, Outcome, ok, err, >>=-eq-ok, ok_injective, Bool-cases,
  eq_iff, arith,
}
use action_lineage.Domain.Value.{Value, null, bool, int, float, str, bytes, time, seq, map, other}
use action_lineage.Journal.{Platform}
use action_lineage.Journal.Hashing.{Bytes}
use action_lineage.Anchors.Log.{
  LogLibrary, Loaded, value, malformed, undecodable, LogEntry, LogIssue, number_is, text_is,
  hash_value, and_some, hash_input_dict, log_entry_from_dict, written, log_entry_hash,
  entry_hash_mismatch,
}
use action_lineage.Anchors.Appends.{
  check_entry, check_read, check_loaded, check_line, next_line, scan_log,
}

text_is-eq : (v : Value) (o : Option String) → text_is v o ≡ true → v ≡ hash_value o
unfolding text_is
text_is-eq null none h = refl
text_is-eq (str s) (some t) h = ap str ((eq_iff s t).0 h)
text_is-eq null (some t) h = cc
text_is-eq (str s) none h = cc
text_is-eq (bool _) o h = cc
text_is-eq (int _) o h = cc
text_is-eq (float _) o h = cc
text_is-eq (bytes _) o h = cc
text_is-eq (time _) o h = cc
text_is-eq (seq _ _) o h = cc
text_is-eq (map _ _) o h = cc
text_is-eq (other _) o h = cc

module _ (p : Platform) (lib : LogLibrary p) where
  -- What json.dumps writes keeps the text of a member: of two entries of which the same bytes are
  -- hashed, the hashes before them are one.
  abbrev pub KeepsLinks : Type 0
  KeepsLinks =
      (e f : LogEntry) (s t : Option String) (b : Bytes p)
      → lib.dumps (hash_input_dict p lib e) ≡ some b
      → lib.dumps (hash_input_dict p lib f) ≡ some b
      → e.previous_entry_hash ≡ hash_value s
      → f.previous_entry_hash ≡ hash_value t
      → s ≡ t

  -- What is hashed of an entry that stands in a line.
  abbrev pub loaded_input : Loaded → Option (Bytes p)
  loaded_input (value (map _ fs)) =
      and_some (log_entry_from_dict p lib fs) (λ e. lib.dumps (hash_input_dict p lib e))
  loaded_input _ = none

  abbrev pub inputs : List (Bytes p) → List (Option (Bytes p))
  inputs [] = []
  inputs (line ∷ lines) = loaded_input (lib.loads line) ∷ inputs lines

  abbrev pub file_lines : Option (Bytes p) → List (Bytes p)
  file_lines none = []
  file_lines (some content) = lib.split content

  -- What a line that passes is known to hold.
  pub record IsPassed (s : Option String) (input : Option (Bytes p)) (hash : String) : Type 0 where
    pub entry : LogEntry
    pub hashed : Bytes p
    pub dumped : lib.dumps (hash_input_dict p lib entry) ≡ some hashed
    pub read : input ≡ some hashed
    pub linked : entry.previous_entry_hash ≡ hash_value s
    pub digest : hash ≡ "sha256:" <> p.hexdigest hashed

  written-eq : (o : Option (Bytes p)) {b : Bytes p} → written p lib o ≡ ok b → o ≡ some b
  written-eq none h = cc
  written-eq (some b) h = cc

  check_entry-IsPassed :
      (k : ℕ) (s : Option String) (e : LogEntry) (hash : String)
      → check_entry p lib k s e ≡ ok (ok hash)
      → IsPassed s (lib.dumps (hash_input_dict p lib e)) hash
  unfolding check_entry log_entry_hash
  check_entry-IsPassed k s e hash h = elim (Bool-cases (number_is e.sequence (suc k))) [
    | inr differs ↦ cc (rw differs at h)
    | inl numbered ↦ elim (Bool-cases (text_is e.previous_entry_hash s)) [
      | inr differs ↦ cc (rw (numbered, differs) at h)
      | inl linked ↦ elim (Bool-cases (text_is e.entry_hash none)) [
        | inl missing ↦ cc (rw (numbered, linked, missing) at h)
        | inr sealed ↦
            let (made, hm, h₁) =
              >>=-eq-ok (log_entry_hash p lib e) _ (rw (numbered, linked, sealed) at h) in
            let (b, wrote, h₂) =
              >>=-eq-ok (written p lib (lib.dumps (hash_input_dict p lib e))) _ hm in
            record {
              entry = e;
              hashed = b;
              dumped = written-eq _ wrote;
              read = written-eq _ wrote;
              linked = text_is-eq e.previous_entry_hash s linked;
              digest =
                  taken (text_is e.entry_hash (some made)) made (ok_injective h₁)
                  ∙ sym (ok_injective h₂);
            }
      ]
    ]
  ]
    where
      taken :
          (b : Bool) (made : String)
          → ◌≡◌ {A = Outcome LogIssue String}
              (if b then ok made else err entry_hash_mismatch)
              (ok hash)
          → hash ≡ made
      taken true made g = cc
      taken false made g = cc

  check_read-IsPassed :
      (k : ℕ) (s : Option String) (o : Option LogEntry) (hash : String)
      → check_read p lib k s o ≡ ok (ok hash)
      → IsPassed s (and_some o (λ e. lib.dumps (hash_input_dict p lib e))) hash
  check_read-IsPassed k s none hash h = cc
  check_read-IsPassed k s (some e) hash h = check_entry-IsPassed k s e hash h

  check_loaded-IsPassed :
      (k : ℕ) (s : Option String) (l : Loaded) (hash : String)
      → check_loaded p lib k s l ≡ ok (ok hash)
      → IsPassed s (loaded_input l) hash
  check_loaded-IsPassed k s (value (map c fs)) hash h =
      check_read-IsPassed k s (log_entry_from_dict p lib fs) hash h
  check_loaded-IsPassed k s malformed hash h = cc
  check_loaded-IsPassed k s undecodable hash h = cc
  check_loaded-IsPassed k s (value null) hash h = cc
  check_loaded-IsPassed k s (value (bool _)) hash h = cc
  check_loaded-IsPassed k s (value (int _)) hash h = cc
  check_loaded-IsPassed k s (value (float _)) hash h = cc
  check_loaded-IsPassed k s (value (str _)) hash h = cc
  check_loaded-IsPassed k s (value (bytes _)) hash h = cc
  check_loaded-IsPassed k s (value (time _)) hash h = cc
  check_loaded-IsPassed k s (value (seq _ _)) hash h = cc
  check_loaded-IsPassed k s (value (other _)) hash h = cc

  pub check_line-IsPassed :
      (k : ℕ) (s : Option String) (line : Bytes p) (hash : String)
      → check_line p lib k s line ≡ ok (ok hash)
      → IsPassed s (loaded_input (lib.loads line)) hash
  unfolding check_line
  check_line-IsPassed k s [] hash h = cc
  check_line-IsPassed k s (b ∷ bs) hash h = check_loaded-IsPassed k s (lib.loads (b ∷ bs)) hash h

  -- A scan that ends without an issue.
  abbrev pub Ends : ℕ → Option String → List (Bytes p) → ℕ → Option String → Type 0
  Ends k s lines n final =
      scan_log p lib k s lines
      ≡ ok (record { records_verified = n; last_entry_hash = final; issue = none })

  pub first_line :
      (k : ℕ) (s : Option String) (line : Bytes p) (lines : List (Bytes p)) (n : ℕ)
      (final : Option String)
      → Ends k s (line ∷ lines) n final
      → (hash : String) × IsPassed s (loaded_input (lib.loads line)) hash
        × Ends (suc k) (some hash) lines n final
  unfolding scan_log
  first_line k s line lines n final h =
      let (m, checked, h₁) = >>=-eq-ok (check_line p lib k s line) _ h in by_result m checked h₁
    where
      by_result :
          (m : Outcome LogIssue String)
          → check_line p lib k s line ≡ ok m
          → next_line p lib k s (λ hash. scan_log p lib (suc k) hash lines) m
            ≡ ok (record { records_verified = n; last_entry_hash = final; issue = none })
          → (hash : String) × IsPassed s (loaded_input (lib.loads line)) hash
            × Ends (suc k) (some hash) lines n final
      by_result (ok hash) checked g = (hash, check_line-IsPassed k s line hash checked, g)
      by_result (err i) checked g = absurd (no_issue (ap (λ x. x.issue) (ok_injective g)))
        where
          no_issue : ◌≡◌ {A = Option LogIssue} (some i) none → ⊥
          no_issue e = cc

  pub scan_count :
      (k : ℕ) (s : Option String) (lines : List (Bytes p)) (n : ℕ) (final : Option String)
      → Ends k s lines n final
      → n ≡ k + length lines
  unfolding scan_log
  scan_count k s [] n final h =
      let e = ap (λ x. x.records_verified) (ok_injective h) in omega (arith, e)
  scan_count k s (line ∷ lines) n final h =
      let (hash, _, rest) = first_line k s line lines n final h in
      omega (arith, scan_count (suc k) (some hash) lines n final rest)
