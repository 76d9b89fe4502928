-- ===== src/Anchors/LogTamper.antt =====
-- A count and a last hash pin what the entries of a log of anchors are hashed from:
-- src/actionlineage/journal/anchors.py.
use text.Mathlib.TextLemmas.{append_cancel_left}
use action_lineage.Base.{
  ℕ, suc, ◌≡◌, ◌≢◌, ◌⊎◌, inl, inr, refl, sym, ap, ap₂, ◌∙◌, String, true, false, Option, none, some,
  List, [], ◌∷◌, ok, ok_injective, Bool-cases, arith,
}
use action_lineage.Journal.{Platform, IsPlatform}
use action_lineage.Journal.Bytes.{bytes_eq}
use action_lineage.Journal.Bytes.Lines.{bytes_eq_refl}
use action_lineage.Journal.Chain.{bytes_eq-eq}
use action_lineage.Journal.Hashing.{Bytes}
use action_lineage.Journal.Tamper.{Collision}
use action_lineage.Anchors.Log.{LogLibrary, LogVerification}
use action_lineage.Anchors.Appends.{scan_log, scan_file, verify_journal_anchor_log}
use action_lineage.Anchors.LogScans.{verified_scan}
use action_lineage.Anchors.Passed.{
  KeepsLinks, inputs, file_lines, IsPassed, Ends, first_line, scan_count,
}

module _ (p : Platform) (lib : LogLibrary p) (laws : IsPlatform p) (keeps : KeepsLinks p lib) where
  differ : (x y : Bytes p) → bytes_eq p.byte_eq x y ≡ false → x ≢ y
  differ x y h same =
      cc (h, ap (bytes_eq p.byte_eq x) same, bytes_eq_refl p.byte_eq laws.byte_eq_iff x)

  -- Lines with one hash have one input, and the same hash before them.
  same_line :
      (s t : Option String) (x y : Option (Bytes p)) (h h' : String)
      → IsPassed p lib s x h
      → IsPassed p lib t y h'
      → h ≡ h'
      → ((s ≡ t) × (x ≡ y)) ⊎ Collision p
  same_line s t x y h h' a b hashes = elim (Bool-cases (bytes_eq p.byte_eq a.hashed b.hashed)) [
    | inl same ↦
        let one = bytes_eq-eq p laws a.hashed b.hashed same in
        inl (
          keeps a.entry b.entry s t b.hashed (a.dumped ∙ ap some one) b.dumped a.linked b.linked,
          a.read ∙ ap some one ∙ sym b.read,
        )
    | inr differs ↦ inr (record {
      first = a.hashed;
      second = b.hashed;
      distinct = differ a.hashed b.hashed differs;
      same_digest =
          append_cancel_left "sha256:" (p.hexdigest a.hashed) (p.hexdigest b.hashed)
            (sym a.digest ∙ hashes ∙ b.digest);
    })
  ]

  scans_agree :
      (k : ℕ) (s t : Option String) (ls ms : List (Bytes p)) (n : ℕ) (final : Option String)
      → Ends p lib k s ls n final
      → Ends p lib k t ms n final
      → ((s ≡ t) × (inputs p lib ls ≡ inputs p lib ms)) ⊎ Collision p
  unfolding scan_log
  scans_agree k s t [] [] n final g h = inl (
    ap (λ x. x.last_entry_hash) (ok_injective g)
        ∙ sym (ap (λ x. x.last_entry_hash) (ok_injective h)),
    refl,
  )
  scans_agree k s t [] (m ∷ ms) n final g h =
      absurd
        (omega (arith, scan_count p lib k s [] n final g, scan_count p lib k t (m ∷ ms) n final h))
  scans_agree k s t (l ∷ ls) [] n final g h =
      absurd
        (omega (arith, scan_count p lib k s (l ∷ ls) n final g, scan_count p lib k t [] n final h))
  scans_agree k s t (l ∷ ls) (m ∷ ms) n final g h =
      let (a, passed_a, rest_a) = first_line p lib k s l ls n final g in
      let (b, passed_b, rest_b) = first_line p lib k t m ms n final h in
      elim (scans_agree (suc k) (some a) (some b) ls ms n final rest_a rest_b) [
        | inr collision ↦ inr collision
        | inl (hashes, tails) ↦ elim (same_line s t _ _ a b passed_a passed_b (some_eq hashes)) [
          | inr collision ↦ inr collision
          | inl (starts, first) ↦ inl (starts, ap₂ ◌∷◌ first tails)
        ]
      ]
    where
      some_eq : {x y : String} → ◌≡◌ {A = Option String} (some x) (some y) → x ≡ y
      some_eq e = cc

  file_scan :
      (file : Option (Bytes p))
      → scan_file p lib file ≡ scan_log p lib 0 none (file_lines p lib file)
  file_scan none = refl
  file_scan (some content) = refl

  -- Two logs of anchors that verify with the same number of entries and the same last hash have,
  -- line by line, entries of which the same bytes are hashed, or they give two different inputs p lib of
  -- SHA-256 with one digest.
  pub verify_journal_anchor_log-pins_entries :
      (f g : Option (Bytes p)) (v w : LogVerification)
      → verify_journal_anchor_log p lib f none none ≡ ok v
      → verify_journal_anchor_log p lib g none none ≡ ok w
      → v.ok_flag ≡ true
      → w.ok_flag ≡ true
      → v.records_verified ≡ w.records_verified
      → v.last_entry_hash ≡ w.last_entry_hash
      → (inputs p lib (file_lines p lib f) ≡ inputs p lib (file_lines p lib g)) ⊎ Collision p
  verify_journal_anchor_log-pins_entries f g v w hv hw kv kw counts hashes =
      let a = sym (file_scan f) ∙ verified_scan p lib f v hv kv in
      let b = sym (file_scan g) ∙ verified_scan p lib g w hw kw in
      let c =
        b
        ∙ ap₂ (λ n o. ok (record { records_verified = n; last_entry_hash = o; issue = none }))
            (sym counts) (sym hashes) in
      elim (scans_agree 0 none none (file_lines p lib f) (file_lines p lib g) v.records_verified
        v.last_entry_hash a c) [ inl (_, same) ↦ inl same | inr collision ↦ inr collision ]
