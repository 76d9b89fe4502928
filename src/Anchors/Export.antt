-- ===== src/Anchors/Export.antt =====
-- What `export_verified_prefix` of src/actionlineage/journal/anchors.py writes is a journal.
use mathlib.Core.List.{append_assoc}
use action_lineage.Base.{
  ℕ, zero, suc, ◌≡◌, refl, sym, ap, ◌∙◌, subst, String, Option, none, some, List, [], ◌∷◌, ◌++◌,
  length, true, false, ok, >>=-eq-ok, ok_injective,
}
use action_lineage.Domain.Event.{Event}
use action_lineage.Journal.{Platform, IsPlatform}
use action_lineage.Journal.Bytes.{join_lines, split_lines, take}
use action_lineage.Journal.Bytes.Lines.{join-split_lines}
use action_lineage.Journal.Hashing.{Bytes, sha256_digest}
use action_lineage.Journal.Snapshot.{
  Snapshot, Scan, FileRead, JournalFileMetadata, metadata_eq, verified_journal_snapshot, scan,
  conclude, changed_issue,
}
use action_lineage.Journal.Chain.{Chain}
use action_lineage.Journal.Scan.{scan-IsSound}
use action_lineage.Journal.Verified.{Holds, snapshot_complete, clean_snapshot}
use action_lineage.Anchors.{exported, export_verified_prefix}

module _ (p : Platform) where
  exported-Chain :
      (index : ℕ) (previous : Option String) (es : List Event) (lines : List (Bytes p))
      (last : Option String)
      → Chain p index previous es lines last
      → exported p es ≡ ok (join_lines lines)
  unfolding exported join_lines
  exported-Chain index previous [] [] last c = refl
  exported-Chain index previous [] (_ ∷ _) last c = absurd c
  exported-Chain index previous (_ ∷ _) [] last c = absurd c
  exported-Chain index previous (e ∷ es) (raw ∷ lines) last c =
      rw (c.0.serialized, exported-Chain (suc index) e.integrity.event_hash es lines last c.1)
        (ap (λ x. ok (x ++ join_lines lines)) (sym c.0.canonical))

  join-take :
      (n : ℕ) (lines : List (Bytes p))
      → (rest : Bytes p) × (join_lines lines ≡ join_lines (take n lines) ++ rest)
  unfolding join_lines take
  join-take zero lines = (join_lines lines, refl)
  join-take (suc n) [] = ([], refl)
  join-take (suc n) (line ∷ lines) =
      let (rest, same) = join-take n lines in
      (rest, ap (λ x. line ++ x) same ∙ sym (append_assoc line (join_lines (take n lines)) rest))

  -- The output of an export: the bytes of a chain, with which the source begins.
  pub record IsPrefix (f : FileRead p) (s : Snapshot) (content : Bytes p) : Type 0 where
    pub holds : Holds p content s.events s.last_event_hash
    pub rest : Bytes p
    pub source : f.content ≡ content ++ rest

module _ (p : Platform) (laws : IsPlatform p) where
  scanned-prefix :
      (count : Option ℕ) (hash : Option String) (f : FileRead p) (t : Scan) (s : Snapshot)
      → scan p 0 none (split_lines p.byte_eq p.newline f.content) ≡ ok t
      → conclude p count hash (λ n. changed_issue p n f) (some (sha256_digest p f.content)) t ≡ s
      → (content : Bytes p) × (exported p s.events ≡ ok content) × IsPrefix p f s content
  unfolding conclude
  scanned-prefix count hash f t s scanned is =
      let lines = split_lines p.byte_eq p.newline f.content in
      let chain = (scan-IsSound p laws 0 none lines t scanned).chain in
      let kept = take (length t.events) lines in
      let (rest, cut) = join-take p (length t.events) lines in
      subst (λ x. (content : Bytes p) × (exported p x.events ≡ ok content) × IsPrefix p f x content)
        is
        (
          join_lines kept,
          exported-Chain p 0 none t.events kept t.last_event_hash chain,
          record {
            holds = record { lines = kept; bytes = refl; chain = chain };
            rest = rest;
            source = sym (join-split_lines p.byte_eq laws.byte_eq_iff p.newline f.content) ∙ cut;
          },
        )

  -- Where the verifier returns a snapshot of a journal, with issues or without, the export to
  -- another path succeeds. It writes the canonical bytes of the chain of the verified events, with
  -- which the journal begins, and what it writes verifies with those events and no issue.
  pub export-IsPrefix :
      (count : Option ℕ) (hash : Option String) (f : FileRead p) (s : Snapshot)
      (before after : JournalFileMetadata)
      → verified_journal_snapshot p count hash (some f) ≡ ok s
      → metadata_eq p before after ≡ true
      → (content : Bytes p) × (export_verified_prefix p false count hash (some f) ≡ ok (s, content))
        × IsPrefix p f s content
        × (verified_journal_snapshot p none none
              (some (record { content = content; before = before; after = after }))
            ≡ ok (
                clean_snapshot p
                  (record { content = content; before = before; after = after })
                  s.events
                  s.last_event_hash))
  unfolding verified_journal_snapshot export_verified_prefix
  export-IsPrefix count hash f s before after h stable =
      let (t, scanned, h₁) =
        >>=-eq-ok (scan p 0 none (split_lines p.byte_eq p.newline f.content)) _ h in
      let (content, wrote, is_prefix) = scanned-prefix count hash f t s scanned (ok_injective h₁) in
      (
        content,
        rw (h, wrote) refl,
        is_prefix,
        snapshot_complete p laws none none s.events s.last_event_hash
            (record { content = content; before = before; after = after }) is_prefix.holds stable tt
            tt,
      )
