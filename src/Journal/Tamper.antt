-- ===== src/Journal/Tamper.antt =====
-- Tamper evidence: a count and a last hash pin the bytes of a journal, up to a collision of SHA-256.
use text.Mathlib.TextLemmas.{append_cancel_left}
use action_lineage.Base.{
  ℕ, suc, String, ◌≡◌, ◌≢◌, ◌⊎◌, inl, inr, refl, sym, ap, ap₂, ◌∙◌, true, false, Option, none, some,
  List, [], ◌∷◌, ◌++◌, length, ok, err, ◌>>=◌, subst, arith, >>=-eq-ok, Bool-cases,
}
use action_lineage.Domain.Value.{Checked, default_limits, normalize_json}
use action_lineage.Domain.Value.Sorted.{is_sorted, is_sorted-thaw}
use action_lineage.Domain.Event.{
  Event, validate_event, event_with_integrity, event_to_dict, model_json,
}
use action_lineage.Journal.{Platform, IsPlatform}
use action_lineage.Journal.Bytes.{bytes_eq, join_lines, rstrip_newlines}
use action_lineage.Journal.Bytes.Lines.{bytes_eq_refl, rstrip-clean}
use action_lineage.Journal.Scan.{serialize_event-clean}
use action_lineage.Journal.Hashing.{Bytes, encoded, of_checked, serialize_event, sha256_digest}
use action_lineage.Journal.Snapshot.{Snapshot, FileRead, verified_journal_snapshot}
use action_lineage.Journal.Chain.{IsRecord, Chain, bytes_eq-eq}
use action_lineage.Journal.Integrity.{
  encoded-eq-ok, IsHash, IsCopy, compute_event_hash-IsHash, event_with_integrity-IsCopy,
  model_json-copy, rehashed,
}
use action_lineage.Journal.Verified.{Holds, snapshot_sound}

-- Two inputs that differ and have one digest.
pub record Collision (p : Platform) : Type 0 where
  pub first : Bytes p
  pub second : Bytes p
  pub distinct : first ≢ second
  pub same_digest : p.hexdigest first ≡ p.hexdigest second

of_checked-eq-ok : {A : Type 0} (m : Checked A) {a : A} → of_checked m ≡ ok a → m ≡ ok a
of_checked-eq-ok (ok a) h = cc
of_checked-eq-ok (err r) h = cc

module _ (p : Platform) (laws : IsPlatform p) where
  -- What a valid event serialises to is read back as the event.
  pub load-serialize :
      (e f : Event) (line : Bytes p)
      → validate_event e ≡ ok f
      → is_sorted f.payload ≡ true
      → serialize_event p f ≡ ok line
      → p.load line ≡ some f
  unfolding serialize_event
  load-serialize e f line valid in_order h =
      let (v, dumped, same) = >>=-eq-ok (of_checked (event_to_dict p.isoformat f)) _ h in
      laws.load-dumps e f v line valid in_order (of_checked-eq-ok _ dumped)
        (encoded-eq-ok (p.dumps v) same)

  -- What is read of a serialised event has its keys in order.
  serialize-sorted :
      (e f : Event) (line : Bytes p)
      → serialize_event p e ≡ ok line
      → p.load line ≡ some f
      → is_sorted f.payload ≡ true
  unfolding serialize_event
  serialize-sorted e f line h k =
      let (v, _, same) = >>=-eq-ok (of_checked (event_to_dict p.isoformat e)) _ h in
      laws.load-sorted v line f (encoded-eq-ok (p.dumps v) same) k

  IsRecord-sorted :
      {i : ℕ} {s : Option String} (e : Event) (raw : Bytes p)
      → IsRecord p i s e raw
      → is_sorted e.payload ≡ true
  IsRecord-sorted e raw r =
      let (clean, _) = serialize_event-clean p laws e r.line r.serialized in
      serialize-sorted e e r.line r.serialized (
        ap p.load (
          sym (rstrip-clean p.byte_eq laws.byte_eq_iff p.newline r.line clean)
          ∙ ap (rstrip_newlines p.byte_eq p.newline) (sym r.canonical))
        ∙ r.parsed)

  -- A copy has the keys of its payload in the order of the event's.
  pub IsCopy-sorted :
      (e f : Event) (previous hash : Option String)
      → IsCopy e previous hash f
      → is_sorted e.payload ≡ true
      → is_sorted f.payload ≡ true
  IsCopy-sorted e f previous hash c in_order =
      sym (is_sorted-thaw f.payload) ∙ ap is_sorted c.payload ∙ is_sorted-thaw e.payload ∙ in_order

  IsHash-load :
      {e : Event} {hash : String} (h : IsHash p e hash)
      → is_sorted e.payload ≡ true
      → p.load h.bytes ≡ some h.input
  unfolding event_with_integrity
  IsHash-load {e = e} h in_order =
      let copy =
        event_with_integrity-IsCopy e h.input e.integrity.previous_event_hash none h.valid in
      load-serialize _ h.input h.bytes h.valid
        (IsCopy-sorted e h.input e.integrity.previous_event_hash none copy in_order) h.serialized

  -- Hashes made from one input are of events that have the same hash before them and, where they
  -- have the same hash of their own, the same bytes.
  same_input :
      (e f : Event) {g k : String} (a : IsHash p e g) (b : IsHash p f k)
      → is_sorted e.payload ≡ true
      → is_sorted f.payload ≡ true
      → a.bytes ≡ b.bytes
      → e.integrity.event_hash ≡ f.integrity.event_hash
      → (e.integrity.previous_event_hash ≡ f.integrity.previous_event_hash)
        × (serialize_event p e ≡ serialize_event p f)
  unfolding serialize_event event_to_dict
  same_input e f a b sorted_e sorted_f bytes hashes =
      let copy_a =
        event_with_integrity-IsCopy e a.input e.integrity.previous_event_hash none a.valid in
      let copy_b =
        event_with_integrity-IsCopy f b.input f.integrity.previous_event_hash none b.valid in
      let input : a.input ≡ b.input = cc (IsHash-load a sorted_e, IsHash-load b sorted_f) in
      let links : e.integrity.previous_event_hash ≡ f.integrity.previous_event_hash =
        sym (ap (λ x. x.integrity.previous_event_hash) copy_a.fields)
        ∙ ap (λ x. x.integrity.previous_event_hash) input
        ∙ ap (λ x. x.integrity.previous_event_hash) copy_b.fields in
      let objects : model_json p.isoformat e ≡ model_json p.isoformat f =
        model_json-copy p.isoformat e a.input e.integrity.previous_event_hash none copy_a
        ∙ (λ i. model_json p.isoformat (rehashed (input i) (links i) (hashes i)))
        ∙ sym (model_json-copy p.isoformat f b.input f.integrity.previous_event_hash none copy_b) in
      (
        links,
        ap
            (λ m. of_checked (normalize_json p.isoformat default_limits 0 m) >>= λ v.
              encoded (p.dumps v))
            objects,
      )

  same_digest :
      (x y : Bytes p) → sha256_digest p x ≡ sha256_digest p y → p.hexdigest x ≡ p.hexdigest y
  unfolding sha256_digest
  same_digest x y h = append_cancel_left "sha256:" (p.hexdigest x) (p.hexdigest y) h

  differ : (x y : Bytes p) → bytes_eq p.byte_eq x y ≡ false → x ≢ y
  differ x y h same =
      cc (h, ap (bytes_eq p.byte_eq x) same, bytes_eq_refl p.byte_eq laws.byte_eq_iff x)

  -- Two records with one hash have the same bytes and the same hash before them.
  same_record :
      {i j : ℕ} {s t : Option String} (e f : Event) (raw raw' : Bytes p)
      → IsRecord p i s e raw
      → IsRecord p j t f raw'
      → e.integrity.event_hash ≡ f.integrity.event_hash
      → ((s ≡ t) × (raw ≡ raw')) ⊎ Collision p
  same_record e f raw raw' r q hashes =
      let a = compute_event_hash-IsHash p e r.hash r.digest in
      let b = compute_event_hash-IsHash p f q.hash q.digest in
      let hash : r.hash ≡ q.hash = cc (r.hashed, q.hashed, hashes) in
      let digests : sha256_digest p a.bytes ≡ sha256_digest p b.bytes =
        sym a.digest ∙ hash ∙ b.digest in
      elim (Bool-cases (bytes_eq p.byte_eq a.bytes b.bytes)) [
        | inl same ↦
            let (links, lines) =
              same_input e f a b (IsRecord-sorted e raw r) (IsRecord-sorted f raw' q)
                (bytes_eq-eq p laws a.bytes b.bytes same) hashes in
            let line : r.line ≡ q.line = cc (r.serialized, q.serialized, lines) in
            inl (
              sym r.chained ∙ links ∙ q.chained,
              r.canonical ∙ ap (λ l. l ++ p.newline ∷ []) line ∙ sym q.canonical,
            )
        | inr other ↦ inr (record {
          first = a.bytes;
          second = b.bytes;
          distinct = differ a.bytes b.bytes other;
          same_digest = same_digest a.bytes b.bytes digests;
        })
      ]

  -- Chains of one length that end in the same hash have the same lines and begin at the same hash.
  records_agree :
      (i j : ℕ) (s t : Option String) (es fs : List Event) (raws raws' : List (Bytes p))
      (last : Option String)
      → Chain p i s es raws last
      → Chain p j t fs raws' last
      → length es ≡ length fs
      → ((s ≡ t) × (raws ≡ raws')) ⊎ Collision p
  records_agree i j s t [] [] [] [] last c d n = inl (c ∙ sym d, refl)
  records_agree i j s t [] (_ ∷ _) raws raws' last c d n = absurd (omega arith)
  records_agree i j s t (_ ∷ _) [] raws raws' last c d n = absurd (omega arith)
  records_agree i j s t [] [] (_ ∷ _) raws' last c d n = absurd c
  records_agree i j s t [] [] [] (_ ∷ _) last c d n = absurd d
  records_agree i j s t (_ ∷ _) (_ ∷ _) [] raws' last c d n = absurd c
  records_agree i j s t (_ ∷ _) (_ ∷ _) (_ ∷ _) [] last c d n = absurd d
  records_agree i j s t (e ∷ es) (f ∷ fs) (raw ∷ raws) (raw' ∷ raws') last c d n =
      elim (records_agree (suc i) (suc j) e.integrity.event_hash f.integrity.event_hash es fs raws
        raws' last c.1 d.1 (omega arith)) [
          | inr collision ↦ inr collision
          | inl (hashes, tails) ↦ elim (same_record e f raw raw' c.0 d.0 hashes) [
            | inr collision ↦ inr collision
            | inl (starts, first) ↦ inl (starts, ap₂ ◌∷◌ first tails)
          ]
        ]

  -- Chains of one length and one last hash have the same bytes, up to a collision.
  pub Holds-agree :
      (c d : Bytes p) (es fs : List Event) (last last' : Option String)
      → Holds p c es last
      → Holds p d fs last'
      → length es ≡ length fs
      → last ≡ last'
      → (c ≡ d) ⊎ Collision p
  Holds-agree c d es fs last last' a b counts hashes =
      let chain = subst (Chain p 0 none es a.lines) hashes a.chain in
      elim (records_agree 0 0 none none es fs a.lines b.lines last' chain b.chain counts) [
        | inr collision ↦ inr collision
        | inl (_, lines) ↦ inl (a.bytes ∙ ap join_lines lines ∙ sym b.bytes)
      ]

  -- Two files that verify with the same number of records and the same last hash are the same
  -- bytes, or they give two different inputs of SHA-256 with one digest.
  pub snapshot-pins_bytes :
      (f g : FileRead p) (s t : Snapshot)
      → verified_journal_snapshot p none none (some f) ≡ ok s
      → verified_journal_snapshot p none none (some g) ≡ ok t
      → s.ok_flag ≡ true
      → t.ok_flag ≡ true
      → s.records_verified ≡ t.records_verified
      → s.last_event_hash ≡ t.last_event_hash
      → (f.content ≡ g.content) ⊎ Collision p
  snapshot-pins_bytes f g s t hs ht ks kt counts hashes =
      let a = snapshot_sound p laws none none f s hs ks in
      let b = snapshot_sound p laws none none g t ht kt in
      Holds-agree f.content g.content s.events t.events s.last_event_hash t.last_event_hash a.holds
        b.holds (sym a.records ∙ counts ∙ b.records) hashes
