-- ===== src/Journal/Prepare.antt =====
-- A prepared line is a record of the chain: `prepare_event_for_append` of
-- src/actionlineage/journal/hashing.py.
use action_lineage.Base.{
  ok_injective, String, ◌≡◌, ◌⊎◌, refl, sym, ap, ◌∙◌, subst, Option, none, some, List, [], true,
  ◌∷◌, ◌++◌, Outcome, ok, ◌>>=◌, ◌>>◌, >>=-eq-ok,
}
use action_lineage.Domain.Value.{Value, map, thaw_json_value}
use action_lineage.Domain.Value.Sorted.{is_sorted}
use action_lineage.Domain.Event.{Event, validate_event, event_with_integrity, event_to_dict}
use action_lineage.Journal.{Platform, IsPlatform}
use action_lineage.Journal.Bytes.Lines.{rstrip-clean}
use action_lineage.Journal.Hashing.{
  HashFault, RedactionBoundary, redact_dict, redacted_bytes, Bytes, of_fault, serialize_event,
  serialize_event_for_persistence, compute_event_hash, sha256_digest, event_from_json, loaded,
  prepare_event_for_append, require_supported_persisted_event_canonicalization,
}
use action_lineage.Journal.Chain.{IsRecord}
use action_lineage.Journal.Scan.{serialize_event-clean}
use action_lineage.Journal.Integrity.{
  encoded-eq-ok, IsCopy, event_with_integrity-IsCopy, rehashed, of_fault-eq-ok,
}
use action_lineage.Journal.Tamper.{load-serialize, IsCopy-sorted}

-- The place of an event in the chain: its number and the hash before it.
pub record SamePlace (e f : Event) : Type 0 where
  pub sequence : f.causality.sequence ≡ e.causality.sequence
  pub previous : f.integrity.previous_event_hash ≡ e.integrity.previous_event_hash

-- The hash before an event: none, or the digest of some bytes.
abbrev pub IsDigest : (p : Platform) → Option String → Type 0
IsDigest p hash = (hash ≡ none) ⊎ ((b : List p.Byte) × (hash ≡ some (sha256_digest p b)))

-- A redaction boundary that leaves a valid event at its place, as the event is read back, where the
-- hash before it is a digest.
abbrev pub KeepsPlace : Platform → RedactionBoundary → Type 0
KeepsPlace p redact =
    (d e f : Event) (bytes : List p.Byte)
    → validate_event d ≡ ok e
    → IsDigest p e.integrity.previous_event_hash
    → serialize_event_for_persistence p redact e ≡ ok bytes
    → p.load bytes ≡ some f
    → SamePlace e f

loaded-eq-ok : (o : Option Event) {e : Event} → loaded o ≡ ok e → o ≡ some e
loaded-eq-ok none h = cc
loaded-eq-ok (some f) h = cc

-- What is hashed: the event without its own hash, dumped.
abbrev hash_input : Event → Event
hash_input e = record (rehashed e e.integrity.previous_event_hash none) {
  payload = thaw_json_value e.payload;
}

module _ (p : Platform) where
  abbrev hash_of : Event → Outcome HashFault String
  hash_of x =
      require_supported_persisted_event_canonicalization x.integrity.canonicalization
      >> (of_fault (validate_event x) >>= λ valid.
          serialize_event p valid >>= λ bytes. ok (sha256_digest p bytes))

  compute_event_hash-input : (e : Event) → compute_event_hash p e ≡ hash_of (hash_input e)
  unfolding compute_event_hash event_with_integrity
  compute_event_hash-input e = refl

  -- A copy that differs in its own hash alone has the same computed hash.
  pub compute_event_hash-copy :
      (r f : Event) (previous hash : Option String)
      → IsCopy r previous hash f
      → r.integrity.previous_event_hash ≡ previous
      → compute_event_hash p f ≡ compute_event_hash p r
  compute_event_hash-copy r f previous hash c link =
      let shown = thaw_json_value f.payload in
      let input : hash_input f ≡ hash_input r =
        subst
          (λ g.
            record (hash_input g) { payload = shown }
            ≡ record (rehashed r previous none) { payload = shown })
          (sym c.fields) refl
        ∙ (λ i. record (rehashed r (sym link i) none) { payload = c.payload i }) in
      compute_event_hash-input f ∙ ap hash_of input ∙ sym (compute_event_hash-input r)

  -- The values on the way to a prepared line.
  pub record IsPrepared (redact : RedactionBoundary) (e : Event) (previous : Option String)
      (f : Event) (line : Bytes p) : Type 0 where
    pub unhashed : Event
    pub redacted : Bytes p
    pub read : Event
    pub hash : String
    pub copied : event_with_integrity e previous none ≡ ok unhashed
    pub redaction : serialize_event_for_persistence p redact unhashed ≡ ok redacted
    pub reading : p.load redacted ≡ some read
    pub hashing : compute_event_hash p read ≡ ok hash
    pub sealing : event_with_integrity read previous (some hash) ≡ ok f
    pub serialized : serialize_event p f ≡ ok line

  pub prepare-IsPrepared :
      (redact : RedactionBoundary) (e f : Event) (previous : Option String) (line : Bytes p)
      → prepare_event_for_append p redact e previous ≡ ok (f, line)
      → IsPrepared redact e previous f line
  unfolding prepare_event_for_append
  prepare-IsPrepared redact e f previous line h =
      let (_, _, h₁) =
        >>=-eq-ok (require_supported_persisted_event_canonicalization e.integrity.canonicalization)
          _ h in
      let (unhashed, v₁, h₂) = >>=-eq-ok (of_fault (event_with_integrity e previous none)) _ h₁ in
      let (bytes, v₂, h₃) = >>=-eq-ok (serialize_event_for_persistence p redact unhashed) _ h₂ in
      let (r, v₃, h₄) = >>=-eq-ok (event_from_json p bytes) _ h₃ in
      let (hash, v₄, h₅) = >>=-eq-ok (compute_event_hash p r) _ h₄ in
      let (g, v₅, h₆) = >>=-eq-ok (of_fault (event_with_integrity r previous (some hash))) _ h₅ in
      let (l, v₆, h₇) = >>=-eq-ok (serialize_event p g) _ h₆ in
      let pairs : ◌≡◌ {A = Event × Bytes p} (g, l) (f, line) = ok_injective h₇ in
      let event : g ≡ f = ap (λ x. x.0) pairs in
      let bytes_of : l ≡ line = ap (λ x. x.1) pairs in
      record {
        unhashed = unhashed;
        redacted = bytes;
        read = r;
        hash = hash;
        copied = of_fault-eq-ok (event_with_integrity e previous none) v₁;
        redaction = v₂;
        reading = loaded-eq-ok (p.load bytes) v₃;
        hashing = v₄;
        sealing = of_fault-eq-ok (event_with_integrity r previous (some hash)) v₅ ∙ ap ok event;
        serialized = ap (serialize_event p) (sym event) ∙ v₆ ∙ ap ok bytes_of;
      }

module _ (p : Platform) (laws : IsPlatform p) (redact : RedactionBoundary)
    (keeps : KeepsPlace p redact) where
  -- What is read of a persisted event has its keys in order.
  persisted-sorted :
      (e f : Event) (bytes : Bytes p)
      → serialize_event_for_persistence p redact e ≡ ok bytes
      → p.load bytes ≡ some f
      → is_sorted f.payload ≡ true
  unfolding serialize_event_for_persistence
  persisted-sorted e f bytes h k =
      let (v, same) = written (redact_dict p redact (event_to_dict p.isoformat e)) h in
      laws.load-sorted v bytes f same k
    where
      written :
          (o : Option Value)
          → redacted_bytes p o ≡ ok bytes
          → (v : Value) × (p.dumps v ≡ some bytes)
      written (some (map c fs)) g = (map c fs, encoded-eq-ok (p.dumps (map c fs)) g)
      written _ g = cc

  IsPrepared-IsRecord :
      (e f : Event) (previous : Option String) (line : Bytes p)
      → IsDigest p previous
      → IsPrepared p redact e previous f line
      → IsRecord p e.causality.sequence previous f (line ++ p.newline ∷ [])
  unfolding event_with_integrity
  IsPrepared-IsRecord e f previous line digest s =
      let first = event_with_integrity-IsCopy e s.unhashed previous none s.copied in
      let last = event_with_integrity-IsCopy s.read f previous (some s.hash) s.sealing in
      let place =
        keeps _ s.unhashed s.read s.redacted s.copied
          (subst (IsDigest p) (sym (ap (λ x. x.integrity.previous_event_hash) first.fields)) digest)
          s.redaction s.reading in
      let (clean, _) = serialize_event-clean p laws f line s.serialized in
      let link : s.read.integrity.previous_event_hash ≡ previous =
        place.previous ∙ ap (λ x. x.integrity.previous_event_hash) first.fields in
      record {
        line = line;
        hash = s.hash;
        serialized = s.serialized;
        canonical = refl;
        parsed =
            ap p.load (rstrip-clean p.byte_eq laws.byte_eq_iff p.newline line clean)
            ∙ load-serialize p laws _ f line s.sealing
                (IsCopy-sorted p laws s.read f previous (some s.hash) last
                  (persisted-sorted s.unhashed s.read s.redacted s.redaction s.reading))
                s.serialized;
        in_order =
            ap (λ x. x.causality.sequence) last.fields
            ∙ place.sequence
            ∙ ap (λ x. x.causality.sequence) first.fields;
        chained = ap (λ x. x.integrity.previous_event_hash) last.fields;
        hashed = ap (λ x. x.integrity.event_hash) last.fields;
        digest = compute_event_hash-copy p s.read f previous (some s.hash) last link ∙ s.hashing;
      }

  -- The line that is prepared is a record at the event's number, chained to the hash given.
  pub prepare-IsRecord :
      (e f : Event) (previous : Option String) (line : Bytes p)
      → IsDigest p previous
      → prepare_event_for_append p redact e previous ≡ ok (f, line)
      → IsRecord p e.causality.sequence previous f (line ++ p.newline ∷ [])
  prepare-IsRecord e f previous line digest h =
      IsPrepared-IsRecord e f previous line digest (prepare-IsPrepared p redact e f previous line h)
