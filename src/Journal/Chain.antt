-- ===== src/Journal/Chain.antt =====
-- The hash chain that a journal is meant to hold, and that the verifier's loop accepts exactly it.
use action_lineage.Base.{
  Bool-cases, Option-cases, &&-true, ap₂, inl, inr, subst, ℕ, suc, String, ◌≡◌, refl, Bool, true,
  false, not, Option, none, some, List, [], ◌∷◌, ◌++◌, if◌then◌else◌, Outcome, ok, err, >>=-eq-ok,
  eq_iff, ==_iff, str_eq, ◌==◌,
}
use action_lineage.Domain.Event.{Event}
use action_lineage.Journal.{Platform, IsPlatform}
use action_lineage.Journal.Bytes.{bytes_eq, rstrip_newlines, ends_with_newline}
use action_lineage.Journal.Hashing.{
  HashFault, unsupported_label, redaction_failed, non_object, not_an_event, not_encodable, not_json,
  invalid, Bytes, serialize_event, compute_event_hash,
}
use action_lineage.Journal.Snapshot.{
  Issue, Verdict, accept, reject, check_event, check_record, option_eq, check_hash, check_digest,
  is_empty,
}

module _ (p : Platform) where
  -- A line that holds the record at an index, chained to the hash before it.
  pub record IsRecord (index : ℕ) (previous : Option String) (e : Event) (raw : Bytes p)
      : Type 0 where
    pub line : Bytes p
    pub hash : String
    pub serialized : serialize_event p e ≡ ok line
    pub canonical : raw ≡ line ++ p.newline ∷ []
    pub parsed : p.load (rstrip_newlines p.byte_eq p.newline raw) ≡ some e
    pub in_order : e.causality.sequence ≡ index
    pub chained : e.integrity.previous_event_hash ≡ previous
    pub hashed : e.integrity.event_hash ≡ some hash
    pub digest : compute_event_hash p e ≡ ok hash

  -- The lines of a journal, from an index and the hash before it, with its events and last hash.
  abbrev pub Chain : ℕ → Option String → List Event → List (Bytes p) → Option String → Type 0
  Chain index previous [] [] last = previous ≡ last
  Chain index previous [] (_ ∷ _) last = ⊥
  Chain index previous (_ ∷ _) [] last = ⊥
  Chain index previous (e ∷ es) (raw ∷ raws) last =
      IsRecord index previous e raw × Chain (suc index) e.integrity.event_hash es raws last

passes :
    (b : Bool) (i : Issue) (m : Outcome HashFault Verdict) {e : Event}
    → (if not b then ok (reject i) else m) ≡ ok (accept e)
    → (b ≡ true) × (m ≡ ok (accept e))
passes true i m h = (refl, h)
passes false i m h = cc

passes_unless :
    (b : Bool) (i : Issue) (m : Outcome HashFault Verdict) {e : Event}
    → (if b then ok (reject i) else m) ≡ ok (accept e)
    → m ≡ ok (accept e)
passes_unless true i m h = cc
passes_unless false i m h = h

option_eq-eq : (s t : Option String) → option_eq s t ≡ true → s ≡ t
option_eq-eq none none h = refl
option_eq-eq none (some _) h = cc
option_eq-eq (some _) none h = cc
option_eq-eq (some s) (some t) h = cc ((eq_iff s t).0 h)

module _ (p : Platform) (laws : IsPlatform p) where
  pub bytes_eq-eq : (xs ys : Bytes p) → bytes_eq p.byte_eq xs ys ≡ true → xs ≡ ys
  unfolding bytes_eq
  bytes_eq-eq [] [] h = refl
  bytes_eq-eq [] (_ ∷ _) h = cc
  bytes_eq-eq (_ ∷ _) [] h = cc
  bytes_eq-eq (x ∷ xs) (y ∷ ys) h =
      let (first, rest) = &&-true (p.byte_eq x y) (bytes_eq p.byte_eq xs ys) h in
      ap₂ ◌∷◌ ((laws.byte_eq_iff x y).0 first) (bytes_eq-eq xs ys rest)

  check_digest-accept :
      (n : ℕ) (e f : Event) (hash : String) (m : Outcome HashFault String)
      → check_digest p n e hash m ≡ ok (accept f)
      → (e ≡ f) × (m ≡ ok hash)
  check_digest-accept n e f hash (ok computed) h = elim (Bool-cases (str_eq hash computed)) [
    | inl same ↦ (cc (rw same at h), cc ((eq_iff hash computed).0 same))
    | inr other ↦ cc (rw other at h)
  ]
  check_digest-accept n e f hash (err unsupported_label) h = cc
  check_digest-accept n e f hash (err redaction_failed) h = cc
  check_digest-accept n e f hash (err non_object) h = cc
  check_digest-accept n e f hash (err not_an_event) h = cc
  check_digest-accept n e f hash (err not_encodable) h = cc
  check_digest-accept n e f hash (err (not_json _)) h = cc
  check_digest-accept n e f hash (err (invalid _)) h = cc

  -- The facts of a record whose hash is given, but for how its line was parsed.
  check_hash-accept :
      (n : ℕ) (e f : Event) (o : Option String)
      → check_hash p n e o ≡ ok (accept f)
      → (hash : String) × (e ≡ f) × (o ≡ some hash) × (compute_event_hash p e ≡ ok hash)
  check_hash-accept n e f none h = cc
  check_hash-accept n e f (some hash) h =
      let (same, digest) = check_digest-accept n e f hash (compute_event_hash p e) h in
      (hash, same, refl, digest)

  check_event-accept :
      (index : ℕ) (previous : Option String) (raw : Bytes p) (e f : Event)
      → p.load (rstrip_newlines p.byte_eq p.newline raw) ≡ some e
      → check_event p index previous raw e ≡ ok (accept f)
      → IsRecord p index previous f raw
  unfolding check_event
  check_event-accept index previous raw e f parsed h =
      let (line, serialized, h₁) = >>=-eq-ok (serialize_event p e) _ h in
      let (bytes, h₂) = passes (bytes_eq p.byte_eq raw (line ++ p.newline ∷ [])) _ _ h₁ in
      let (order, h₃) = passes (e.causality.sequence == index) _ _ h₂ in
      let (link, h₄) = passes (option_eq e.integrity.previous_event_hash previous) _ _ h₃ in
      let (hash, same, hashed, digest) =
        check_hash-accept (suc index) e f e.integrity.event_hash h₄ in
      subst (λ x. IsRecord p index previous x raw) same
        (record {
          line = line;
          hash = hash;
          serialized = serialized;
          canonical = bytes_eq-eq raw (line ++ p.newline ∷ []) bytes;
          parsed = parsed;
          in_order = (==_iff e.causality.sequence index).0 order;
          chained = option_eq-eq e.integrity.previous_event_hash previous link;
          hashed = hashed;
          digest = digest;
        })

  pub check_record-accept :
      (index : ℕ) (previous : Option String) (raw : Bytes p) (f : Event)
      → check_record p index previous raw ≡ ok (accept f)
      → IsRecord p index previous f raw
  unfolding check_record
  check_record-accept index previous raw f h =
      let (_, h₁) = passes (ends_with_newline p.byte_eq p.newline raw) _ _ h in
      let h₂ = passes_unless (is_empty p (rstrip_newlines p.byte_eq p.newline raw)) _ _ h₁ in
      elim (Option-cases (p.load (rstrip_newlines p.byte_eq p.newline raw))) [
        | inl unparsed ↦ cc (rw unparsed at h₂)
        | inr (e, parsed) ↦ check_event-accept index previous raw e f parsed (rw parsed at h₂)
      ]
