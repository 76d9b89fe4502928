-- ===== src/Anchors/Pins.antt =====
-- An anchor pins the bytes of a journal: src/actionlineage/journal/anchors.py.
use action_lineage.Base.{
  ℕ, suc, ◌≡◌, ◌⊎◌, inl, inr, refl, sym, ap, ◌∙◌, subst, String, Bool, Bool-cases, Option, none,
  some, List, [], ◌∷◌, ◌++◌, length, true, false, Outcome, ok, err, >>=-eq-ok, require,
  ok_injective, arith,
}
use action_lineage.Domain.Value.{Datetime}
use action_lineage.Domain.Event.{Event}
use action_lineage.Journal.{Platform, IsPlatform}
use action_lineage.Journal.Hashing.{Bytes, HashFault}
use action_lineage.Journal.Snapshot.{Snapshot, FileRead, verified_journal_snapshot}
use action_lineage.Journal.Chain.{Chain}
use action_lineage.Journal.Verified.{Holds, Ends, snapshot_sound}
use action_lineage.Journal.Tamper.{Collision, Holds-agree}
use action_lineage.Anchors.{
  JournalAnchor, AnchorError, AnchorIssue, AnchorVerification, anchor_raising, unverified,
  unsigned_anchor, sign_anchor, create_journal_anchor, verify_journal_anchor, signature_issues,
  journal_issues, is_empty_list, anchor_signature, signature_algorithm_name,
}

pub anchor_raising-eq-ok :
    {A : Type 0} (m : Outcome HashFault A) {a : A} → anchor_raising m ≡ ok a → m ≡ ok a
anchor_raising-eq-ok (ok a) h = cc
anchor_raising-eq-ok (err f) h = cc

require_flag : {u : Unit {0}} (b : Bool) (e : AnchorError) → require b e ≡ ok u → b ≡ true
require_flag true e h = refl
require_flag false e h = cc

module _ (p : Platform) where
  -- A chain behind a hash ends in a hash.
  Chain-last :
      (index : ℕ) (hash : String) (es : List Event) (lines : List (Bytes p)) (last : Option String)
      → Chain p index (some hash) es lines last
      → (final : String) × (last ≡ some final)
  Chain-last index hash [] [] last c = (hash, sym c)
  Chain-last index hash [] (_ ∷ _) last c = absurd c
  Chain-last index hash (_ ∷ _) [] last c = absurd c
  Chain-last index hash (e ∷ es) (_ ∷ lines) last c =
      Chain-last (suc index) c.0.hash es lines last
        (subst (λ h. Chain p (suc index) h es lines last) c.0.hashed c.1)

  -- A journal without a last hash has no events, and the other way round.
  empty_last :
      (content : Bytes p) (es : List Event) (last : Option String)
      → Holds p content es last
      → last ≡ none
      → length es ≡ 0
  empty_last content es last h is_none =
      by_lines es h.lines (subst (Chain p 0 none es h.lines) is_none h.chain)
    where
      by_lines :
          (es : List Event) (lines : List (Bytes p)) → Chain p 0 none es lines none → length es ≡ 0
      by_lines [] lines c = refl
      by_lines (_ ∷ _) [] c = absurd c
      by_lines (e ∷ es) (_ ∷ lines) c =
          let (final, is) =
            Chain-last 1 c.0.hash es lines none
              (subst (λ h. Chain p 1 h es lines none) c.0.hashed c.1) in
          cc

  last_of_empty :
      (content : Bytes p) (es : List Event) (last : Option String)
      → Holds p content es last
      → length es ≡ 0
      → last ≡ none
  last_of_empty content es last h is_empty = by_lines es h.lines h.chain is_empty
    where
      by_lines :
          (es : List Event) (lines : List (Bytes p))
          → Chain p 0 none es lines last
          → length es ≡ 0
          → last ≡ none
      by_lines [] [] c e = sym c
      by_lines [] (_ ∷ _) c e = absurd c
      by_lines (_ ∷ _) lines c e = absurd (omega arith)

  -- An expected count and last hash that are those of one journal, met by another.
  same_last :
      (content content' : Bytes p) (es fs : List Event) (last last' : Option String)
      → Holds p content es last
      → Holds p content' fs last'
      → length es ≡ length fs
      → Ends last last'
      → last ≡ last'
  same_last content content' es fs none last' a b counts ends =
      sym (last_of_empty content' fs last' b (sym counts ∙ empty_last content es none a refl))
  same_last content content' es fs (some hash) last' a b counts ends = sym ends

  module _ (hmac : Bytes p → Bytes p → String) where
    -- A signature changes nothing of what an anchor says of the journal.
    pub sign_anchor-says :
        (key : Option (Bytes p)) (a b : JournalAnchor)
        → sign_anchor p hmac key a ≡ ok b
        → (b.record_count ≡ a.record_count) × (b.last_event_hash ≡ a.last_event_hash)
    unfolding sign_anchor
    sign_anchor-says none a b h =
        let same = ok_injective h in
        (ap (λ x. x.record_count) (sym same), ap (λ x. x.last_event_hash) (sym same))
    sign_anchor-says (some key) a b h =
        let (signed, _, h₁) =
          >>=-eq-ok
            (anchor_signature p hmac
              (record a { signature_algorithm = some signature_algorithm_name }) key)
            _ h in
        let same = ok_injective h₁ in
        (ap (λ x. x.record_count) (sym same), ap (λ x. x.last_event_hash) (sym same))

    pub created :
        (path : String) (file : Option (FileRead p)) (key : Option (Bytes p)) (time : Datetime)
        (a : JournalAnchor)
        → create_journal_anchor p hmac path file key time ≡ ok a
        → (s : Snapshot) × (verified_journal_snapshot p none none file ≡ ok s)
          × (s.ok_flag ≡ true)
          × (sign_anchor p hmac key (unsigned_anchor p hmac path time s) ≡ ok a)
    unfolding create_journal_anchor
    created path file key time a h =
        let (s, v, h₁) =
          >>=-eq-ok (anchor_raising (verified_journal_snapshot p none none file)) _ h in
        let (_, k, h₂) = >>=-eq-ok (require s.ok_flag unverified) _ h₁ in
        (s, anchor_raising-eq-ok _ v, require_flag s.ok_flag unverified k, h₂)

    no_journal_issues :
        (signing : List AnchorIssue) (s : Snapshot)
        → is_empty_list (signing ++ journal_issues p hmac s) ≡ true
        → s.ok_flag ≡ true
    no_journal_issues (_ ∷ _) s h = cc
    no_journal_issues [] s h = elim (Bool-cases s.ok_flag) [
      | inl flag ↦ flag
      | inr flag ↦ cc (rw flag at h)
    ]

    pub anchor_verified :
        (file : Option (FileRead p)) (a : JournalAnchor) (key : Option (Bytes p))
        (v : AnchorVerification)
        → verify_journal_anchor p hmac file a key ≡ ok v
        → v.ok_flag ≡ true
        → (verified_journal_snapshot p (some a.record_count) a.last_event_hash file ≡ ok v.journal)
          × (v.journal.ok_flag ≡ true)
    unfolding verify_journal_anchor
    anchor_verified file a key v h flag =
        let (signing, _, h₁) = >>=-eq-ok (signature_issues p hmac a a.signature key) _ h in
        let (s, k, h₂) =
          >>=-eq-ok
            (anchor_raising
              (verified_journal_snapshot p (some a.record_count) a.last_event_hash file))
            _ h₁ in
        let same = ok_injective h₂ in
        (
          anchor_raising-eq-ok _ k ∙ ap (λ x. ok x.journal) same,
          subst (λ x. x.journal.ok_flag ≡ true) same
              (no_journal_issues signing s (ap (λ x. x.ok_flag) same ∙ flag)),
        )

module _ (p : Platform) (laws : IsPlatform p) (hmac : Bytes p → Bytes p → String) where
  -- A journal that verifies against an anchor, with whatever keys, has the same bytes as the journal
  -- that the anchor was made of, or there are two different inputs of SHA-256 with one digest.
  pub anchor-pins_bytes :
      (path : String) (f g : FileRead p) (key key' : Option (Bytes p)) (time : Datetime)
      (a : JournalAnchor) (v : AnchorVerification)
      → create_journal_anchor p hmac path (some f) key time ≡ ok a
      → verify_journal_anchor p hmac (some g) a key' ≡ ok v
      → v.ok_flag ≡ true
      → (f.content ≡ g.content) ⊎ Collision p
  anchor-pins_bytes path f g key key' time a v made checked flag =
      let (s, hs, ks, signed) = created p hmac path (some f) key time a made in
      let (count, hash) =
        sign_anchor-says p hmac key (unsigned_anchor p hmac path time s) a signed in
      let (ht, kt) = anchor_verified p hmac (some g) a key' v checked flag in
      let x = snapshot_sound p laws none none f s hs ks in
      let y = snapshot_sound p laws (some a.record_count) a.last_event_hash g v.journal ht kt in
      let counts : length s.events ≡ length v.journal.events =
        sym x.records ∙ sym count ∙ sym y.counted ∙ y.records in
      Holds-agree p laws f.content g.content s.events v.journal.events s.last_event_hash
        v.journal.last_event_hash x.holds y.holds counts
        (same_last p f.content g.content s.events v.journal.events s.last_event_hash
          v.journal.last_event_hash x.holds y.holds counts
          (subst (λ o. Ends o v.journal.last_event_hash) hash y.ended))
