-- ===== src/Anchors/Signed.antt =====
-- Signatures of anchors: src/actionlineage/journal/anchors.py.
use action_lineage.Base.{
  ◌≡◌, inl, inr, refl, sym, ap, ◌∙◌, subst, String, Bool-cases, Option, none, some, List, [], ◌∷◌,
  ◌++◌, true, ok, >>=-eq-ok, ok_injective, str_eq, eq_refl, eq_iff,
}
use action_lineage.Domain.Value.{Datetime}
use action_lineage.Journal.{Platform, IsPlatform}
use action_lineage.Journal.Hashing.{Bytes}
use action_lineage.Journal.Snapshot.{Snapshot, FileRead, metadata_eq, verified_journal_snapshot}
use action_lineage.Journal.Verified.{Holds, Ends, snapshot_sound, snapshot_complete, clean_snapshot}
use action_lineage.Anchors.{
  JournalAnchor, AnchorIssue, AnchorVerification, anchor_raising, sign_anchor, unsigned_anchor,
  create_journal_anchor, verify_journal_anchor, signature_issues, journal_issues, is_empty_list,
  anchor_signature, unsigned_dict, signature_algorithm_name,
}
use action_lineage.Anchors.Pins.{created, sign_anchor-says}

module _ (p : Platform) (hmac : Bytes p → Bytes p → String) where
  -- The signature that is made is the one that is computed of the anchor it is in.
  signed_again :
      (key : Option (Bytes p)) (a b : JournalAnchor)
      → a.signature ≡ none
      → sign_anchor p hmac key a ≡ ok b
      → signature_issues p hmac b b.signature key ≡ ok []
  unfolding sign_anchor signature_issues anchor_signature unsigned_dict
  signed_again none a b unsigned h =
      let same = ok_injective h in
      subst (λ x. signature_issues p hmac x x.signature none ≡ ok []) same (rw unsigned refl)
  signed_again (some key) a b unsigned h =
      let named : JournalAnchor = record a {
        signature_algorithm = some signature_algorithm_name;
      } in
      let (signed, computed, h₁) = >>=-eq-ok (anchor_signature p hmac named key) _ h in
      let same = ok_injective h₁ in
      subst (λ x. signature_issues p hmac x x.signature (some key) ≡ ok []) same
        (rw computed (rw (eq_refl signed) refl))

  verified_with :
      (file : Option (FileRead p)) (a : JournalAnchor) (key : Option (Bytes p)) (s : Snapshot)
      → signature_issues p hmac a a.signature key ≡ ok []
      → verified_journal_snapshot p (some a.record_count) a.last_event_hash file ≡ ok s
      → s.ok_flag ≡ true
      → verify_journal_anchor p hmac file a key
        ≡ ok (record { ok_flag = true; journal = s; issues = [] })
  unfolding verify_journal_anchor
  verified_with file a key s signing checked flag = rw (signing, checked) (rw flag refl)

  key_of_signed :
      (a : JournalAnchor) (given : String) (key : Option (Bytes p))
      → signature_issues p hmac a (some given) key ≡ ok []
      → (k : Bytes p) × (key ≡ some k) × (anchor_signature p hmac a k ≡ ok given)
  unfolding signature_issues
  key_of_signed a given none e = cc
  key_of_signed a given (some k) e =
      let (computed, is, e₁) = >>=-eq-ok (anchor_signature p hmac a k) _ e in
      elim (Bool-cases (str_eq given computed)) [
        | inl same ↦ (k, refl, is ∙ ap ok (sym ((eq_iff given computed).0 same)))
        | inr other ↦ cc (rw other at e₁)
      ]

  -- An anchor that has a signature verifies only with a key, and only where the signature is the
  -- HMAC with that key of all else that the anchor says.
  pub verify-signature :
      (file : Option (FileRead p)) (a : JournalAnchor) (key : Option (Bytes p)) (given : String)
      (v : AnchorVerification)
      → a.signature ≡ some given
      → verify_journal_anchor p hmac file a key ≡ ok v
      → v.ok_flag ≡ true
      → (k : Bytes p) × (key ≡ some k) × (anchor_signature p hmac a k ≡ ok given)
  unfolding verify_journal_anchor
  verify-signature file a key given v is_signed h flag =
      let (signing, issued, h₁) = >>=-eq-ok (signature_issues p hmac a a.signature key) _ h in
      let (s, k, h₂) =
        >>=-eq-ok
          (anchor_raising
            (verified_journal_snapshot p (some a.record_count) a.last_event_hash file))
          _ h₁ in
      let none_left =
        no_signing signing (journal_issues p hmac s)
          (ap (λ x. x.ok_flag) (ok_injective h₂) ∙ flag) in
      key_of_signed a given key
        (ap (λ o. signature_issues p hmac a o key) (sym is_signed) ∙ issued ∙ ap ok none_left)
    where
      no_signing : (xs ys : List AnchorIssue) → is_empty_list (xs ++ ys) ≡ true → xs ≡ []
      no_signing [] ys e = refl
      no_signing (_ ∷ _) ys e = cc

module _ (p : Platform) (laws : IsPlatform p) (hmac : Bytes p → Bytes p → String) where
  -- A journal with the bytes that an anchor was made of verifies against it with the key that it
  -- was made with, or without a key if it was made without one, and no issue is reported.
  pub create-verify :
      (path : String) (f g : FileRead p) (key : Option (Bytes p)) (time : Datetime)
      (a : JournalAnchor)
      → create_journal_anchor p hmac path (some f) key time ≡ ok a
      → g.content ≡ f.content
      → metadata_eq p g.before g.after ≡ true
      → (v : AnchorVerification) × (verify_journal_anchor p hmac (some g) a key ≡ ok v)
        × (v.ok_flag ≡ true)
        × (v.issues ≡ [])
  create-verify path f g key time a made same stable =
      let (s, hs, ks, signed) = created p hmac path (some f) key time a made in
      let (count, hash) =
        sign_anchor-says p hmac key (unsigned_anchor p hmac path time s) a signed in
      let x = snapshot_sound p laws none none f s hs ks in
      let held = subst (λ c. Holds p c s.events s.last_event_hash) (sym same) x.holds in
      let checked =
        snapshot_complete p laws (some a.record_count) a.last_event_hash s.events s.last_event_hash
          g held stable (sym x.records ∙ sym count)
          (subst (λ o. Ends o s.last_event_hash) (sym hash) (ends s.last_event_hash)) in
      (
        record {
          ok_flag = true;
          journal = clean_snapshot p g s.events s.last_event_hash;
          issues = [];
        },
        verified_with p hmac (some g) a key _ (signed_again p hmac key _ a refl signed) checked
            refl,
        refl,
        refl,
      )
    where
      ends : (o : Option String) → Ends o o
      ends none = tt
      ends (some _) = refl
