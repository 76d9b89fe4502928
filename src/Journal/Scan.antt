-- ===== src/Journal/Scan.antt =====
-- The verifier's loop accepts a chain, and what it accepts before it ends is a chain.
use action_lineage.Base.{
  ℕ, suc, String, ◌≡◌, ◌≢◌, refl, sym, ap, ◌∙◌, subst, true, false, Option, none, some, List, [],
  ◌∷◌, ◌++◌, All, Outcome, ok, err, ◌>>=◌, >>=-eq-ok, eq_refl, ==_iff, length,
}
use action_lineage.Domain.Event.{Event, event_to_dict}
use action_lineage.Journal.{Platform, IsPlatform}
use action_lineage.Journal.Bytes.{bytes_eq, rstrip_newlines, ends_with_newline, take}
use action_lineage.Journal.Bytes.Lines.{
  bytes_eq_refl, ends_with_newline-append, rstrip-clean, IsLine,
}
use action_lineage.Journal.Hashing.{
  HashFault, Bytes, serialize_event, compute_event_hash, of_checked,
}
use action_lineage.Journal.Snapshot.{
  Verdict, accept, reject, Scan, check_event, check_record, scan, option_eq, check_hash, proceed,
  is_empty,
}
use action_lineage.Journal.Integrity.{encoded-eq-ok}
use action_lineage.Journal.Chain.{IsRecord, Chain, check_record-accept}

option_eq_refl : (s : Option String) → option_eq s s ≡ true
option_eq_refl none = refl
option_eq_refl (some s) = eq_refl s

-- A scan that found an event, in front of the rest.
abbrev pub push : Event → Scan → Scan
push e s = record s { events = e ∷ s.events }

abbrev pub push_all : List Event → Scan → Scan
push_all es s = record s { events = es ++ s.events }

-- The index behind the records of these events.
abbrev pub after : List Event → ℕ → ℕ
after [] n = n
after (_ ∷ es) n = after es (suc n)

bind-ok : (m : Outcome HashFault Scan) → m ≡ (m >>= λ s. ok (push_all [] s))
bind-ok (ok s) = refl
bind-ok (err f) = refl

push-push_all :
    (e : Event) (es : List Event) (m : Outcome HashFault Scan)
    → ((m >>= λ s. ok (push_all es s)) >>= λ s. ok (push e s))
      ≡ (m >>= λ s. ok (push_all (e ∷ es) s))
push-push_all e es (ok s) = refl
push-push_all e es (err f) = refl

module _ (p : Platform) (laws : IsPlatform p) where
  -- The bytes of an event have no newline and are not empty.
  pub serialize_event-clean :
      (e : Event) (line : Bytes p)
      → serialize_event p e ≡ ok line
      → All (λ b. b ≢ p.newline) line × (line ≢ [])
  unfolding serialize_event
  serialize_event-clean e line h =
      let (v, _, dumped) = >>=-eq-ok (of_checked (event_to_dict p.isoformat e)) _ h in
      let same : p.dumps v ≡ some line = encoded-eq-ok (p.dumps v) dumped in
      (laws.no_newline v line same, λ e. laws.dumps-ne-nil v (same ∙ ap some e))

  pub IsRecord-IsLine :
      (index : ℕ) (previous : Option String) (e : Event) (raw : Bytes p)
      → IsRecord p index previous e raw
      → IsLine p.byte_eq laws.byte_eq_iff p.newline raw
  IsRecord-IsLine index previous e raw r = record {
    body = r.line;
    clean = (serialize_event-clean e r.line r.serialized).0;
    whole = r.canonical;
  }

  pub Chain-lines :
      (index : ℕ) (previous : Option String) (es : List Event) (raws : List (Bytes p))
      (last : Option String)
      → Chain p index previous es raws last
      → All (IsLine p.byte_eq laws.byte_eq_iff p.newline) raws
  Chain-lines index previous [] [] last c = tt
  Chain-lines index previous [] (_ ∷ _) last c = absurd c
  Chain-lines index previous (_ ∷ _) [] last c = absurd c
  Chain-lines index previous (e ∷ es) (raw ∷ raws) last c = (
    IsRecord-IsLine index previous e raw c.0,
    Chain-lines (suc index) e.integrity.event_hash es raws last c.1,
  )

  not_empty : (xs : Bytes p) → xs ≢ [] → is_empty p xs ≡ false
  not_empty [] h = absurd (h refl)
  not_empty (_ ∷ _) h = refl

  check_hash-hashed :
      (n : ℕ) (e : Event) (o : Option String) (hash : String)
      → o ≡ some hash
      → compute_event_hash p e ≡ ok hash
      → check_hash p n e o ≡ ok (accept e)
  check_hash-hashed n e none hash h d = cc
  check_hash-hashed n e (some t) hash h d =
      let same : t ≡ hash = cc in rw (d) (rw same (rw (eq_refl hash)))

  check_event-IsRecord :
      (index : ℕ) (previous : Option String) (e : Event) (raw : Bytes p)
      → IsRecord p index previous e raw
      → check_event p index previous raw e ≡ ok (accept e)
  unfolding check_event
  check_event-IsRecord index previous e raw r =
      let bytes : bytes_eq p.byte_eq raw (r.line ++ p.newline ∷ []) ≡ true =
        rw (r.canonical) (bytes_eq_refl p.byte_eq laws.byte_eq_iff (r.line ++ p.newline ∷ [])) in
      let order = (==_iff e.causality.sequence index).1 r.in_order in
      let link : option_eq e.integrity.previous_event_hash previous ≡ true =
        subst (λ o. option_eq o previous ≡ true) (sym r.chained) (option_eq_refl previous) in
      rw (r.serialized, bytes, order, link)
        (check_hash-hashed (suc index) e e.integrity.event_hash r.hash r.hashed r.digest)

  check_record-IsRecord :
      (index : ℕ) (previous : Option String) (e : Event) (raw : Bytes p)
      → IsRecord p index previous e raw
      → check_record p index previous raw ≡ ok (accept e)
  unfolding check_record
  check_record-IsRecord index previous e raw r =
      let (clean, full) = serialize_event-clean e r.line r.serialized in
      let ends : ends_with_newline p.byte_eq p.newline raw ≡ true =
        rw (r.canonical) (ends_with_newline-append p.byte_eq laws.byte_eq_iff p.newline r.line) in
      let stripped : rstrip_newlines p.byte_eq p.newline raw ≡ r.line =
        rw (r.canonical) (rstrip-clean p.byte_eq laws.byte_eq_iff p.newline r.line clean) in
      rw (ends, r.parsed)
        (rw (stripped, not_empty r.line full) (check_event-IsRecord index previous e raw r))

  -- A chain in front of other lines is accepted whole.
  pub scan-Chain :
      (index : ℕ) (previous : Option String) (es : List Event) (raws rest : List (Bytes p))
      (last : Option String)
      → Chain p index previous es raws last
      → scan p index previous (raws ++ rest)
        ≡ (scan p (after es index) last rest >>= λ s. ok (push_all es s))
  unfolding scan
  scan-Chain index previous [] [] rest last c = rw c (bind-ok (scan p index last rest))
  scan-Chain index previous [] (_ ∷ _) rest last c = absurd c
  scan-Chain index previous (_ ∷ _) [] rest last c = absurd c
  scan-Chain index previous (e ∷ es) (raw ∷ raws) rest last c =
      rw (check_record-IsRecord index previous e raw c.0) (
        rw (scan-Chain (suc index) e.integrity.event_hash es raws rest last c.1)
          (push-push_all e es (scan p (after es (suc index)) last rest)))

  -- The events of a scan are a chain, of the first lines; without an issue, of all lines.
  pub record IsSound (index : ℕ) (previous : Option String) (raws : List (Bytes p)) (s : Scan)
      : Type 0 where
    pub chain : Chain p index previous s.events (take (length s.events) raws) s.last_event_hash
    pub whole : s.issue ≡ none → length s.events ≡ length raws

  -- The round after a verdict, by the rounds that follow it.
  verdict-IsSound :
      (index : ℕ) (previous : Option String) (raw : Bytes p) (raws : List (Bytes p)) (s : Scan)
      (ih : (e : Event) (t : Scan)
        → scan p (suc index) e.integrity.event_hash raws ≡ ok t
        → IsSound (suc index) e.integrity.event_hash raws t)
      (v : Verdict)
      → check_record p index previous raw ≡ ok v
      → proceed p previous (λ e. scan p (suc index) e.integrity.event_hash raws) v ≡ ok s
      → IsSound index previous (raw ∷ raws) s
  unfolding take
  verdict-IsSound index previous raw raws s ih (reject i) hv h =
      let stop : Scan = record { events = []; last_event_hash = previous; issue = some i } in
      let same : stop ≡ s = cc in
      subst (IsSound index previous (raw ∷ raws)) same
        (record { chain = refl; whole = λ none_left. cc })
  verdict-IsSound index previous raw raws s ih (accept e) hv h =
      let (t, ht, rest) = >>=-eq-ok (scan p (suc index) e.integrity.event_hash raws) _ h in
      let same : push e t ≡ s = cc in
      let tail = ih e t ht in
      subst (IsSound index previous (raw ∷ raws)) same (record {
        chain = (check_record-accept p laws index previous raw e hv, tail.chain);
        whole = λ clean. ap suc (tail.whole clean);
      })

  pub scan-IsSound :
      (index : ℕ) (previous : Option String) (raws : List (Bytes p)) (s : Scan)
      → scan p index previous raws ≡ ok s
      → IsSound index previous raws s
  unfolding scan take
  scan-IsSound index previous [] s h =
      let start : Scan = record { events = []; last_event_hash = previous; issue = none } in
      let same : start ≡ s = cc in
      subst (IsSound index previous []) same (record { chain = refl; whole = λ _. refl })
  scan-IsSound index previous (raw ∷ raws) s h =
      let (v, hv, h₁) = >>=-eq-ok (check_record p index previous raw) _ h in
      verdict-IsSound index previous raw raws s
        (λ e t. scan-IsSound (suc index) e.integrity.event_hash raws t) v hv h₁
