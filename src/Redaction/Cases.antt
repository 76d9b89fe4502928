-- ===== src/Redaction/Cases.antt =====
-- How a redaction comes to return: for the proofs on what it returns.
use action_lineage.Base.{
  ℕ, ◌≡◌, ◌⊎◌, inl, inr, refl, sym, ap, ◌∙◌, Bool, true, false, not, Bool-cases, Outcome, ok, err,
  ok_injective, require, ◌>>◌,
}
use action_lineage.Domain.Value.{Value}
use action_lineage.Redaction.{
  FieldPath, Library, RedactionPolicy, RedactionError, CaptureBudget, is_sensitive, redacted_marker,
  unless_hidden, exceeds, Redacted, too_deep,
}

pub require-true : {u : Unit {0}} (t : Bool) (e : RedactionError) → require t e ≡ ok u → t ≡ true
require-true true e h = refl
require-true false e h = cc

-- A check that was passed leaves the rest.
pub require-rest :
    {A : Type 0} (t : Bool) (e : RedactionError) (rest : Outcome RedactionError A) {r : A}
    → (require t e >> rest) ≡ ok r
    → (t ≡ true) × (rest ≡ ok r)
require-rest true e rest h = (refl, h)
require-rest false e rest h = cc

pub not-true : (b : Bool) → not b ≡ true → b ≡ false
not-true true h = cc
not-true false h = refl

pub pair_eq :
    {A : Type 0} {a a' : A} {b b' : CaptureBudget}
    → ◌≡◌ {A = Outcome RedactionError (A × CaptureBudget)} (ok (a, b)) (ok (a', b'))
    → (a ≡ a') × (b ≡ b')
pair_eq h = let e = ok_injective h in (ap (λ p. p.0) e, ap (λ p. p.1) e)

module _ (lib : Library) (policy : RedactionPolicy) where
  -- A value is hidden, or is shown at a depth within the limit.
  pub unless_hidden-cases :
      (path : FieldPath) (d : ℕ) (b b' : CaptureBudget) (shown : Redacted lib Value) (w : Value)
      → unless_hidden lib policy path d b shown ≡ ok (w, b')
      → ((is_sensitive lib path policy ≡ true) × (redacted_marker "sensitive" ≡ w) × (b ≡ b'))
        ⊎ ((is_sensitive lib path policy ≡ false)
            × (exceeds d policy.max_json_depth ≡ false)
            × (shown ≡ ok (w, b')))
  unless_hidden-cases path d b b' shown w h = elim (Bool-cases (is_sensitive lib path policy)) [
    | inl s ↦ let (p, q) = pair_eq (sym (hidden s) ∙ h) in inl (s, p, q)
    | inr s ↦ elim (Bool-cases (exceeds d policy.max_json_depth)) [
      | inl deep ↦ absurd (raised (sym (refused s deep) ∙ h))
      | inr fits ↦ inr (s, fits, sym (returned s fits) ∙ h)
    ]
  ]
    where
      hidden :
          is_sensitive lib path policy ≡ true
          → unless_hidden lib policy path d b shown ≡ ok (redacted_marker "sensitive", b)
      hidden s = rw s

      refused :
          is_sensitive lib path policy ≡ false
          → exceeds d policy.max_json_depth ≡ true
          → unless_hidden lib policy path d b shown ≡ err too_deep
      refused s deep = rw (s, deep)

      returned :
          is_sensitive lib path policy ≡ false
          → exceeds d policy.max_json_depth ≡ false
          → unless_hidden lib policy path d b shown ≡ shown
      returned s fits = rw (s, fits)

      raised : ◌≡◌ {A = Redacted lib Value} (err too_deep) (ok (w, b')) → ⊥
      raised k = cc
