-- ===== src/Policy/Claims.antt =====
-- An approval is accepted once at most, and only for what it is valid for.
use action_lineage.Base.{
  String, ◌≡◌, ◌⊎◌, true, false, not, ◌&&◌, List, [], ◌∷◌, All, contains, if◌then◌else◌, Bool-cases,
  inl, inr, subst,
}
use action_lineage.Policy.{ApprovalReplayCache, Request, is_valid_request, is_accepted, claim}

-- The requests that a cache accepts, one after another.
unfoldable pub accepted_requests : ApprovalReplayCache → List Request → List Request
accepted_requests cache [] = []
accepted_requests cache (r ∷ rs) =
    let rest = accepted_requests (claim cache r).1 rs in
    if is_accepted (claim cache r).0 then r ∷ rest else rest

-- No two requests carry one nonce, and none carries a nonce of the list.
abbrev pub AreFresh : List String → List Request → Type 0
AreFresh used [] = Unit
AreFresh used (r ∷ rs) =
    (contains r.artifact.nonce used ≡ false) × AreFresh (r.artifact.nonce ∷ used) rs

pub claim-cases :
    (cache : ApprovalReplayCache) (r : Request)
    → ((is_accepted (claim cache r).0 ≡ true)
        × (contains r.artifact.nonce cache.used_nonces ≡ false)
        × (is_valid_request r ≡ true)
        × ((claim cache r).1 ≡ record { used_nonces = r.artifact.nonce ∷ cache.used_nonces }))
      ⊎ ((is_accepted (claim cache r).0 ≡ false)
          × ((not (contains r.artifact.nonce cache.used_nonces) && is_valid_request r) ≡ false)
          × ((claim cache r).1 ≡ cache))
unfolding claim is_accepted
claim-cases cache r = elim (Bool-cases (contains r.artifact.nonce cache.used_nonces)) [
  | inl used ↦ inr (rw used, rw used, rw used)
  | inr fresh ↦ elim (Bool-cases (is_valid_request r)) [
    | inl valid ↦ inl (rw (fresh, valid), fresh, valid, rw (fresh, valid))
    | inr refused ↦ inr (rw (fresh, refused), rw (fresh, refused), rw (fresh, refused))
  ]
]

-- Of the requests that a cache accepts in a run, each is valid for its subject, scope and time,
-- and no nonce among them is accepted twice or was used before the run.
pub accepted_requests-AreFresh :
    (cache : ApprovalReplayCache) (rs : List Request)
    → AreFresh cache.used_nonces (accepted_requests cache rs)
      × All (λ r. is_valid_request r ≡ true) (accepted_requests cache rs)
unfolding accepted_requests
accepted_requests-AreFresh cache [] = (tt, tt)
accepted_requests-AreFresh cache (r ∷ rs) =
    let later = (claim cache r).1 in
    let rest = accepted_requests-AreFresh later rs in
    elim (claim-cases cache r) [
      | inl (a, fresh, valid, left) ↦
          let onward =
            subst (λ c. AreFresh c.used_nonces (accepted_requests later rs)) left rest.0 in
          rw a ((fresh, onward), (valid, rest.1))
      | inr (a, why, left) ↦
          let onward =
            subst (λ c. AreFresh c.used_nonces (accepted_requests later rs)) left rest.0 in
          rw a (onward, rest.1)
    ]
