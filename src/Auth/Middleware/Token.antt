-- ===== src/Auth/Middleware/Token.antt =====
-- The bearer token of auth/middleware.go.
use text.Mathlib.TextLemmas.{append-eq-nil_iff}
use idp_sdk.Common.{
  ap, ◌∙◌, ◌⊎◌, String, ◌≡◌, ◌≢◌, refl, ◌↔◌, inl, inr, false, Option, none, some, ◌==◌, ◌<>◌,
  eq_iff, arith, Bool-cases, cut_prefix, trim_space, ok, ok-injective, ==-eq-false,
}
use idp_sdk.Common.Text.Trim.{cut_prefix_iff}
use idp_sdk.Auth.Middleware.{
  Result, err_missing_token, err, GoError, after_prefix, extract_bearer_token,
}

-- A header that carries a token: the scheme with one blank, and a rest that trims to the token.
abbrev pub Carries : String → String → Type 0
Carries header token =
    (rest : String) × (header ≡ "Bearer " <> rest) × (trim_space rest ≡ token) × (token ≢ "")

after_prefix-ok :
    (o : Option String) (token : String)
    → after_prefix o ≡ ok token
    → (rest : String) × (o ≡ some rest) × (trim_space rest ≡ token) × (token ≢ "")
after_prefix-ok none token h = cc
after_prefix-ok (some rest) token h = elim (Bool-cases (trim_space rest == "")) [
  | inl blank ↦ cc (rw (blank, after_prefix) at h)
  | inr solid ↦
      let same : trim_space rest ≡ token = ok-injective (rw (solid, after_prefix) at h) in
      (rest, refl, same, ground (arith, eq_iff (trim_space rest) ""))
]

after_prefix_of_rest :
    (rest token : String)
    → trim_space rest ≡ token
    → token ≢ ""
    → after_prefix (some rest) ≡ ok token
after_prefix_of_rest rest token same solid = rw (same, ==-eq-false token "" solid)

append-ne-nil : (s t : String) → s ≢ "" → s <> t ≢ ""
append-ne-nil s t solid e = solid (append-eq-nil_iff.0 e).0

prefix_alone : (rest : String) → (("Bearer " <> rest) == "") ≡ false
prefix_alone rest =
    ==-eq-false ("Bearer " <> rest) ""
      (append-ne-nil "Bearer " rest (λ e. ground (arith, eq_iff "Bearer " "")))

-- A token is taken exactly out of a header that carries it.
pub extract_bearer_token_iff :
    (header token : String) → (extract_bearer_token header ≡ ok token) ↔ Carries header token
unfolding extract_bearer_token
extract_bearer_token_iff header token = (
  λ h. elim (Bool-cases (header == "")) [
    | inl missing ↦ cc (rw (missing, extract_bearer_token) at h)
    | inr there ↦
        let (rest, cut, same, solid) =
          after_prefix-ok (cut_prefix "Bearer " header) token
            (rw (there, extract_bearer_token) at h) in
        (rest, (cut_prefix_iff "Bearer " header rest).0 cut, same, solid)
  ],
  λ c. rw c.1 (
      rw (prefix_alone c.0, (cut_prefix_iff "Bearer " ("Bearer " <> c.0) c.0).1 refl)
        (after_prefix_of_rest c.0 token c.2 c.3)),
)

missing_after_prefix :
    (o : Option String) (e : GoError) → after_prefix o ≡ err e → e ≡ err_missing_token
missing_after_prefix none e h = cc
missing_after_prefix (some rest) e h = elim (Bool-cases (trim_space rest == "")) [
  | inl blank ↦ cc (rw (blank, after_prefix) at h)
  | inr solid ↦ cc (rw (solid, after_prefix) at h)
]

extract_bearer_token-missing :
    (header : String) (e : GoError) → extract_bearer_token header ≡ err e → e ≡ err_missing_token
unfolding extract_bearer_token
extract_bearer_token-missing header e h = elim (Bool-cases (header == "")) [
  | inl missing ↦ cc (rw (missing, extract_bearer_token) at h)
  | inr there ↦
      missing_after_prefix (cut_prefix "Bearer " header) e (rw (there, extract_bearer_token) at h)
]

-- A header carries a token that is taken, or none, and then the token is missing.
pub extract_bearer_token-cases :
    (header : String)
    → ((token : String) × Carries header token × (extract_bearer_token header ≡ ok token))
      ⊎ (((token : String) → ¬ Carries header token)
          × (extract_bearer_token header ≡ err err_missing_token))
extract_bearer_token-cases header = of_result (extract_bearer_token header) refl
  where
    of_result :
        (r : Result String)
        → extract_bearer_token header ≡ r
        → ((token : String) × Carries header token × (extract_bearer_token header ≡ ok token))
          ⊎ (((token : String) → ¬ Carries header token)
              × (extract_bearer_token header ≡ err err_missing_token))
    of_result (ok token) q = inl (token, (extract_bearer_token_iff header token).0 q, q)
    of_result (err e) q = inr (
      λ token c. cc (q, (extract_bearer_token_iff header token).1 c),
      q ∙ ap err (extract_bearer_token-missing header e q),
    )
