-- ===== src/Errors/Tests.antt =====
-- Runs of errors/errors.go, and its theorems at concrete inputs.
use idp_sdk.Common.{◌≡◌, refl, ◌↔◌, true, false, none, some, lookup, GoError}
use idp_sdk.Common.Failure.{plain, wrapped, joined, none_left, error, error_text, no_cause}
use idp_sdk.Common.Value.{end}
use idp_sdk.Errors.{
  Error, to_go, http_status, wrap, as_error, is_code, code_to_status, code_not_found, code_conflict,
  code_unavailable,
}
use idp_sdk.Errors.Chain.{First, Lacks, as_error_iff}

abbrev missing : Error
missing = record { code = code_not_found; message = "no such user"; err = no_cause; details = end }

abbrev odd : Error
odd = record { code = "teapot"; message = "short and stout"; err = no_cause; details = end }

abbrev chain : GoError
chain = wrapped "handler: x" (joined (error (plain "x") (error (to_go missing) none_left)))

runs :
    (is_code chain code_not_found ≡ true)
    × (is_code chain code_conflict ≡ false)
    × (http_status odd ≡ 500)
    × (http_status missing ≡ 404)
    × (error_text (to_go (wrap code_unavailable "db" (plain "refused")))
        ≡ "unavailable: db: refused")
unfolding is_code as_error http_status error_text wrap
runs = (refl, refl, refl, refl, refl)

as_error_iff_example :
    ((x : Error) → (as_error chain ≡ some x) ↔ First x chain)
    × ((as_error chain ≡ none) ↔ Lacks chain)
as_error_iff_example = as_error_iff chain

found : (lookup code_not_found code_to_status ≡ none) → ⊥
unfolding lookup
found h = cc
