-- ===== src/Errors/Status.antt =====
-- The HTTP statuses of errors/errors.go.
use idp_sdk.Common.{
  ℕ, String, ◌≡◌, ◌≢◌, Option, none, some, arith, eq_iff, eqb, lookup, if◌then◌else◌,
}
use idp_sdk.Errors.{
  Error, http_status, code_to_status, code_invalid_argument, code_unauthorized, code_forbidden,
  code_not_found, code_conflict, code_rate_limited, code_unavailable, code_internal,
}

-- A code that the SDK declares.
abbrev pub IsKnown : String → Type 0
IsKnown code = lookup code code_to_status ≢ none

-- The code that a status stands for.
abbrev pub code_of_status : ℕ → Option String
code_of_status s =
    if eqb s 400
    then some code_invalid_argument
    else if eqb s 401
    then some code_unauthorized
    else if eqb s 403
    then some code_forbidden
    else if eqb s 404
    then some code_not_found
    else if eqb s 409
    then some code_conflict
    else if eqb s 429
    then some code_rate_limited
    else if eqb s 503
    then some code_unavailable
    else if eqb s 500
    then some code_internal
    else none

code_of_lookup :
    (code : String) (s : ℕ) → lookup code code_to_status ≡ some s → code_of_status s ≡ some code
unfolding lookup
code_of_lookup code s h = ground (
  arith,
  eq_iff code_invalid_argument code,
  eq_iff code_unauthorized code,
  eq_iff code_forbidden code,
  eq_iff code_not_found code,
  eq_iff code_conflict code,
  eq_iff code_rate_limited code,
  eq_iff code_unavailable code,
  eq_iff code_internal code,
)

http_status-known :
    (e : Error) → IsKnown e.code → lookup e.code code_to_status ≡ some (http_status e)
unfolding http_status
http_status-known e known = ground arith

-- A client can recover the code from the status: of an error with a declared code, the status stands
-- for that code and no other.
pub code_of_status-http_status :
    (e : Error) → IsKnown e.code → code_of_status (http_status e) ≡ some e.code
code_of_status-http_status e known =
    code_of_lookup e.code (http_status e) (http_status-known e known)
