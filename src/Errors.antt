-- ===== src/Errors.antt =====
-- errors/errors.go: the SDK's structured error, its HTTP status, and the search for it in a chain.
-- A `Code` is a text, as in the source; the details map is a list of fields.
pub mod Chain
pub mod Status
mod Tests
use idp_sdk.Common.{
  ℕ, String, Bool, true, false, ◌&&◌, Option, none, some, List, [], ◌∷◌, ◌==◌, lookup, GoError,
}
use idp_sdk.Common.Failure.{
  GoErrors, Cause, variable, plain, wrapped, joined, sdk, none_left, error, no_cause, cause,
}
use idp_sdk.Common.Value.{Fields, end}

abbrev pub code_invalid_argument : String
code_invalid_argument = "invalid_argument"

abbrev pub code_unauthorized : String
code_unauthorized = "unauthorized"

abbrev pub code_forbidden : String
code_forbidden = "forbidden"

abbrev pub code_not_found : String
code_not_found = "not_found"

abbrev pub code_conflict : String
code_conflict = "conflict"

abbrev pub code_rate_limited : String
code_rate_limited = "rate_limited"

abbrev pub code_unavailable : String
code_unavailable = "unavailable"

abbrev pub code_internal : String
code_internal = "internal"

abbrev pub code_to_status : List (String × ℕ)
code_to_status =
    (code_invalid_argument, 400)
    ∷ (code_unauthorized, 401)
    ∷ (code_forbidden, 403)
    ∷ (code_not_found, 404)
    ∷ (code_conflict, 409)
    ∷ (code_rate_limited, 429)
    ∷ (code_unavailable, 503)
    ∷ (code_internal, 500)
    ∷ []

pub record Error : Type 0 where
  pub code : String
  pub message : String
  pub err : Cause
  pub details : Fields

-- An `*Error` where the source uses it as an `error`.
abbrev pub to_go : Error → GoError
to_go e = sdk e.code e.message e.err e.details

-- `Unwrap`
unfoldable pub unwrap : Error → Cause
unwrap e = e.err

abbrev pub status_or_internal : Option ℕ → ℕ
status_or_internal none = 500
status_or_internal (some s) = s

unfoldable pub http_status : Error → ℕ
unfolding lookup
http_status e = status_or_internal (lookup e.code code_to_status)

unfoldable pub new : String → String → Error
new code message = record { code = code; message = message; err = no_cause; details = end }

unfoldable pub wrap : String → String → GoError → Error
wrap code message e = record { code = code; message = message; err = cause e; details = end }

unfoldable pub with_details : Error → Fields → Error
with_details e details = record e { details = details }

abbrev or_else : Option Error → Option Error → Option Error
or_else none later = later
or_else (some e) later = some e

-- `errors.AsType[*Error]`: the error itself, else its causes, depth first.
unfoldable mutual
  pub as_error : GoError → Option Error
  as_error (variable n m) = none
  as_error (plain m) = none
  as_error (wrapped m e) = as_error e
  as_error (joined es) = as_error_any es
  as_error (sdk c m k d) = some (record { code = c; message = m; err = k; details = d })

  pub as_error_any : GoErrors → Option Error
  as_error_any none_left = none
  as_error_any (error e es) = or_else (as_error e) (as_error_any es)

abbrev has_code : Option Error → String → Bool
has_code none code = false
has_code (some e) code = e.code == code

-- `Is`
unfoldable pub is_code : GoError → String → Bool
is_code e code = has_code (as_error e) code
