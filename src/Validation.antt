-- ===== src/Validation.antt =====
-- validation/validation.go: the mapping from the validator's verdict to an SDK error.
-- `validator.Validate.Struct` is the library's: its verdict is an argument.
pub mod Details
mod Tests
use idp_sdk.Common.{
  String, Option, none, some, List, [], ◌∷◌, ◌==◌, ◌<>◌, if◌then◌else◌, insert, GoError,
}
use idp_sdk.Common.Value.{Any, text, Fields, end, field}
use idp_sdk.Errors.{Error, new, wrap, with_details, code_invalid_argument}

pub record FieldError : Type 0 where
  pub name : String
  pub tag : String
  pub param : String

-- What the library returns: nil, `ValidationErrors`, or an error of another type.
pub data Verdict : Type 0 where
  valid : Verdict
  invalid : List FieldError → Verdict
  other : GoError → Verdict

unfoldable pub reason : FieldError → String
reason fe =
    if fe.tag == "required"
    then "is required"
    else if fe.tag == "min"
    then "must be at least " <> fe.param
    else if fe.tag == "max"
    then "must be at most " <> fe.param
    else if fe.tag == "email"
    then "must be a valid email address"
    else if fe.tag == "alphanum"
    then "must contain only letters and numbers"
    else if fe.tag == "oneof"
    then "must be one of: " <> fe.param
    else "falied validation: " <> fe.tag

-- The loop that fills `details`.
unfoldable pub fill_details : List (String × Any) → List FieldError → List (String × Any)
fill_details details [] = details
fill_details details (fe ∷ verrs) = fill_details (insert fe.name (text (reason fe)) details) verrs

abbrev pub to_fields : List (String × Any) → Fields
to_fields [] = end
to_fields ((k, v) ∷ m) = field k v (to_fields m)

unfoldable pub struct : Verdict → Option Error
struct valid = none
struct (invalid verrs) = some (
    with_details (new code_invalid_argument "vaildation failed")
      (to_fields (fill_details [] verrs)))
struct (other e) = some (wrap code_invalid_argument "validation failed" e)
