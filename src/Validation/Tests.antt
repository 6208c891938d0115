-- ===== src/Validation/Tests.antt =====
-- Runs of validation/validation.go, and its theorems at concrete inputs.
use idp_sdk.Common.{◌≡◌, refl, none, some, List, [], ◌∷◌, lookup, insert}
use idp_sdk.Common.Value.{text, fields}
use idp_sdk.Errors.{Error, new, with_details, code_invalid_argument}
use idp_sdk.Validation.{FieldError, invalid, reason, fill_details, to_fields, struct}
use idp_sdk.Validation.Details.{last_reason, struct_details}

abbrev faults : List FieldError
faults =
    record { name = "Name"; tag = "min"; param = "3" }
    ∷ record { name = "Slug"; tag = "alphanum"; param = "" }
    ∷ record { name = "Name"; tag = "required"; param = "" }
    ∷ []

abbrev answer : Error
answer = record (unfold new in new code_invalid_argument "vaildation failed") {
  details =
      to_fields (
        ("Name", text "is required") ∷ ("Slug", text "must contain only letters and numbers") ∷ []);
}

run : struct (invalid faults) ≡ some answer
unfolding struct with_details new fill_details reason insert
run = refl

struct_details_example : lookup "Name" (fields answer.details) ≡ last_reason "Name" faults none
struct_details_example = struct_details faults answer "Name" run
