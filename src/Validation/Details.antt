-- ===== src/Validation/Details.antt =====
-- What a caller learns from the error of validation/validation.go.
use idp_sdk.Common.{
  String, ◌≡◌, refl, ap, ◌∙◌, Option, none, some, List, [], ◌∷◌, arith, ◌==◌, if◌then◌else◌, lookup,
  insert, lookup-insert,
}
use idp_sdk.Common.Value.{Any, text, fields}
use idp_sdk.Errors.{Error, new, with_details}
use idp_sdk.Validation.{FieldError, invalid, reason, fill_details, to_fields, struct}

-- The reason of the last failed check on a field, if there is one.
abbrev pub last_reason : String → List FieldError → Option Any → Option Any
last_reason name [] known = known
last_reason name (fe ∷ verrs) known =
    last_reason name verrs (if fe.name == name then some (text (reason fe)) else known)

lookup-fill_details :
    (name : String) (details : List (String × Any)) (verrs : List FieldError)
    → lookup name (fill_details details verrs) ≡ last_reason name verrs (lookup name details)
unfolding fill_details
lookup-fill_details name details [] = refl
lookup-fill_details name details (fe ∷ verrs) =
    lookup-fill_details name (insert fe.name (text (reason fe)) details) verrs
    ∙ ap (last_reason name verrs) (lookup-insert fe.name name (text (reason fe)) details)

fields-to_fields : (m : List (String × Any)) → fields (to_fields m) ≡ m
fields-to_fields [] = refl
fields-to_fields ((k, v) ∷ m) = ap (λ r. (k, v) ∷ r) (fields-to_fields m)

-- The details of a failed validation hold, for each field, the reason of its last failed check, and
-- nothing for a field without one.
pub struct_details :
    (verrs : List FieldError) (e : Error) (name : String)
    → struct (invalid verrs) ≡ some e
    → lookup name (fields e.details) ≡ last_reason name verrs none
unfolding struct with_details new
struct_details verrs e name h =
    let same : to_fields (fill_details [] verrs) ≡ e.details = ground arith in
    rw (← same, fields-to_fields (fill_details [] verrs))
      (lookup-fill_details name [] verrs ∙ ap (last_reason name verrs) (unfold lookup in refl))
