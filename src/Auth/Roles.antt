-- ===== src/Auth/Roles.antt =====
-- auth/roles.go: where roles stand in the claims, and the test of a caller's roles.
pub mod Grants
use idp_sdk.Common.{String, Bool, true, false, Option, none, some, List, [], ◌∷◌, lookup, insert}
use idp_sdk.Auth.Claims.{Claims, string_slice, nested_string_slice}

-- The outcome of a call of an extractor: its roles, or the value of its panic. A nil extractor
-- panics at every call.
pub data Extracted : Type 0 where
  returns : List String → Extracted
  panics_with : String → Extracted

abbrev pub RolesExtractor : Type 0
RolesExtractor = Claims → Extracted

-- `if len(roles) > 0 { return roles }`, before what comes later.
abbrev or_later : List String → List String → List String
or_later [] later = later
or_later (role ∷ roles) later = role ∷ roles

unfoldable pub default_roles_extractor : Claims → List String
default_roles_extractor c =
    or_later (nested_string_slice c ("realm_access" ∷ "roles" ∷ []))
      (or_later (string_slice c "roles") (or_later (string_slice c "groups") []))

unfoldable pub generic_claim_roles_extractor : String → RolesExtractor
generic_claim_roles_extractor claim c = returns (string_slice c claim)

-- The loop that fills the set of roles at hand.
unfoldable pub fill_set : List (String × Unit {0}) → List String → List (String × Unit {0})
fill_set set [] = set
fill_set set (r ∷ have) = fill_set (insert r tt set) have

-- The loop over the wanted roles.
unfoldable pub any_in : List (String × Unit {0}) → List String → Bool
any_in set [] = false
any_in set (w ∷ want) = elim (lookup w set) [ some _ ↦ true | none ↦ any_in set want ]

unfoldable pub has_any_role : List String → List String → Bool
has_any_role have [] = true
has_any_role have (w ∷ want) = any_in (fill_set [] have) (w ∷ want)
