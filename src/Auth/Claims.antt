-- ===== src/Auth/Claims.antt =====
-- auth/claims.go: the claims of a token, and how strings are read out of the raw map.
-- Go's nil and empty slices are both the empty list: the callers only look at the length.
pub mod Paths
use idp_sdk.Common.{GoError, String, Bool, Option, none, some, List, [], ◌∷◌, ℤ, lookup}
use idp_sdk.Common.Value.{
  Any, nil, bool, number, text, array, object, items, as_text, as_object, or_nil,
}

pub record Claims : Type 0 where
  -- the registered claims of golang-jwt
  pub issuer : String
  pub subject : String
  pub audience : List String
  pub expires_at : Option ℤ
  pub not_before : Option ℤ
  pub issued_at : Option ℤ
  pub id : String
  pub email : String
  pub email_verified : Bool
  pub preferred_username : String
  pub name : String
  pub raw : List (String × Any)

abbrev pub empty_claims : Claims
empty_claims = record {
  issuer = "";
  subject = "";
  audience = [];
  expires_at = none;
  not_before = none;
  issued_at = none;
  id = "";
  email = "";
  email_verified = Bool.false;
  preferred_username = "";
  name = "";
  raw = [];
}

-- `UnmarshalJSON`, with the two calls of encoding/json as arguments: into the typed fields, and into
-- the raw map. Each returns what it has filled, also where it fails.
module _ (decode_typed : String → Claims → Option GoError × Claims)
    (decode_raw : String → List (String × Any) → Option GoError × List (String × Any)) where
  abbrev and_raw : String → Option GoError × Claims → Option GoError × Claims
  and_raw bytes (some e, c) = (some e, c)
  and_raw bytes (none, c) =
      let (failed, raw) = decode_raw bytes c.raw in (failed, record c { raw = raw })

  unfoldable pub unmarshal_json : String → Claims → Option GoError × Claims
  unmarshal_json bytes c = and_raw bytes (decode_typed bytes c)

abbrev pub or_empty : Option String → String
or_empty none = ""
or_empty (some s) = s

-- `Claims.String`
unfoldable pub string_claim : Claims → String → String
string_claim c key = or_empty (as_text (or_nil (lookup key c.raw)))

abbrev cons_some : Option String → List String → List String
cons_some none ss = ss
cons_some (some s) ss = s ∷ ss

-- The loop that keeps the strings of an array.
unfoldable pub strings_of : List Any → List String
strings_of [] = []
strings_of (v ∷ vs) = cons_some (as_text v) (strings_of vs)

-- The type switch on a claim.
unfoldable pub slice_of : Any → List String
unfolding strings_of
slice_of (array vs) = strings_of (items vs)
slice_of (text s) = s ∷ []
slice_of _ = []

-- `Claims.StringSlice`
unfoldable pub string_slice : Claims → String → List String
string_slice c key = slice_of (or_nil (lookup key c.raw))

-- The walk of `NestedStringSlice` from an object, along what is left of the path.
unfoldable pub nested_from : List String → List (String × Any) → List String
nested_from [] m = []
nested_from (last ∷ []) m = slice_of (or_nil (lookup last m))
nested_from (key ∷ next ∷ path) m = elim (as_object (or_nil (lookup key m))) [
  | none ↦ []
  | some inner ↦ nested_from (next ∷ path) inner
]

unfoldable pub nested_string_slice : Claims → List String → List String
nested_string_slice c path = nested_from path c.raw
