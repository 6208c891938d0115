-- ===== src/Config/Parsing.antt =====
-- strconv and strings, as config/config.go uses them: ParseBool, ParseInt and ParseUint in base 10
-- for 64 bits, and Split at commas.
use idp_sdk.Common.{
  quoted, ℕ, ◌+◌, ◌-◌, ◌*◌, ◌^◌, String, Bool, true, false, ◌||◌, List, ℤ, pos, ◌==◌, eqb, ltb, leb,
  ◌<>◌, if◌then◌else◌, GoError, Result, ok, err,
}
use Prim.Native.Char.{Char, code}
use Prim.Native.String.{[], ◌∷◌}
use idp_sdk.Common.Int.{sub_ℕ}
use idp_sdk.Common.Failure.{variable, wrapped}

-- What the loop of `ParseUint` finds.
pub data Parsed : Type 0 where
  number : ℕ → Parsed
  bad_syntax : Parsed
  out_of_range : Parsed

-- The loop, with the number so far. The range is looked at after each digit.
unfoldable pub digits_from : ℕ → String → Parsed
digits_from n [] = number n
digits_from n (c ∷ s) =
    let rest = digits_from (n * 10 + (code c - b'0')) s in
    if ltb (code c) b'0' || ltb b'9' (code c)
    then bad_syntax
    else if ltb (n * 10 + (code c - b'0')) (2 ^ 64)
    then rest
    else out_of_range

unfoldable pub unsigned : String → Parsed
unfolding digits_from
unsigned [] = bad_syntax
unsigned (c ∷ s) = digits_from 0 (c ∷ s)

abbrev pub syntax_error : String → String → GoError
syntax_error function s =
    wrapped ("strconv." <> function <> ": parsing " <> quoted s <> ": invalid syntax")
      (variable "strconv.ErrSyntax" "invalid syntax")

abbrev pub range_error : String → String → GoError
range_error function s =
    wrapped ("strconv." <> function <> ": parsing " <> quoted s <> ": value out of range")
      (variable "strconv.ErrRange" "value out of range")

abbrev to_uint : String → Parsed → Result ℕ
to_uint s (number n) = ok n
to_uint s bad_syntax = err (syntax_error "ParseUint" s)
to_uint s out_of_range = err (range_error "ParseUint" s)

unfoldable pub parse_uint : String → Result ℕ
parse_uint s = to_uint s (unsigned s)

abbrev to_int : String → Bool → Parsed → Result ℤ
to_int s negative bad_syntax = err (syntax_error "ParseInt" s)
to_int s negative out_of_range = err (range_error "ParseInt" s)
to_int s false (number n) = if ltb n (2 ^ 63) then ok (pos n) else err (range_error "ParseInt" s)
to_int s true (number n) = if leb n (2 ^ 63) then ok (sub_ℕ 0 n) else err (range_error "ParseInt" s)

unfoldable pub parse_int : String → Result ℤ
unfolding unsigned
parse_int [] = err (syntax_error "ParseInt" [])
parse_int (c ∷ s) =
    if eqb (code c) b'-'
    then to_int (c ∷ s) true (unsigned s)
    else if eqb (code c) b'+'
    then to_int (c ∷ s) false (unsigned s)
    else to_int (c ∷ s) false (unsigned (c ∷ s))

unfoldable pub parse_bool : String → Result Bool
parse_bool s =
    if s == "1" || (s == "t" || (s == "T" || (s == "true" || (s == "TRUE" || s == "True"))))
    then ok true
    else if s == "0" || (s == "f" || (s == "F" || (s == "false" || (s == "FALSE" || s == "False"))))
    then ok false
    else err (syntax_error "ParseBool" s)

abbrev onto_first : Char → List String → List String
onto_first c List.[] = List.◌∷◌ (c ∷ []) List.[]
onto_first c (List.◌∷◌ part parts) = List.◌∷◌ (c ∷ part) parts

-- `strings.Split(s, ",")`
unfoldable pub split_commas : String → List String
split_commas [] = List.◌∷◌ "" List.[]
split_commas (c ∷ s) =
    let rest = split_commas s in if eqb (code c) b',' then List.◌∷◌ "" rest else onto_first c rest
