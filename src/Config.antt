-- ===== src/Config.antt =====
-- config/config.go: the loader that fills a struct from environment variables.
-- Reflection is a tree: a field holds its tags and, as `Slot`, its kind with its value; a field of
-- struct kind has its own fields too.
pub mod Parsing
pub mod Loading
pub mod Widths
pub mod Presets
pub mod Accepted
pub mod Defaults
mod Tests
use idp_sdk.Common.{
  trim_space, quoted, ℕ, zero, suc, ◌+◌, ◌-◌, ◌*◌, ◌/◌, ◌%◌, ◌^◌, ◌≤◌, ◌<◌, String, ◌≡◌, ◌≢◌, refl,
  sym, ap, ◌∙◌, ◌↔◌, ◌⊎◌, inl, inr, Bool, true, false, not, ◌&&◌, ◌||◌, Option, none, some, List,
  [], ◌∷◌, map, ℤ, pos, negsuc, arith, eq_iff, ◌==◌, eqb, ltb, leb, ◌<>◌, if◌then◌else◌, GoError,
  Result, ok, err, Bool-cases, Option-cases, ok-injective,
}
use idp_sdk.Common.Int.{pos_part, neg_part}
use idp_sdk.Common.Failure.{wrap_with, plain, error_text, wrapped}
use idp_sdk.Config.Parsing.{parse_bool, parse_int, parse_uint, split_commas}

-- The parsers whose source is not here: floats, durations and types with UnmarshalText.
pub record Parsers : Type 1 where
  pub Float : Type 0
  pub Custom : Type 0
  pub parse_float : String → Result Float
  -- `SetFloat` on so many bits
  pub narrow : ℕ → Float → Float
  pub parse_duration : String → Result ℤ
  pub unmarshal_text : Custom → String → Option GoError × Custom

pub record Tags : Type 0 where
  pub env : String
  pub env_default : Option String
  pub env_required : String

-- `SetInt` and `SetUint` keep so many bits.
unfoldable pub set_int : ℕ → ℤ → ℤ
set_int bits n =
    let m = (pos_part n + (2 ^ bits - neg_part n % 2 ^ bits)) % 2 ^ bits in
    if ltb m (2 ^ (bits - 1)) then pos m else negsuc (2 ^ bits - m - 1)

unfoldable pub set_uint : ℕ → ℕ → ℕ
set_uint bits n = n % 2 ^ bits

module _ (p : Parsers) where
  pub data Slot : Type 0 where
    custom : p.Custom → Slot
    duration : ℤ → Slot
    text : String → Slot
    bool : Bool → Slot
    int : (bits : ℕ) → ℤ → Slot
    uint : (bits : ℕ) → ℕ → Slot
    float : (bits : ℕ) → p.Float → Slot
    texts : List String → Slot
    -- slices of another type, and the other kinds, by their type's name
    slice : String → Slot
    unsupported : String → Slot

  mutual
    pub data Field : Type 0 where
      leaf : (settable : Bool) → Tags → Slot → Field
      struct : (settable : Bool) → Tags → Slot → Fields → Field

    pub data Fields : Type 0 where
      end : Fields
      field : Field → Fields → Fields

  abbrev stored :
      {A : Type 0} → (A → Slot) → Slot → (GoError → GoError) → Result A → Option GoError × Slot
  stored wrap old told (err e) = (some (told e), old)
  stored wrap old told (ok a) = (none, wrap a)

  abbrev invalid : String → String → GoError → GoError
  invalid what raw = wrap_with ("invalid " <> what <> " " <> quoted raw <> ": ")

  abbrev unmarshalled : Option GoError × p.Custom → Option GoError × Slot
  unmarshalled (e, c) = (e, custom c)

  unfoldable pub set_field : Slot → String → Option GoError × Slot
  set_field (custom c) raw = unmarshalled (p.unmarshal_text c raw)
  set_field (duration d) raw =
      stored duration (duration d) (invalid "duration" raw) (p.parse_duration raw)
  set_field (text t) raw = (none, text raw)
  set_field (bool b) raw = stored bool (bool b) (invalid "bool" raw) (parse_bool raw)
  set_field (int bits n) raw =
      stored (λ m. int bits (set_int bits m)) (int bits n)
        (wrap_with ("invalid int " <> quoted raw <> " :")) (parse_int raw)
  set_field (uint bits n) raw =
      stored (λ m. uint bits (set_uint bits m)) (uint bits n) (invalid "uint" raw) (parse_uint raw)
  set_field (float bits f) raw =
      stored (λ g. float bits (p.narrow bits g)) (float bits f) (invalid "float" raw)
        (p.parse_float raw)
  set_field (texts ts) raw = (none, texts (map trim_space (split_commas raw)))
  set_field (slice name) raw =
      (some (plain ("unsupported slice element type " <> name)), slice name)
  set_field (unsupported name) raw =
      (some (plain ("unsupported field type " <> name)), unsupported name)

  -- The text for a field: that of the variable, else the default; else none, which is an error
  -- where the field is required.
  pub data Raw : Type 0 where
    given : String → Raw
    refused : Raw
    skipped : Raw

  module _ (lookup_env : String → Option String) where
    abbrev or_default : Tags → Option String → Raw
    or_default tags (some raw) = given raw
    or_default tags none = elim tags.env_default [
      | some def ↦ given def
      | none ↦ if tags.env_required == "true" then refused else skipped
    ]

    abbrev told_env : String → Option GoError × Slot → Option GoError × Slot
    told_env key (none, slot) = (none, slot)
    told_env key (some e, slot) = (some (wrap_with ("config: env " <> key <> ": ") e), slot)

    abbrev set_raw : Tags → Slot → Raw → Option GoError × Slot
    set_raw tags slot skipped = (none, slot)
    set_raw tags slot refused =
        (some (plain ("config: required environment variable " <> tags.env <> " is not set")), slot)
    set_raw tags slot (given raw) = told_env tags.env (set_field slot raw)

    -- A field that has an env tag.
    unfoldable pub load_slot : Tags → Slot → Option GoError × Slot
    load_slot tags slot = set_raw tags slot (or_default tags (lookup_env tags.env))

    abbrev as_leaf : Tags → Option GoError × Slot → Option GoError × Field
    as_leaf tags (e, slot) = (e, leaf true tags slot)

    abbrev as_struct : Tags → Fields → Option GoError × Slot → Option GoError × Field
    as_struct tags fs (e, slot) = (e, struct true tags slot fs)

    abbrev with_fields : Tags → Slot → Option GoError × Fields → Option GoError × Field
    with_fields tags slot (e, fs) = (e, struct true tags slot fs)

    -- An error ends the loop, and the fields behind it stay as they are.
    abbrev then_rest :
        Fields → Option GoError × Fields → Option GoError × Field → Option GoError × Fields
    then_rest fs rest (some e, f) = (some e, field f fs)
    then_rest fs (e, fs') (none, f) = (e, field f fs')

    unfoldable mutual
      -- One round of the loop of `loadStruct`.
      pub load_field : Field → Option GoError × Field
      load_field (leaf settable tags slot) =
          if not settable
          then (none, leaf settable tags slot)
          else if tags.env == ""
          then (none, leaf true tags slot)
          else as_leaf tags (load_slot tags slot)
      load_field (struct settable tags slot fs) =
          let inner = load_struct fs in
          if not settable
          then (none, struct settable tags slot fs)
          else if tags.env == ""
          then with_fields tags slot inner
          else as_struct tags fs (load_slot tags slot)

      pub load_struct : Fields → Option GoError × Fields
      load_struct end = (none, end)
      load_struct (field f fs) = then_rest fs (load_struct fs) (load_field f)
