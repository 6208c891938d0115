-- ===== src/Common/Value.antt =====
-- Go's `any` as JSON decoding fills it, and its type switches.
use Prim.Native.String.{String}
use mathlib.Core.Bool.{Bool}
use mathlib.Core.Option.{Option, none, some}
use mathlib.Core.List.{List, [], ◌∷◌}

mutual
  -- `nil` is also what indexing a map by a missing key yields. A float64 is kept as its literal.
  pub data Any : Type 0 where
    nil : Any
    bool : Bool → Any
    number : String → Any
    text : String → Any
    array : Items → Any
    object : Fields → Any

  pub data Items : Type 0 where
    none_left : Items
    item : Any → Items → Items

  pub data Fields : Type 0 where
    end : Fields
    field : String → Any → Fields → Fields

abbrev pub items : Items → List Any
items none_left = []
items (item v vs) = v ∷ items vs

abbrev pub fields : Fields → List (String × Any)
fields end = []
fields (field k v fs) = (k, v) ∷ fields fs

-- `v.(string)`
abbrev pub as_text : Any → Option String
as_text (text s) = some s
as_text _ = none

-- `v.(map[string]any)`
abbrev pub as_object : Any → Option (List (String × Any))
as_object (object fs) = some (fields fs)
as_object _ = none

-- `m[key]` of a `map[string]any`
abbrev pub or_nil : Option Any → Any
or_nil none = nil
or_nil (some v) = v
