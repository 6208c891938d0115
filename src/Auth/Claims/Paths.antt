-- ===== src/Auth/Claims/Paths.antt =====
-- What the readers of auth/claims.go find at a path of claims.
use mathlib.Core.Path.{subst}
use mathlib.Core.Option.{some-injective}
use idp_sdk.Common.{
  String, ◌≡◌, refl, ap, sym, ◌↔◌, Option, none, some, List, [], ◌∷◌, lookup, Memᴰ,
}
use idp_sdk.Common.Value.{
  Any, nil, bool, number, text, array, object, items, Fields, fields, as_text, as_object, or_nil,
}
use idp_sdk.Auth.Claims.{
  cons_some, Claims, strings_of, slice_of, string_slice, nested_from, nested_string_slice,
}

-- The value at a path of nested objects.
pub data At (v : Any) : List (String × Any) → List String → Type 0 where
  here : {m : List (String × Any)} {key : String} → lookup key m ≡ some v → At v m (key ∷ [])
  within :
      {m : List (String × Any)} {key next : String} {path : List String} {fs : Fields}
      → lookup key m ≡ some (object fs)
      → At v (fields fs) (next ∷ path)
      → At v m (key ∷ next ∷ path)

-- The strings that a claim stands for: its own, or those among the items of its array.
abbrev pub Yields : String → Any → Type 0
Yields s (text t) = s ≡ t
Yields s (array vs) = Memᴰ (text s) (items vs)
Yields s _ = ⊥

strings_of_sound : (s : String) (vs : List Any) → Memᴰ s (strings_of vs) → Memᴰ (text s) vs
unfolding strings_of
strings_of_sound s [] m = elim m [ ]
strings_of_sound s (text t ∷ vs) (Memᴰ.head e) = Memᴰ.head (ap text e)
strings_of_sound s (text t ∷ vs) (Memᴰ.tail m) = Memᴰ.tail (strings_of_sound s vs m)
strings_of_sound s (nil ∷ vs) m = Memᴰ.tail (strings_of_sound s vs m)
strings_of_sound s (bool b ∷ vs) m = Memᴰ.tail (strings_of_sound s vs m)
strings_of_sound s (number n ∷ vs) m = Memᴰ.tail (strings_of_sound s vs m)
strings_of_sound s (array a ∷ vs) m = Memᴰ.tail (strings_of_sound s vs m)
strings_of_sound s (object o ∷ vs) m = Memᴰ.tail (strings_of_sound s vs m)

strings_of_complete : (s : String) (vs : List Any) → Memᴰ (text s) vs → Memᴰ s (strings_of vs)
unfolding strings_of
strings_of_complete s [] m = elim m [ ]
strings_of_complete s (v ∷ vs) (Memᴰ.head e) = rw (← e) (Memᴰ.head refl)
strings_of_complete s (v ∷ vs) (Memᴰ.tail m) =
    cons_some_keeps (as_text v) (strings_of_complete s vs m)
  where
    cons_some_keeps :
        (o : Option String) → Memᴰ s (strings_of vs) → Memᴰ s (cons_some o (strings_of vs))
    cons_some_keeps none k = k
    cons_some_keeps (some t) k = Memᴰ.tail k

mem-one : {s t : String} → Memᴰ s (t ∷ []) → s ≡ t
mem-one (Memᴰ.head e) = e
mem-one (Memᴰ.tail m) = elim m [ ]

slice_of-Yields : (s : String) (v : Any) → Memᴰ s (slice_of v) ↔ Yields s v
unfolding slice_of
slice_of-Yields s (array vs) = (strings_of_sound s (items vs), strings_of_complete s (items vs))
slice_of-Yields s (text t) = (mem-one, λ e. Memᴰ.head e)
slice_of-Yields s nil = (λ m. elim m [ ], λ y. absurd y)
slice_of-Yields s (bool b) = (λ m. elim m [ ], λ y. absurd y)
slice_of-Yields s (number n) = (λ m. elim m [ ], λ y. absurd y)
slice_of-Yields s (object o) = (λ m. elim m [ ], λ y. absurd y)

-- A missing key reads as nil, which yields no string.
lookup-Yields :
    (s : String) (o : Option Any)
    → Memᴰ s (slice_of (or_nil o)) ↔ ((v : Any) × (o ≡ some v) × Yields s v)
lookup-Yields s none = (λ m. absurd ((slice_of-Yields s nil).0 m), λ p. cc (p.1))
lookup-Yields s (some v) = (
  λ m. (v, refl, (slice_of-Yields s v).0 m),
  λ p. (slice_of-Yields s v).1 (subst (Yields s) (sym (some-injective _ _ p.1)) p.2),
)

pub string_slice-Yields :
    (c : Claims) (key s : String)
    → Memᴰ s (string_slice c key) ↔ ((v : Any) × (lookup key c.raw ≡ some v) × Yields s v)
unfolding string_slice
string_slice-Yields c key s = lookup-Yields s (lookup key c.raw)

as_object_sound :
    (v : Any) (inner : List (String × Any))
    → as_object v ≡ some inner
    → (fs : Fields) × (v ≡ object fs) × (fields fs ≡ inner)
as_object_sound (object fs) inner h = (fs, refl, some-injective _ _ h)
as_object_sound nil inner h = cc
as_object_sound (bool b) inner h = cc
as_object_sound (number n) inner h = cc
as_object_sound (text t) inner h = cc
as_object_sound (array vs) inner h = cc

or_nil-object : (o : Option Any) (fs : Fields) → or_nil o ≡ object fs → o ≡ some (object fs)
or_nil-object none fs h = cc
or_nil-object (some v) fs h = ap some h

nested_from_sound :
    (path : List String) (m : List (String × Any)) (s : String)
    → Memᴰ s (nested_from path m)
    → (v : Any) × At v m path × Yields s v
unfolding nested_from
nested_from_sound [] m s h = elim h [ ]
nested_from_sound (last ∷ []) m s h =
    let (v, found, y) = (lookup-Yields s (lookup last m)).0 h in (v, here found, y)
nested_from_sound (key ∷ next ∷ path) m s h =
    go (as_object (or_nil (lookup key m))) refl
      (λ inner k. nested_from_sound (next ∷ path) inner s k) h
  where
    go :
        (o : Option (List (String × Any)))
        → as_object (or_nil (lookup key m)) ≡ o
        → ((inner : List (String × Any))
            → Memᴰ s (nested_from (next ∷ path) inner)
            → (v : Any) × At v inner (next ∷ path) × Yields s v)
        → Memᴰ s (elim o [ none ↦ [] | some inner ↦ nested_from (next ∷ path) inner ])
        → (v : Any) × At v m (key ∷ next ∷ path) × Yields s v
    go none e ih k = elim k [ ]
    go (some inner) e ih k =
        let (fs, is_object, same) = as_object_sound (or_nil (lookup key m)) inner e in
        let (v, found, y) = ih inner k in
        (v, within (or_nil-object (lookup key m) fs is_object) (rw same found), y)

nested_from_complete :
    {v : Any} {m : List (String × Any)} {path : List String} (s : String)
    → At v m path
    → Yields s v
    → Memᴰ s (nested_from path m)
unfolding nested_from
nested_from_complete {v} s (here found) y = (lookup-Yields s _).1 (v, found, y)
nested_from_complete s (within found rest) y =
    rw (found, nested_from) (nested_from_complete s rest y)

-- `NestedStringSlice` returns exactly the strings of the value that stands at the path: the path leads
-- through objects, and the value is a string or an array, of which only the strings count.
pub nested_string_slice_iff :
    (c : Claims) (path : List String) (s : String)
    → Memᴰ s (nested_string_slice c path) ↔ ((v : Any) × At v c.raw path × Yields s v)
unfolding nested_string_slice
nested_string_slice_iff c path s =
    (nested_from_sound path c.raw s, λ p. nested_from_complete s p.1 p.2)
