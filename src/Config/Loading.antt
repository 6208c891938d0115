-- ===== src/Config/Loading.antt =====
-- The loader of config/config.go against a list of the fields that it reaches.
use idp_sdk.Common.{
  String, ◌≡◌, ◌≢◌, refl, sym, ap, ◌∙◌, ◌⊎◌, inl, inr, true, false, not, Option, none, some, List,
  [], ◌∷◌, map, ◌==◌, if◌then◌else◌, GoError, Bool-cases,
}
use idp_sdk.Common.{◌++◌}
use mathlib.Core.List.{map-append}
use idp_sdk.Config.{
  Parsers, Tags, Slot, Field, Fields, leaf, struct, end, field, load_slot, load_field, load_struct,
  then_rest,
}

module _ (p : Parsers) where
  -- The fields with an env tag that can be set, in order, those of inner structs in their place. A
  -- struct with an env tag counts as one field.
  abbrev mutual
    pub reached_field : Field p → List (Tags × Slot p)
    reached_field (leaf settable tags slot) =
        if not settable then [] else if tags.env == "" then [] else (tags, slot) ∷ []
    reached_field (struct settable tags slot fs) =
        if not settable then [] else if tags.env == "" then reached fs else (tags, slot) ∷ []

    pub reached : Fields p → List (Tags × Slot p)
    reached end = []
    reached (field f fs) = reached_field f ++ reached fs

module _ (p : Parsers) (lookup_env : String → Option String) where
  abbrev pub or_else : Option GoError → Option GoError → Option GoError
  or_else (some e) later = some e
  or_else none later = later

  abbrev pub first_error : List (Tags × Slot p) → Option GoError
  first_error [] = none
  first_error ((tags, slot) ∷ rest) =
      or_else (load_slot p lookup_env tags slot).0 (first_error rest)

  abbrev pub loaded : Tags × Slot p → Tags × Slot p
  loaded (tags, slot) = (tags, (load_slot p lookup_env tags slot).1)

  first_error-append :
      (xs ys : List (Tags × Slot p))
      → first_error (xs ++ ys) ≡ or_else (first_error xs) (first_error ys)
  first_error-append [] ys = refl
  first_error-append ((tags, slot) ∷ xs) ys =
      rw (first_error-append xs ys) (or_else_assoc (load_slot p lookup_env tags slot).0)
    where
      or_else_assoc :
          (o : Option GoError)
          → or_else o (or_else (first_error xs) (first_error ys))
            ≡ or_else (or_else o (first_error xs)) (first_error ys)
      or_else_assoc none = refl
      or_else_assoc (some e) = refl

  or_else-none : (o : Option GoError) → or_else o none ≡ o
  or_else-none none = refl
  or_else-none (some e) = refl

  abbrev pub Fails : Option GoError → Type 0
  Fails e = e ≢ none

  -- A result for fields that were reached in this order.
  abbrev pub Loads : List (Tags × Slot p) → Option GoError → List (Tags × Slot p) → Type 0
  Loads before e after = (e ≡ first_error before) × (Fails e ⊎ (after ≡ map loaded before))

  one_slot :
      (tags : Tags) (slot : Slot p)
      → Loads
          ((tags, slot) ∷ [])
          (load_slot p lookup_env tags slot).0
          ((tags, (load_slot p lookup_env tags slot).1) ∷ [])
  one_slot tags slot = (sym (or_else-none (load_slot p lookup_env tags slot).0), inr refl)

  then_rest-Loads :
      (f f' : Field p) (fs : Fields p) (e : Option GoError) (rest : Option GoError × Fields p)
      → Loads (reached_field p f) e (reached_field p f')
      → Loads (reached p fs) rest.0 (reached p rest.1)
      → Loads
          (reached p (field f fs))
          (then_rest p lookup_env fs rest (e, f')).0
          (reached p (then_rest p lookup_env fs rest (e, f')).1)
  then_rest-Loads f f' fs (some e) rest (here, k) later = (
    sym (
        first_error-append (reached_field p f) (reached p fs)
        ∙ ap (λ o. or_else o (first_error (reached p fs))) (sym here)),
    inl (λ h. cc),
  )
  then_rest-Loads f f' fs none (e, fs') (here, k) (later, l) = (
    later
        ∙ sym (
            first_error-append (reached_field p f) (reached p fs)
            ∙ ap (λ o. or_else o (first_error (reached p fs))) (sym here)),
    both k l,
  )
    where
      both :
          Fails none ⊎ (reached_field p f' ≡ map loaded (reached_field p f))
          → Fails e ⊎ (reached p fs' ≡ map loaded (reached p fs))
          → Fails e
            ⊎ (reached_field p f' ++ reached p fs' ≡ map loaded (reached_field p f ++ reached p fs))
      both (inl x) y = absurd (x refl)
      both (inr x) (inl y) = inl y
      both (inr x) (inr y) =
          inr (rw (x, y) (sym (map-append loaded (reached_field p f) (reached p fs))))

  mutual
    unfolding load_field load_struct

    load_field-Loads :
        (f : Field p)
        → Loads
            (reached_field p f)
            (load_field p lookup_env f).0
            (reached_field p (load_field p lookup_env f).1)
    load_field-Loads (leaf false tags slot) = (refl, inr refl)
    load_field-Loads (leaf true tags slot) = elim (Bool-cases (tags.env == "")) [
      | inl bare ↦ rw bare (refl, inr (rw bare refl))
      | inr tagged ↦ rw tagged (rw tagged (one_slot tags slot))
    ]
    load_field-Loads (struct false tags slot fs) = (refl, inr refl)
    load_field-Loads (struct true tags slot fs) = elim (Bool-cases (tags.env == "")) [
      | inl bare ↦ rw bare (rw bare (all_fields-Loads fs))
      | inr tagged ↦ rw tagged (rw tagged (one_slot tags slot))
    ]

    all_fields-Loads :
        (fs : Fields p)
        → Loads
            (reached p fs)
            (load_struct p lookup_env fs).0
            (reached p (load_struct p lookup_env fs).1)
    all_fields-Loads end = (refl, inr refl)
    all_fields-Loads (field f fs) =
        then_rest-Loads f (load_field p lookup_env f).1 fs (load_field p lookup_env f).0
          (load_struct p lookup_env fs) (load_field-Loads f) (all_fields-Loads fs)

  -- The loader goes through the fields with an env tag that can be set, those of inner structs
  -- included, as through one list: the error is that of the first field that has one, and without an
  -- error the fields then have the values that each of them loads by itself.
  pub load_struct-Loads :
      (fs : Fields p)
      → Loads
          (reached p fs)
          (load_struct p lookup_env fs).0
          (reached p (load_struct p lookup_env fs).1)
  load_struct-Loads fs = all_fields-Loads fs
