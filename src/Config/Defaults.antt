-- ===== src/Config/Defaults.antt =====
-- When a service starts whose configuration embeds structs of config/presets.go.
use idp_sdk.Common.{String, ◌≡◌, refl, sym, ◌∙◌, ◌↔◌, Option, none, some, List, [], ◌∷◌, GoError}
use idp_sdk.Common.{All}
use idp_sdk.Common.{◌++◌}
use idp_sdk.Config.{Parsers, Tags, Slot, load_slot}
use idp_sdk.Config.Loading.{reached, first_error, or_else, load_struct-Loads}
use idp_sdk.Config.Presets.{
  Preset, preset, embed, Target, struct_type, load, must_load, returned, or_exit,
}
use idp_sdk.Config.Accepted.{ReadsDefaults, accepted}
use idp_sdk.Config.Accepted as Accepted

module _ (p : Parsers) (zero_float : p.Float) (r : ReadsDefaults p)
    (lookup_env : String → Option String) where
  abbrev pub IsWell : Tags × Slot p → Type 0
  IsWell x = Accepted.IsWell p zero_float r lookup_env x

  abbrev Good : Tags × Slot p → Type 0
  Good x = Accepted.Good p zero_float r lookup_env x

  first_of :
      (o rest : Option GoError)
      → (or_else p lookup_env o rest ≡ none) ↔ ((o ≡ none) × (rest ≡ none))
  first_of none rest = (λ h. (refl, h), λ h. h.1)
  first_of (some e) rest = (λ h. cc, λ h. cc)

  All-Good :
      (xs : List (Tags × Slot p))
      → All Good xs
      → (first_error p lookup_env xs ≡ none) ↔ All IsWell xs
  All-Good [] good = (λ h. tt, λ h. refl)
  All-Good ((tags, slot) ∷ xs) (good, rest) =
      let (split, join) =
        first_of (load_slot p lookup_env tags slot).0 (first_error p lookup_env xs) in
      let (to, from) = All-Good xs rest in
      (λ h. (good.0 (split h).0, to (split h).1), λ h. join (good.1 h.0, from h.1))

  All-append :
      (P : Tags × Slot p → Type 0) (xs ys : List (Tags × Slot p))
      → All P (xs ++ ys) ↔ (All P xs × All P ys)
  All-append P [] ys = (λ h. (tt, h), λ h. h.1)
  All-append P (x ∷ xs) ys =
      let (to, from) = All-append P xs ys in
      (λ h. ((h.0, (to h.1).0), (to h.1).1), λ h. (h.0.0, from (h.0.1, h.1)))

  All-accepted : (ks : List Preset) → All Good (reached p (embed p zero_float ks))
  All-accepted [] = tt
  All-accepted (k ∷ ks) =
      (All-append Good (reached p (preset p zero_float k)) (reached p (embed p zero_float ks))).1
        (accepted p zero_float r lookup_env k, All-accepted ks)

  -- The variables of a struct are well.
  abbrev pub WellSet : Preset → Type 0
  WellSet k = All IsWell (reached p (preset p zero_float k))

  each_set : (ks : List Preset) → All IsWell (reached p (embed p zero_float ks)) ↔ All WellSet ks
  each_set [] = (λ h. tt, λ h. tt)
  each_set (k ∷ ks) =
      let (split, join) =
        All-append IsWell (reached p (preset p zero_float k)) (reached p (embed p zero_float ks)) in
      let (to, from) = each_set ks in
      (λ h. ((split h).0, to (split h).1), λ h. join (h.0, from h.1))

  returned_iff :
      (o : Option GoError × Target p lookup_env)
      → ((cfg : Target p lookup_env) × (or_exit p lookup_env o ≡ returned cfg)) ↔ (o.0 ≡ none)
  returned_iff (none, cfg) = (λ h. refl, λ h. (cfg, refl))
  returned_iff (some e, cfg) = (λ (c, h). cc, λ h. cc)

  -- A service whose configuration embeds structs of the package, whichever, starts exactly if each of
  -- their required variables is set, and each of their variables that is set holds a text that its
  -- field accepts; ParseDuration and ParseFloat reading the defaults, every default is accepted.
  pub must_load_iff :
      (ks : List Preset)
      → ((cfg : Target p lookup_env) × (must_load p lookup_env (struct_type (embed p zero_float ks))
            ≡ returned cfg))
        ↔ All WellSet ks
  unfolding must_load load
  must_load_iff ks =
      let fs = embed p zero_float ks in
      let e = (load_struct-Loads p lookup_env fs).0 in
      let (to_none, from_none) = returned_iff (load p lookup_env (struct_type fs)) in
      let (to_well, from_well) = All-Good (reached p fs) (All-accepted ks) in
      let (to_each, from_each) = each_set ks in
      (λ h. to_each (to_well (sym e ∙ to_none h)), λ h. from_none (e ∙ from_well (from_each h)))
