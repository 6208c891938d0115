-- ===== src/Auth/Roles/Grants.antt =====
-- When the role test of auth/roles.go passes, and where the roles come from.
use idp_sdk.Common.{
  eq_refl, String, ◌≡◌, refl, ◌∙◌, sym, ◌↔◌, ◌⊎◌, inl, inr, true, some, List, [], ◌∷◌, lookup,
  insert, lookup-insert, ◌==◌, eq_iff, Memᴰ, arith, Option-cases, Bool-cases,
}
use idp_sdk.Common.Value.{Any}
use idp_sdk.Auth.Claims.{Claims, string_slice, nested_string_slice}
use idp_sdk.Auth.Claims.Paths.{At, Yields, nested_string_slice_iff, string_slice-Yields}
use idp_sdk.Auth.Roles.{or_later, default_roles_extractor, fill_set, any_in, has_any_role}

lookup-fill_set :
    (role : String) (set : List (String × Unit {0})) (have : List String)
    → (lookup role (fill_set set have) ≡ some tt) ↔ ((lookup role set ≡ some tt) ⊎ Memᴰ role have)
unfolding fill_set
lookup-fill_set role set [] = (λ h. inl h, λ p. only p)
  where
    only : (lookup role set ≡ some tt) ⊎ Memᴰ role [] → lookup role set ≡ some tt
    only (inl h) = h
    only (inr m) = elim m [ ]
lookup-fill_set role set (r ∷ have) =
    let (to, from) = lookup-fill_set role (insert r tt set) have in
    (λ h. split (to h), λ p. from (join p))
  where
    split :
        (lookup role (insert r tt set) ≡ some tt) ⊎ Memᴰ role have
        → (lookup role set ≡ some tt) ⊎ Memᴰ role (r ∷ have)
    split (inr m) = inr (Memᴰ.tail m)
    split (inl h) = elim (Bool-cases (r == role)) [
      | inl same ↦ inr (Memᴰ.head (sym ((eq_iff r role).0 same)))
      | inr other ↦ inl (ground (arith, lookup-insert r role tt set))
    ]

    join :
        (lookup role set ≡ some tt) ⊎ Memᴰ role (r ∷ have)
        → (lookup role (insert r tt set) ≡ some tt) ⊎ Memᴰ role have
    join (inl h) = inl (ground (arith, lookup-insert r role tt set))
    join (inr (Memᴰ.head e)) = inl (lookup-insert r role tt set ∙ rw (← e, eq_refl))
    join (inr (Memᴰ.tail m)) = inr m

any_in_sound :
    (set : List (String × Unit {0})) (want : List String)
    → any_in set want ≡ true
    → (w : String) × Memᴰ w want × (lookup w set ≡ some tt)
unfolding any_in
any_in_sound set [] h = cc
any_in_sound set (w ∷ want) h = elim (Option-cases (lookup w set)) [
  | inl missing ↦
      let (v, m, found) = any_in_sound set want (ground arith) in (v, Memᴰ.tail m, found)
  | inr (x, found) ↦ (w, Memᴰ.head refl, found)
]

any_in_complete :
    (set : List (String × Unit {0})) (want : List String) (w : String)
    → Memᴰ w want
    → lookup w set ≡ some tt
    → any_in set want ≡ true
unfolding any_in
any_in_complete set [] w m found = elim m [ ]
any_in_complete set (v ∷ want) w (Memᴰ.head e) found = rw (← e) (ground arith)
any_in_complete set (v ∷ want) w (Memᴰ.tail m) found =
    ground (arith, any_in_complete set want w m found)

at_hand :
    (role : String) (have : List String)
    → (lookup {V = Unit {0}} role [] ≡ some tt) ⊎ Memᴰ role have
    → Memᴰ role have
unfolding lookup
at_hand role have (inl p) = cc
at_hand role have (inr k) = k

-- The role test passes exactly if no role is wanted, or one of the wanted roles is at hand.
pub has_any_role_iff :
    (have want : List String)
    → (has_any_role have want ≡ true)
      ↔ ((want ≡ []) ⊎ ((role : String) × Memᴰ role have × Memᴰ role want))
unfolding has_any_role
has_any_role_iff have [] = (λ h. inl refl, λ p. refl)
has_any_role_iff have (w ∷ want) = (to, from)
  where
    to :
        any_in (fill_set [] have) (w ∷ want) ≡ true
        → (w ∷ want ≡ []) ⊎ ((role : String) × Memᴰ role have × Memᴰ role (w ∷ want))
    to h =
        let (role, m, found) = any_in_sound (fill_set [] have) (w ∷ want) h in
        inr (role, at_hand role have ((lookup-fill_set role [] have).0 found), m)

    from :
        (w ∷ want ≡ []) ⊎ ((role : String) × Memᴰ role have × Memᴰ role (w ∷ want))
        → any_in (fill_set [] have) (w ∷ want) ≡ true
    from (inl e) = cc
    from (inr (role, k, m)) =
        any_in_complete (fill_set [] have) (w ∷ want) role m
          ((lookup-fill_set role [] have).1 (inr k))

mem-or_later :
    (s : String) (roles later : List String)
    → Memᴰ s (or_later roles later)
      ↔ (Memᴰ s roles ⊎ ((t : String) → ¬ Memᴰ t roles) × Memᴰ s later)
mem-or_later s [] later = (λ m. inr (λ t k. elim k [ ], m), back)
  where
    back : Memᴰ s [] ⊎ ((t : String) → ¬ Memᴰ t []) × Memᴰ s later → Memᴰ s later
    back (inl m) = elim m [ ]
    back (inr (e, m)) = m
mem-or_later s (role ∷ roles) later = (λ m. inl m, back)
  where
    back :
        Memᴰ s (role ∷ roles) ⊎ ((t : String) → ¬ Memᴰ t (role ∷ roles)) × Memᴰ s later
        → Memᴰ s (role ∷ roles)
    back (inl m) = m
    back (inr (e, m)) = absurd (e role (Memᴰ.head refl))

-- What the first list stands for, else what the second does.
abbrev pub Else : (P Q : String → Type 0) → String → Type 0
Else P Q s = P s ⊎ ((t : String) → ¬ P t) × Q s

or_later-Else :
    {P Q : String → Type 0} (roles later : List String)
    → ((t : String) → Memᴰ t roles ↔ P t)
    → ((t : String) → Memᴰ t later ↔ Q t)
    → (s : String) → Memᴰ s (or_later roles later) ↔ Else P Q s
or_later-Else {P} {Q} roles later p q s =
    (λ m. to ((mem-or_later s roles later).0 m), λ e. (mem-or_later s roles later).1 (from e))
  where
    to : Else (λ t. Memᴰ t roles) (λ t. Memᴰ t later) s → Else P Q s
    to (inl m) = inl ((p s).0 m)
    to (inr (bare, m)) = inr (λ t k. bare t ((p t).1 k), (q s).0 m)

    from : Else P Q s → Else (λ t. Memᴰ t roles) (λ t. Memᴰ t later) s
    from (inl k) = inl ((p s).1 k)
    from (inr (bare, k)) = inr (λ t m. bare t ((p t).0 m), (q s).1 k)

or_later-nil : (roles : List String) → or_later roles [] ≡ roles
or_later-nil [] = refl
or_later-nil (role ∷ roles) = refl

-- The claim at realm_access.roles yields the role.
abbrev pub FromRealm : Claims → String → Type 0
FromRealm c s = (v : Any) × At v c.raw ("realm_access" ∷ "roles" ∷ []) × Yields s v

-- The top-level claim of that name yields the role.
abbrev pub FromClaim : String → Claims → String → Type 0
FromClaim key c s = (v : Any) × (lookup key c.raw ≡ some v) × Yields s v

-- The default extractor takes the roles that realm_access.roles yields; those of the claim roles only
-- if that yields none; and those of the claim groups only if neither yields one.
pub default_roles_extractor_iff :
    (c : Claims) (s : String)
    → Memᴰ s (default_roles_extractor c)
      ↔ Else (FromRealm c) (Else (FromClaim "roles" c) (FromClaim "groups" c)) s
unfolding default_roles_extractor
default_roles_extractor_iff c s = rw (or_later-nil (string_slice c "groups")) (
    or_later-Else (nested_string_slice c ("realm_access" ∷ "roles" ∷ []))
      (or_later (string_slice c "roles") (string_slice c "groups"))
      (nested_string_slice_iff c ("realm_access" ∷ "roles" ∷ []))
      (or_later-Else (string_slice c "roles") (string_slice c "groups")
        (string_slice-Yields c "roles") (string_slice-Yields c "groups"))
      s)
