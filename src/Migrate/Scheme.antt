-- ===== src/Migrate/Scheme.antt =====
-- The scheme guard of migrate/migrate.go.
use Prim.Native.Char.{Char}
use Prim.Native.String.{[], ◌∷◌}
use text.Mathlib.TextLemmas.{nil-append, cons-append, append_assoc}
use text.Mathlib.TextEquality.{Char-path}
use idp_sdk.Common.{String, ◌≡◌, refl, ap, sym, ◌∙◌, ◌↔◌, true, arith, ◌<>◌, Bool-cases, inl, inr}
use idp_sdk.Migrate.{at_scheme, has_scheme, ensure_scheme}

-- A text that holds "://" somewhere, with what stands before and behind it.
abbrev pub HasScheme : String → Type 0
HasScheme s = (before : String) × (after : String) × (s ≡ before <> ("://" <> after))

has_scheme-append : (before s : String) → has_scheme s ≡ true → has_scheme (before <> s) ≡ true
unfolding has_scheme
has_scheme-append [] s h = rw nil-append h
has_scheme-append (c ∷ before) s h = rw cons-append (ground (arith, has_scheme-append before s h))

scheme_found : (after : String) → has_scheme ("://" <> after) ≡ true
unfolding has_scheme
scheme_found after = rw (cons-append, cons-append, cons-append) refl

abbrev colon : Char
colon = ":"

abbrev slash : Char
slash = "/"

at_scheme_found : (s : String) → at_scheme s ≡ true → (after : String) × (s ≡ "://" <> after)
at_scheme_found (a ∷ b ∷ c ∷ r) h = (
  r,
  scheme_chars (Char-path a colon (ground arith)) (Char-path b slash (ground arith))
      (Char-path c slash (ground arith)),
)
  where
    scheme_chars : a ≡ colon → b ≡ slash → c ≡ slash → (a ∷ b ∷ c ∷ r) ≡ "://" <> r
    scheme_chars p q s =
        (λ i. p i ∷ q i ∷ s i ∷ r) ∙ sym (rw (cons-append, cons-append, cons-append, nil-append))
at_scheme_found _ h = cc

HasScheme-cons : (c : Char) {s : String} → HasScheme s → HasScheme (c ∷ s)
HasScheme-cons c (before, after, p) =
    (c ∷ before, after, ap (λ t. c ∷ t) p ∙ sym (cons-append c before ("://" <> after)))

has_scheme_sound : (s : String) → has_scheme s ≡ true → HasScheme s
unfolding has_scheme
has_scheme_sound [] h = cc
has_scheme_sound (c ∷ s) h = elim (Bool-cases (at_scheme (c ∷ s))) [
  | inl here ↦
      let (after, p) = at_scheme_found (c ∷ s) here in
      ([], after, p ∙ sym (nil-append ("://" <> after)))
  | inr later ↦ HasScheme-cons c (has_scheme_sound s (ground arith))
]

has_scheme_complete : (s : String) → HasScheme s → has_scheme s ≡ true
has_scheme_complete s (before, after, p) =
    rw p (has_scheme-append before ("://" <> after) (scheme_found after))

-- The test for a scheme finds "://" wherever it stands.
pub has_scheme_iff : (s : String) → (has_scheme s ≡ true) ↔ HasScheme s
has_scheme_iff s = (has_scheme_sound s, has_scheme_complete s)

ensure_scheme_kept : (s by : String) → has_scheme s ≡ true → ensure_scheme s by ≡ s
unfolding ensure_scheme
ensure_scheme_kept s by h = rw h

ensure_scheme-HasScheme : (dsn scheme : String) → HasScheme (ensure_scheme dsn scheme)
unfolding ensure_scheme
ensure_scheme-HasScheme dsn scheme = elim (Bool-cases (has_scheme dsn)) [
  | inl found ↦ rw found (has_scheme_sound dsn found)
  | inr missing ↦ rw missing (scheme, dsn, append_assoc scheme "://" dsn)
]

-- The guarded text always holds "://"; the guard leaves a text as it is exactly when it held "://"
-- before, and a second guard, by any scheme, changes nothing.
pub ensure_scheme_lem :
    (dsn scheme again : String)
    → HasScheme (ensure_scheme dsn scheme)
      × ((ensure_scheme dsn scheme ≡ dsn) ↔ HasScheme dsn)
      × (ensure_scheme (ensure_scheme dsn scheme) again ≡ ensure_scheme dsn scheme)
ensure_scheme_lem dsn scheme again = (
  guarded,
  (λ p. rw p at guarded, λ h. kept dsn scheme h),
  kept (ensure_scheme dsn scheme) again guarded,
)
  where
    guarded : HasScheme (ensure_scheme dsn scheme)
    guarded = ensure_scheme-HasScheme dsn scheme

    kept : (s by : String) → HasScheme s → ensure_scheme s by ≡ s
    kept s by h = ensure_scheme_kept s by (has_scheme_complete s h)
