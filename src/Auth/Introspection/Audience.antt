-- ===== src/Auth/Introspection/Audience.antt =====
-- Which audience claims auth/introspection_validator.go accepts.
use idp_sdk.Common.{
  eq_refl, String, ◌≡◌, refl, sym, ap, ◌↔◌, inl, inr, true, List, [], ◌∷◌, ◌==◌, eq_iff, Memᴰ,
  arith, Bool-cases,
}
use idp_sdk.Common.Value.{Any, nil, bool, number, text, array, object, items}
use idp_sdk.Auth.Claims.Paths.{Yields}
use idp_sdk.Auth.Introspection.{any_text, audience_contains}

any_text_sound : (vs : List Any) (want : String) → any_text vs want ≡ true → Memᴰ (text want) vs
unfolding any_text
any_text_sound [] want h = cc
any_text_sound (text s ∷ vs) want h = elim (Bool-cases (s == want)) [
  | inl same ↦ Memᴰ.head (ap text (sym ((eq_iff s want).0 same)))
  | inr other ↦ Memᴰ.tail (any_text_sound vs want (ground arith))
]
any_text_sound (nil ∷ vs) want h = Memᴰ.tail (any_text_sound vs want h)
any_text_sound (bool b ∷ vs) want h = Memᴰ.tail (any_text_sound vs want h)
any_text_sound (number n ∷ vs) want h = Memᴰ.tail (any_text_sound vs want h)
any_text_sound (array a ∷ vs) want h = Memᴰ.tail (any_text_sound vs want h)
any_text_sound (object o ∷ vs) want h = Memᴰ.tail (any_text_sound vs want h)

any_text_skip :
    (v : Any) (vs : List Any) (want : String)
    → any_text vs want ≡ true
    → any_text (v ∷ vs) want ≡ true
unfolding any_text
any_text_skip (text s) vs want h = ground arith
any_text_skip nil vs want h = h
any_text_skip _ vs want h = h

any_text_complete : (vs : List Any) (want : String) → Memᴰ (text want) vs → any_text vs want ≡ true
unfolding any_text
any_text_complete [] want m = elim m [ ]
any_text_complete (v ∷ vs) want (Memᴰ.head e) = rw (← e) (rw eq_refl refl)
any_text_complete (v ∷ vs) want (Memᴰ.tail m) =
    any_text_skip v vs want (any_text_complete vs want m)

-- The audience test accepts a claim that is the wanted text, or an array with it among its items,
-- and no other claim.
pub audience_contains_iff :
    (aud : Any) (want : String) → (audience_contains aud want ≡ true) ↔ Yields want aud
unfolding audience_contains
audience_contains_iff (text s) want =
    (λ h. sym ((eq_iff s want).0 h), λ e. (eq_iff s want).1 (sym e))
audience_contains_iff (array vs) want =
    (any_text_sound (items vs) want, any_text_complete (items vs) want)
audience_contains_iff nil want = (λ h. cc, λ y. absurd y)
audience_contains_iff (bool b) want = (λ h. cc, λ y. absurd y)
audience_contains_iff (number n) want = (λ h. cc, λ y. absurd y)
audience_contains_iff (object o) want = (λ h. cc, λ y. absurd y)
