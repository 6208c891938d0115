-- ===== src/Common/Text/Trim.antt =====
-- What cutting a prefix and trimming white space leave.
use Prim.Native.Char.{Char, code}
use Prim.Native.String.{String, [], ◌∷◌}
use mathlib.Core.Path.{◌≡◌, refl, sym, ap, ◌∙◌}
use mathlib.Core.Logic.{◌↔◌, inl, inr}
use mathlib.Core.Bool.{false}
use mathlib.Core.Option.{some, some-injective}
use native.Mathlib.Omega.{arith}
use text.Mathlib.TextEquality.{Char-path}
use text.Mathlib.TextLemmas.{nil-append, cons-append}
use idp_sdk.Common.Tests.{eqb, Bool-cases}
use idp_sdk.Common.Text.{
  ◌<>◌, is_space, trim_left, keep_unless_blank, trim_right, trim_space, cut_prefix,
}

cut_prefix_sound : (p s rest : String) → cut_prefix p s ≡ some rest → s ≡ p <> rest
unfolding cut_prefix
cut_prefix_sound [] s rest h = some-injective _ _ h ∙ sym (nil-append rest)
cut_prefix_sound (c ∷ p) [] rest h = cc
cut_prefix_sound (c ∷ p) (d ∷ s) rest h = elim (Bool-cases (eqb (code c) (code d))) [
  | inl same ↦ rw cons-append (λ i.
      Char-path d c (ground arith) i ∷ cut_prefix_sound p s rest (rw (same, cut_prefix) at h) i)
  | inr other ↦ cc (rw (other, cut_prefix) at h)
]

cut_prefix_complete : (p rest : String) → cut_prefix p (p <> rest) ≡ some rest
unfolding cut_prefix
cut_prefix_complete [] rest = rw nil-append
cut_prefix_complete (c ∷ p) rest = rw cons-append (ground (arith, cut_prefix_complete p rest))

-- A prefix can be cut exactly off the texts that begin with it.
pub cut_prefix_iff : (p s rest : String) → (cut_prefix p s ≡ some rest) ↔ (s ≡ p <> rest)
cut_prefix_iff p s rest = (cut_prefix_sound p s rest, λ e. rw e (cut_prefix_complete p rest))

-- No white space stands at the front.
abbrev FrontClear : String → Type 0
FrontClear [] = Unit
FrontClear (c ∷ s) = is_space (code c) ≡ false

trim_left-FrontClear : (s : String) → FrontClear (trim_left s)
unfolding trim_left
trim_left-FrontClear [] = tt
trim_left-FrontClear (c ∷ s) = elim (Bool-cases (is_space (code c))) [
  | inl blank ↦ rw blank (trim_left-FrontClear s)
  | inr solid ↦ rw solid solid
]

trim_left_of_FrontClear : (s : String) → FrontClear s → trim_left s ≡ s
unfolding trim_left
trim_left_of_FrontClear [] f = refl
trim_left_of_FrontClear (c ∷ s) f = rw f

keep_unless_blank-FrontClear :
    (c : Char) (s : String) → is_space (code c) ≡ false → FrontClear (keep_unless_blank c s)
keep_unless_blank-FrontClear c [] f = rw f f
keep_unless_blank-FrontClear c (d ∷ s) f = f

trim_right-FrontClear : (s : String) → FrontClear s → FrontClear (trim_right s)
unfolding trim_right
trim_right-FrontClear [] f = tt
trim_right-FrontClear (c ∷ s) f = keep_unless_blank-FrontClear c (trim_right s) f

trim_right-keep :
    (c : Char) (s : String)
    → trim_right s ≡ s
    → trim_right (keep_unless_blank c s) ≡ keep_unless_blank c s
unfolding trim_right
trim_right-keep c [] h = elim (Bool-cases (is_space (code c))) [
  | inl blank ↦ rw blank
  | inr solid ↦ rw (solid, trim_right) (rw solid)
]
trim_right-keep c (d ∷ s) h = rw h

trim_right_idem : (s : String) → trim_right (trim_right s) ≡ trim_right s
unfolding trim_right
trim_right_idem [] = refl
trim_right_idem (c ∷ s) = trim_right-keep c (trim_right s) (trim_right_idem s)

-- What is trimmed once stays as it is.
pub trim_space_idem : (s : String) → trim_space (trim_space s) ≡ trim_space s
unfolding trim_space
trim_space_idem s =
    ap trim_right (
      trim_left_of_FrontClear (trim_right (trim_left s))
        (trim_right-FrontClear (trim_left s) (trim_left-FrontClear s)))
    ∙ trim_right_idem (trim_left s)
