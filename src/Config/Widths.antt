-- ===== src/Config/Widths.antt =====
-- What config/config.go stores in a field of 32 bits.
use idp_sdk.Common.{String, ◌≡◌, refl, ◌↔◌, none, ℤ, pos, negsuc, arith, ok}
use idp_sdk.Common.Int.{◌≤ℤ◌}
use mathlib.Core.Path.{subst}
use idp_sdk.Config.{Parsers, int, set_field, set_int}
use idp_sdk.Config.Parsing.{parse_int}

-- The numbers of an int32.
abbrev pub IsInt32 : ℤ → Type 0
IsInt32 n = (negsuc 2_147_483_647 ≤ℤ n) × (n ≤ℤ pos 2_147_483_647)

set_int_32_keeps : (n : ℤ) → IsInt32 n → set_int 32 n ≡ n
unfolding set_int
set_int_32_keeps (pos m) h = ground arith
set_int_32_keeps (negsuc m) h = ground arith

set_int_32-IsInt32 : (n : ℤ) → IsInt32 (set_int 32 n)
unfolding set_int
set_int_32-IsInt32 n = ground arith

module _ (p : Parsers) (raw : String) (old n : ℤ) where
  stored_int : parse_int raw ≡ ok n → set_field p (int 32 old) raw ≡ (none, int 32 (set_int 32 n))
  unfolding set_field
  stored_int h = rw h refl

  -- A number that ParseInt reads is stored in an int32 field without an error whatever its size. The
  -- field then holds a number of an int32, and it is the one that was read exactly if that is one.
  pub set_field-IsInt32 :
      parse_int raw ≡ ok n
      → (m : ℤ) × (set_field p (int 32 old) raw ≡ (none, int 32 m))
        × IsInt32 m
        × ((m ≡ n) ↔ IsInt32 n)
  set_field-IsInt32 h = (
    set_int 32 n,
    stored_int h,
    set_int_32-IsInt32 n,
    (λ e. subst IsInt32 e (set_int_32-IsInt32 n), set_int_32_keeps n),
  )
