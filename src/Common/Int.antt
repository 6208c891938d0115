-- ===== src/Common/Int.antt =====
-- Signed integers over the native numbers, with the tests and the sums that the code uses.
use Prim.Native.Nat.{ℕ, suc, ◌+◌, ◌-◌, ◌*◌, ◌%◌, ◌^◌, ◌≤◌}
use mathlib.Core.Bool.{Bool}
use idp_sdk.Common.Tests.{ltb, leb, if◌then◌else◌}

-- `negsuc n` is -(n + 1).
pub data ℤ : Type 0 where
  pos : ℕ → ℤ
  negsuc : ℕ → ℤ

abbrev pub pos_part : ℤ → ℕ
pos_part (pos n) = n
pos_part (negsuc n) = 0

abbrev pub neg_part : ℤ → ℕ
neg_part (pos n) = 0
neg_part (negsuc n) = suc n

-- a - b, as an integer.
abbrev pub sub_ℕ : ℕ → ℕ → ℤ
sub_ℕ a b = if leb b a then pos (a - b) else negsuc (b - a - 1)

infixl 65 ◌-ℤ◌
unfoldable pub ◌-ℤ◌ : ℤ → ℤ → ℤ
a -ℤ b = sub_ℕ (pos_part a + neg_part b) (neg_part a + pos_part b)

infix 50 ◌≤ℤ◌
abbrev pub ◌≤ℤ◌ : ℤ → ℤ → Type 0
a ≤ℤ b = pos_part a + neg_part b ≤ pos_part b + neg_part a

abbrev pub leb_ℤ : ℤ → ℤ → Bool
leb_ℤ a b = leb (pos_part a + neg_part b) (pos_part b + neg_part a)

abbrev pub ltb_ℤ : ℤ → ℤ → Bool
ltb_ℤ a b = ltb (pos_part a + neg_part b) (pos_part b + neg_part a)

-- An integer as an int64 holds it, in two's complement.
abbrev signed64 : ℕ → ℤ
signed64 n = if ltb n (2 ^ 63) then pos n else negsuc (2 ^ 64 - n - 1)

unfoldable pub to_int64 : ℤ → ℤ
to_int64 (pos n) = signed64 (n % 2 ^ 64)
to_int64 (negsuc n) = signed64 ((2 ^ 64 - suc n % 2 ^ 64) % 2 ^ 64)

-- `time.Duration(s) * time.Second`, in nanoseconds.
unfoldable pub seconds : ℤ → ℤ
unfolding to_int64
seconds (pos n) = to_int64 (pos (n * 1_000_000_000))
seconds (negsuc n) = to_int64 (pos 0 -ℤ pos (suc n * 1_000_000_000))

-- `if d <= 0 { d = def }`
abbrev pub positive_or : ℤ → ℤ → ℤ
positive_or d def = if leb_ℤ d (pos 0) then def else d
