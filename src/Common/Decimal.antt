-- ===== src/Common/Decimal.antt =====
-- `fmt`'s %d: a number in decimal.
use Prim.Native.Nat.{ℕ, zero, suc, ◌/◌, ◌%◌}
use Prim.Native.String.{String}
use idp_sdk.Common.Tests.{ltb, eqb, if◌then◌else◌}
use idp_sdk.Common.Text.{◌<>◌}
use idp_sdk.Common.Int.{ℤ, pos, negsuc}

digit : ℕ → String
digit d =
    if eqb d 0
    then "0"
    else if eqb d 1
    then "1"
    else if eqb d 2
    then "2"
    else if eqb d 3
    then "3"
    else if eqb d 4
    then "4"
    else if eqb d 5
    then "5"
    else if eqb d 6
    then "6"
    else if eqb d 7
    then "7"
    else if eqb d 8
    then "8"
    else "9"

-- One digit falls away in each round, so that `n` rounds are enough.
digits : ℕ → ℕ → String
digits zero n = digit (n % 10)
digits (suc rounds) n =
    let front = digits rounds (n / 10) in if ltb n 10 then digit n else front <> digit (n % 10)

unfoldable pub decimal : ℤ → String
unfolding digits digit
decimal (pos n) = digits n n
decimal (negsuc n) = "-" <> digits (suc n) (suc n)
