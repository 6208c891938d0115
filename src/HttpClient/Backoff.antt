-- ===== src/HttpClient/Backoff.antt =====
-- The backoff of database/httpclient/httpclient.go.
use idp_sdk.Common.{ℕ, suc, ◌+◌, ◌*◌, ◌^◌, ◌<◌, ◌≡◌, ap, ◌∙◌, pos, arith}
use native.Mathlib.Nat.{mul_left_comm, pow-succ'}
use idp_sdk.HttpClient.{to_float, spare_bits, backoff}
use idp_sdk.HttpClient.Net.{Transport}

to_float_small : (m : ℕ) → m < 2 ^ 53 → to_float m ≡ m
unfolding to_float spare_bits
to_float_small m h = ground arith

backoff_power :
    (n : Transport) (base attempt : ℕ)
    → base < 2 ^ 53
    → attempt < 1024
    → base * 2 ^ attempt < 2 ^ 63
    → backoff n (pos base) (suc attempt) ≡ pos (base * 2 ^ attempt)
unfolding backoff
backoff_power n base attempt small finite fits =
    ground (arith, to_float_small (base + 0) (omega arith))

double : (base attempt : ℕ) → base * 2 ^ suc attempt ≡ 2 * (base * 2 ^ attempt)
double base attempt = rw (pow-succ' 2 attempt) (mul_left_comm base 2 (2 ^ attempt))

-- A base delay below 2 ^ 53 nanoseconds, some 104 days, is doubled by each further attempt, without
-- rounding, as long as the power of 2 is a float64, which it is up to the attempt 1024, and the delay is an
-- int64; and the delay before the first retry is the base.
pub backoff_lem :
    (n : Transport) (base attempt : ℕ)
    → base < 2 ^ 53
    → attempt < 1023
    → base * 2 ^ suc attempt < 2 ^ 63
    → (backoff n (pos base) 1 ≡ pos base)
      × (backoff n (pos base) (suc attempt) ≡ pos (base * 2 ^ attempt))
      × (backoff n (pos base) (suc (suc attempt)) ≡ pos (2 * (base * 2 ^ attempt)))
backoff_lem n base attempt small finite fits =
    let d = double base attempt in
    (
      backoff_power n base 0 small (omega arith) (omega (arith, d)) ∙ ap pos (omega arith),
      backoff_power n base attempt small (omega arith) (omega (arith, d)),
      backoff_power n base (suc attempt) small (omega arith) fits ∙ ap pos d,
    )
