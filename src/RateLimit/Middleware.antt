-- ===== src/RateLimit/Middleware.antt =====
-- When `Allow` of ratelimit/ratelimit.go panics.
use idp_sdk.Common.{
  ◌/◌, ℕ, zero, suc, ◌≡◌, refl, ◌↔◌, ◌≢◌, String, Option, none, some, ℤ, pos, negsuc, arith,
  GoError, Result, ok, err, ◌<◌,
}
use idp_sdk.Common.Int.{◌-ℤ◌}
use idp_sdk.Redis.{Redis}
use idp_sdk.RateLimit.{
  top_power, seconds_of, Limiter, panics, whole_seconds, window_index, after_expire, after_incr,
  allow_at, allow, redis_key,
}

-- A window of less than a second, the zero window included, on either side of zero.
abbrev pub IsShort : ℤ → Type 0
IsShort (pos n) = n < 1_000_000_000
IsShort (negsuc n) = suc n < 1_000_000_000

seconds_of-zero : (n : ℕ) → (seconds_of n ≡ 0) ↔ (n < 1_000_000_000)
unfolding seconds_of top_power
seconds_of-zero n = (
  λ h. ground arith,
  λ h.
      let none_whole : n / 1_000_000_000 ≡ 0 = omega (arith, h) in
      rw none_whole (ground (arith, h)),
)

whole_seconds-IsShort : (d : ℤ) → (whole_seconds d ≡ pos 0) ↔ IsShort d
unfolding whole_seconds ◌-ℤ◌
whole_seconds-IsShort (pos n) =
    (λ h. (seconds_of-zero n).0 (ground (arith, h)), λ h. rw ((seconds_of-zero n).1 h) refl)
whole_seconds-IsShort (negsuc n) = (
  λ h. (seconds_of-zero (suc n)).0 (ground (arith, h)),
  λ h. rw ((seconds_of-zero (suc n)).1 h) refl,
)

window_index-none : (now : ℕ) (d : ℤ) → (window_index now d ≡ none) ↔ (d ≡ pos 0)
unfolding window_index
window_index-none now (pos zero) = (λ _. refl, λ _. refl)
window_index-none now (pos (suc n)) = (λ h. cc, λ h. cc)
window_index-none now (negsuc n) = (λ h. cc, λ h. cc)

module _ (r : Redis) (l : Limiter) where
  after_expire-ne-panics :
      (k : String) (n : ℤ) (p : Option GoError × r.State) → (after_expire r l k n p).0 ≢ panics
  after_expire-ne-panics k n (none, s) h = ground arith
  after_expire-ne-panics k n (some e, s) h = cc

  after_incr-ne-panics : (k : String) (p : Result ℤ × r.State) → (after_incr r l k p).0 ≢ panics
  after_incr-ne-panics k (err e, s) h = cc
  after_incr-ne-panics k (ok (pos (suc zero)), s) h =
      after_expire-ne-panics k (pos 1) (r.expire k l.window s) h
  after_incr-ne-panics k (ok n, s) h = ground arith

  allow_at-panics :
      (key : String) (index : Option ℤ) (s : r.State)
      → ((allow_at r l key index s).0 ≡ panics) ↔ (index ≡ none)
  allow_at-panics key none s = (λ _. refl, λ _. refl)
  allow_at-panics key (some index) s = (
    λ h. absurd (after_incr-ne-panics (redis_key l key index) (r.incr (redis_key l key index) s) h),
    λ h. cc,
  )

  -- `Allow` panics, by a division by zero, exactly when the window is shorter than a second.
  pub allow-panics :
      (key : String) (now : ℕ) (s : r.State) → ((allow r l key now s).0 ≡ panics) ↔ IsShort l.window
  unfolding allow
  allow-panics key now s =
      let d = whole_seconds l.window in
      let (to, from) = allow_at-panics key (window_index now d) s in
      (
        λ h. (whole_seconds-IsShort l.window).0 ((window_index-none now d).0 (to h)),
        λ h. from ((window_index-none now d).1 ((whole_seconds-IsShort l.window).1 h)),
      )

  -- A panicking call leaves Redis alone.
  pub allow-short :
      (key : String) (now : ℕ) (s : r.State) → IsShort l.window → allow r l key now s ≡ (panics, s)
  unfolding allow window_index
  allow-short key now s short = rw ((whole_seconds-IsShort l.window).1 short) refl
