-- ===== src/RateLimit/Budget.antt =====
-- How many calls the limiter of ratelimit/ratelimit.go admits to one counter, whoever makes them.
use Prim.Native.Nat.{min}
use idp_sdk.Common.{
  ℕ, zero, suc, ◌+◌, ◌-◌, ◌≡◌, refl, String, Bool, true, false, ◌&&◌, Option, none, some, List, [],
  ◌∷◌, ℤ, pos, ◌==◌, leb, eq_iff, ◌∙◌, if◌then◌else◌, arith, GoError, Result, ok, inl, inr,
  Bool-cases,
}
use idp_sdk.Common.Int.{pos_part}
use idp_sdk.Redis.{Redis}
use idp_sdk.RateLimit.{
  Limiter, Decision, decided, whole_seconds, window_index, redis_key, decide, or_window,
  after_expire, after_incr, allow_at, allow,
}

-- Redis counters as documented, as long as none has expired: INCR adds one and returns the sum, EXPIRE
-- and TTL leave counters alone, and no INCR or EXPIRE fails. A TTL may fail.
pub record Counts (r : Redis) (value : String → r.State → ℕ) : Type 0 where
  pub incr_result : (k : String) (s : r.State) → (r.incr k s).0 ≡ ok (pos (suc (value k s)))
  pub incr_value :
      (k j : String) (s : r.State)
      → value j (r.incr k s).1 ≡ (if k == j then suc (value j s) else value j s)
  pub expire_result : (k : String) (d : ℤ) (s : r.State) → (r.expire k d s).0 ≡ none
  pub expire_value : (k j : String) (d : ℤ) (s : r.State) → value j (r.expire k d s).1 ≡ value j s
  pub ttl_value : (k j : String) (s : r.State) → value j (r.ttl k s).1 ≡ value j s

abbrev pub is_allowed : Decision → Bool
is_allowed (decided allowed _ _) = allowed
is_allowed _ = false

abbrev counter_at : Limiter → String → Option ℤ → Option String
counter_at l key none = none
counter_at l key (some index) = some (redis_key l key index)

-- The counter that a call uses; a call that panics uses none.
abbrev pub counter_of : Limiter → String → ℕ → Option String
counter_of l key now = counter_at l key (window_index now (whole_seconds l.window))

abbrev pub uses : Option String → String → Bool
uses none k = false
uses (some j) k = j == k

-- How many of the calls, each a key with its time, use the counter `k`.
abbrev pub calls_on : Limiter → String → List (String × ℕ) → ℕ
calls_on l k [] = 0
calls_on l k ((key, now) ∷ calls) =
    (if uses (counter_of l key now) k then 1 else 0) + calls_on l k calls

module _ (r : Redis) where
  -- How many of them are allowed when they are made in this order from the state `s`.
  abbrev pub allowed_on : Limiter → String → List (String × ℕ) → r.State → ℕ
  allowed_on l k [] s = 0
  allowed_on l k ((key, now) ∷ calls) s =
      let (d, s') = allow r l key now s in
      (if uses (counter_of l key now) k && is_allowed d then 1 else 0) + allowed_on l k calls s'

  is_allowed-decide :
      (l : Limiter) (n : ℕ) (ttl : ℤ)
      → is_allowed (decide r l (pos (suc n)) ttl) ≡ leb (suc n) (pos_part l.limit)
  is_allowed-decide l n ttl = ground arith

  module _ (value : String → r.State → ℕ) (t : Counts r value) (l : Limiter) where
    is_allowed-after_expire :
        (k : String) (n : ℕ) (p : Option GoError × r.State)
        → p.0 ≡ none
        → is_allowed (after_expire r l k (pos (suc n)) p).0 ≡ leb (suc n) (pos_part l.limit)
    is_allowed-after_expire k n (none, s) h = is_allowed-decide l n (or_window r l (r.ttl k s).0)
    is_allowed-after_expire k n (some e, s) h = cc

    is_allowed-after_incr :
        (k : String) (n : ℕ) (p : Result ℤ × r.State)
        → p.0 ≡ ok (pos (suc n))
        → is_allowed (after_incr r l k p).0 ≡ leb (suc n) (pos_part l.limit)
    is_allowed-after_incr k zero (q, s) h =
        rw h (is_allowed-after_expire k 0 (r.expire k l.window s) (t.expire_result k l.window s))
    is_allowed-after_incr k (suc n) (q, s) h =
        rw h (is_allowed-decide l (suc n) (or_window r l (r.ttl k s).0))

    value-after_expire :
        (k j : String) (n : ℤ) (p : Option GoError × r.State)
        → value j (after_expire r l k n p).1 ≡ value j p.1
    value-after_expire k j n (none, s) = t.ttl_value k j s
    value-after_expire k j n (some e, s) = refl

    value-after_incr :
        (k j : String) (n : ℕ) (p : Result ℤ × r.State)
        → p.0 ≡ ok (pos (suc n))
        → value j (after_incr r l k p).1 ≡ value j p.1
    value-after_incr k j zero (q, s) h =
        rw h
          (value-after_expire k j (pos 1) (r.expire k l.window s) ∙ t.expire_value k j l.window s)
    value-after_incr k j (suc n) (q, s) h = rw h (t.ttl_value k j s)

    -- A call adds one to its counter and to no other.
    value-allow_at :
        (key j : String) (index : Option ℤ) (s : r.State)
        → value j (allow_at r l key index s).1
          ≡ (if uses (counter_at l key index) j then suc (value j s) else value j s)
    value-allow_at key j none s = refl
    value-allow_at key j (some index) s =
        let k = redis_key l key index in
        value-after_incr k j (value k s) (r.incr k s) (t.incr_result k s) ∙ t.incr_value k j s

    -- A call is allowed while its counter is below the limit.
    is_allowed-allow_at :
        (key j : String) (index : Option ℤ) (s : r.State)
        → uses (counter_at l key index) j ≡ true
        → is_allowed (allow_at r l key index s).0 ≡ leb (suc (value j s)) (pos_part l.limit)
    is_allowed-allow_at key j none s h = cc
    is_allowed-allow_at key j (some index) s h =
        let k = redis_key l key index in
        rw (← (eq_iff k j).0 h)
          (is_allowed-after_incr k (value k s) (r.incr k s) (t.incr_result k s))

    -- Redis counting as documented and no counter expiring, the calls that use one counter, whoever
    -- makes them and however they are mixed with calls on other counters, are allowed as long as the
    -- counter has not reached the limit: as many as are left of it, and no more.
    pub allowed_on-eq-min :
        (k : String) (calls : List (String × ℕ)) (s : r.State)
        → allowed_on l k calls s ≡ min (calls_on l k calls) (pos_part l.limit - value k s)
    unfolding allow
    allowed_on-eq-min k [] s = omega arith
    allowed_on-eq-min k ((key, now) ∷ calls) s =
        let index = window_index now (whole_seconds l.window) in
        let s' = (allow_at r l key index s).1 in
        elim (Bool-cases (uses (counter_at l key index) k)) [
          | inl used ↦ ground (
            arith,
            used,
            allowed_on-eq-min k calls s',
            value-allow_at key k index s,
            is_allowed-allow_at key k index s used,
          )
          | inr other ↦
              ground (arith, other, allowed_on-eq-min k calls s', value-allow_at key k index s)
        ]
