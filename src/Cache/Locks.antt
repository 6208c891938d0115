-- ===== src/Cache/Locks.antt =====
-- The lock of cache/redis/redis.go under calls of several clients.
use idp_sdk.Common.{
  Memᴰ, ℕ, ◌+◌, ◌≤◌, String, ◌≡◌, ◌≢◌, refl, sym, ap, ◌∙◌, inl, inr, Bool, true, false, List, [],
  ◌∷◌, ℤ, arith, eq_iff, ◌==◌, ◌<>◌, if◌then◌else◌, Result, ok, err, Bool-cases,
}
use mathlib.Core.Option.{some-injective}
use mathlib.Core.Path.{subst}
use idp_sdk.Common.Text.Trim.{cut_prefix_iff}
use idp_sdk.Redis.{Redis}
use idp_sdk.Cache.{answered, lock, release}

-- A call on a lock: an attempt to take it, or a release.
pub data Call : Type 0 where
  attempt : (key : String) → ℤ → Call
  give_back : (key : String) → Call

-- SETNX and DEL as documented, with no key expiring: SETNX sets a key exactly where there was none,
-- and also where it fails it takes away no key; both leave the other keys.
pub record SetsOnce (r : Redis) (there : String → r.State → Bool) : Type 0 where
  pub was_free :
      (k v : String) (d : ℤ) (s : r.State)
      → (r.put_nx k v d s).0 ≡ ok true
      → (there k s ≡ false) × (there k (r.put_nx k v d s).1 ≡ true)
  pub stays :
      (k v : String) (d : ℤ) (s : r.State) → there k s ≡ true → there k (r.put_nx k v d s).1 ≡ true
  pub put_nx_other :
      (j k v : String) (d : ℤ) (s : r.State) → j ≢ k → there j (r.put_nx k v d s).1 ≡ there j s
  pub del_other : (j k : String) (s : r.State) → j ≢ k → there j (r.del k s).1 ≡ there j s

abbrev pub one : Bool → ℕ
one true = 1
one false = 0

abbrev won : Result Bool → ℕ
won (ok acquired) = one acquired
won (err e) = 0

module _ (r : Redis) where
  -- How often calls acquire the lock of a key, run one after the other.
  abbrev after_lock : String → String → ℕ → Result Bool → ℕ
  after_lock k key rest o = if key == k then won o + rest else rest

  unfoldable pub acquired : String → List Call → r.State → ℕ
  acquired k [] s = 0
  acquired k (attempt key ttl ∷ calls) s =
      let (o, s') = lock r key ttl s in after_lock k key (acquired k calls s') o
  acquired k (give_back key ∷ calls) s = acquired k calls (release r key s).1

module _ (r : Redis) (there : String → r.State → Bool) (t : SetsOnce r there) (k : String) where
  abbrev taken : r.State → ℕ
  taken s = one (there ("lock:" <> k) s)

  one_le : (b : Bool) → one b ≤ 1
  one_le true = omega arith
  one_le false = omega arith

  taken_le : (ttl : ℤ) (s : r.State) → taken s ≤ taken (r.put_nx ("lock:" <> k) "1" ttl s).1
  taken_le ttl s = elim (Bool-cases (there ("lock:" <> k) s)) [
    | inl set ↦ rw (set, t.stays ("lock:" <> k) "1" ttl s set) (omega arith)
    | inr free ↦ rw free (omega arith)
  ]

  -- Who acquires the lock found it free, and it is taken from then on.
  taken-lock : (ttl : ℤ) (s : r.State) → taken s + won (lock r k ttl s).0 ≤ taken (lock r k ttl s).1
  unfolding lock
  taken-lock ttl s = by_answer (r.put_nx ("lock:" <> k) "1" ttl s).0 refl
    where
      by_answer :
          (o : Result Bool)
          → (r.put_nx ("lock:" <> k) "1" ttl s).0 ≡ o
          → taken s + won (answered r k o) ≤ taken (r.put_nx ("lock:" <> k) "1" ttl s).1
      by_answer (err e) h = omega (arith, taken_le ttl s)
      by_answer (ok false) h = omega (arith, taken_le ttl s)
      by_answer (ok true) h =
          let (free, set) = t.was_free ("lock:" <> k) "1" ttl s h in rw (free, set) (omega arith)

  same_lock :
      (key : String) (ttl : ℤ) (s : r.State)
      → key ≡ k
      → taken s + won (lock r key ttl s).0 ≤ taken (lock r key ttl s).1
  same_lock key ttl s e =
      subst (λ j. taken s + won (lock r j ttl s).0 ≤ taken (lock r j ttl s).1) (sym e)
        (taken-lock ttl s)

  lock_key_injective : (j : String) → "lock:" <> k ≡ "lock:" <> j → k ≡ j
  lock_key_injective j e = some-injective _ _ (
      sym ((cut_prefix_iff "lock:" ("lock:" <> k) k).1 refl)
      ∙ (cut_prefix_iff "lock:" ("lock:" <> k) j).1 e)

  other_lock : (j : String) (ttl : ℤ) (s : r.State) → k ≢ j → taken (lock r j ttl s).1 ≡ taken s
  unfolding lock
  other_lock j ttl s ne =
      ap one
        (t.put_nx_other ("lock:" <> k) ("lock:" <> j) "1" ttl s (λ e. ne (lock_key_injective j e)))

  other_release : (j : String) (s : r.State) → k ≢ j → taken (release r j s).1 ≡ taken s
  unfolding release
  other_release j s ne =
      ap one (t.del_other ("lock:" <> k) ("lock:" <> j) s (λ e. ne (lock_key_injective j e)))

  -- Redis keeping keys as documented, and the key of the lock not expiring: in a run of calls by any
  -- clients, on this lock and on others, that has no release of this lock, it is acquired at most
  -- once, and not at all where it was taken at the start.
  pub acquired_at_most_once :
      (calls : List Call) (s : r.State)
      → ¬ Memᴰ (give_back k) calls
      → taken s + acquired r k calls s ≤ 1
  unfolding acquired
  acquired_at_most_once [] s keeps = omega (arith, one_le (there ("lock:" <> k) s))
  acquired_at_most_once (attempt key ttl ∷ calls) s keeps =
      let later = acquired_at_most_once calls (lock r key ttl s).1 (λ m. keeps (Memᴰ.tail m)) in
      elim (Bool-cases (key == k)) [
        | inl same ↦
            let mine = same_lock key ttl s ((eq_iff key k).0 same) in
            rw same (omega (arith, mine, later))
        | inr other ↦
            let still = other_lock key ttl s (λ e. ground (arith, eq_iff key k)) in
            rw other (omega (arith, still, later))
      ]
  acquired_at_most_once (give_back key ∷ calls) s keeps =
      let later = acquired_at_most_once calls (release r key s).1 (λ m. keeps (Memᴰ.tail m)) in
      let still = other_release key s (λ e. keeps (Memᴰ.head (ap give_back e))) in
      omega (arith, still, later)
