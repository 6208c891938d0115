-- ===== src/Cache/Tests.antt =====
-- Runs of cache/redis/redis.go, and its theorems at concrete inputs.
use idp_sdk.Common.{
  inr, Memᴰ, eq_refl, ◌+◌, ◌≤◌, String, ◌≡◌, ◌≢◌, refl, sym, ap, Bool, true, false, Option, none,
  some, List, [], ◌∷◌, pos, arith, eq_iff, ◌==◌, if◌then◌else◌, Result, ok, err, ok-injective,
}
use idp_sdk.Common.Failure.{plain}
use idp_sdk.Redis.{Redis}
use idp_sdk.Cache.{get_json, set_json, lock, release}
use idp_sdk.Cache.Values.{Stores, Codes, get_json-set_json}
use idp_sdk.Cache.Store.{
  Event, aged, Keeps, RunsAll, begin, then_one, sets, gets, waits, AllowsAll, values,
  RunsAll-Allows,
}
use idp_sdk.Cache.Store as Store
use idp_sdk.Cache.Locks.{Call, attempt, give_back, SetsOnce, acquired, one, acquired_at_most_once}

abbrev Keys : Type 0
Keys = String → Option String

abbrev with_key : String → Option String → Keys → Keys
with_key k v s = λ j. if k == j then v else s j

abbrev read : Option String → Result String
read none = err (plain "redis: nil")
read (some v) = ok v

abbrev set_free : String → String → Keys → Option String → Result Bool × Keys
set_free k v s none = (ok true, with_key k (some v) s)
set_free k v s (some old) = (ok false, s)

-- A server that keeps its keys until they are deleted.
abbrev server : Redis
server = record {
  State = Keys;
  incr = λ k s. (err (plain "no counters here"), s);
  expire = λ k d s. (none, s);
  ttl = λ k s. (ok (pos 0), s);
  ping = λ s. (some (plain "connection refused"), s);
  get = λ k s. (read (s k), s);
  put = λ k v d s. (none, with_key k (some v) s);
  put_nx = λ k v d s. set_free k v s (s k);
  del = λ k s. (none, with_key k none s);
}

abbrev is_some : Option String → Bool
is_some none = false
is_some (some v) = true

abbrev there : String → Keys → Bool
there k s = is_some (s k)

set_free-won :
    (k v : String) (s : Keys) (o : Option String)
    → s k ≡ o
    → (set_free k v s o).0 ≡ ok true
    → (there k s ≡ false) × (there k (set_free k v s o).1 ≡ true)
set_free-won k v s none e h = (rw e refl, rw eq_refl refl)
set_free-won k v s (some old) e h = cc

set_free_stays :
    (k v : String) (s : Keys) (o : Option String)
    → there k s ≡ true
    → there k (set_free k v s o).1 ≡ true
set_free_stays k v s none h = rw eq_refl refl
set_free_stays k v s (some old) h = h

with_key_other : (j k : String) (v : Option String) (s : Keys) → j ≢ k → with_key k v s j ≡ s j
with_key_other j k v s ne = ground (arith, eq_iff k j)

set_free_other :
    (j k v : String) (s : Keys) (o : Option String)
    → j ≢ k
    → there j (set_free k v s o).1 ≡ there j s
set_free_other j k v s none ne = ap is_some (with_key_other j k (some v) s ne)
set_free_other j k v s (some old) ne = refl

server-SetsOnce : SetsOnce server there
server-SetsOnce = record {
  was_free = λ k v d s h. set_free-won k v s (s k) refl h;
  stays = λ k v d s h. set_free_stays k v s (s k) h;
  put_nx_other = λ j k v d s ne. set_free_other j k v s (s k) ne;
  del_other = λ j k s ne. ap is_some (with_key_other j k none s ne);
}

server-Stores : Stores server
server-Stores = record { get_put = λ key raw ttl s h. rw (eq_refl key) refl }

abbrev empty : Keys
empty _ = none

abbrev calls : List Call
calls =
    attempt "report" (pos 1_000_000_000)
    ∷ attempt "mail" (pos 1_000_000_000)
    ∷ give_back "mail"
    ∷ attempt "report" (pos 1_000_000_000)
    ∷ []

abbrev key_of : Call → String
key_of (attempt key ttl) = key
key_of (give_back key) = key

abbrev report : String
report = "report"

abbrev mail : String
mail = "mail"

other_key : report ≢ mail
other_key e = ground (arith, eq_iff report mail)

no_release : ¬ Memᴰ (give_back "report") calls
no_release (Memᴰ.head e) = cc
no_release (Memᴰ.tail (Memᴰ.head e)) = cc
no_release (Memᴰ.tail (Memᴰ.tail (Memᴰ.head e))) = other_key (ap key_of e)
no_release (Memᴰ.tail (Memᴰ.tail (Memᴰ.tail (Memᴰ.head e)))) = cc
no_release (Memᴰ.tail (Memᴰ.tail (Memᴰ.tail (Memᴰ.tail m)))) = elim m [ ]

acquired_at_most_once_example :
    one (there "lock:report" empty) + acquired server "report" calls empty ≤ 1
acquired_at_most_once_example =
    acquired_at_most_once server there server-SetsOnce "report" calls empty no_release

acquired_once : acquired server "report" calls empty ≡ 1
unfolding acquired lock release
acquired_once = refl

-- The release asks nobody who holds the lock: where it is called after the key expired and another
-- client took the lock, the lock is free again.
released :
    (lock server "report"
      (pos 1)
      (release server "report" (lock server "report" (pos 1) empty).1).1).0
    ≡ ok true
unfolding lock release
released = refl

abbrev as_is : String → Result String
as_is s = ok s

as_is-Codes : Codes as_is as_is
as_is-Codes = record { unmarshal_marshal = λ v raw h. ap ok (sym (ok-injective h)) }

stored_well : (set_json server as_is "user:1" "{}" (pos 0) empty).0 ≡ none
unfolding set_json
stored_well = refl

read_back :
    (get_json server as_is "user:1" (set_json server as_is "user:1" "{}" (pos 0) empty).1).0
    ≡ ok "{}"
read_back =
    get_json-set_json server server-Stores as_is as_is as_is-Codes "user:1" "{}" (pos 0) empty
      stored_well

read-some : (o : Option String) (raw : String) → read o ≡ ok raw → o ≡ some raw
read-some none raw h = cc
read-some (some v) raw h = ap some (ok-injective h)

server-Keeps : Keeps server (λ s. s)
server-Keeps = record {
  puts = λ key raw ttl s h k. refl;
  put_fails = λ key raw ttl s e h k. cc;
  gets = λ key raw s h. read-some (s key) raw h;
  same_get = λ key k s. refl;
}

abbrev cached : Keys
cached = (set_json server as_is "user:1" "{}" (pos 0) empty).1

-- A value is stored and read, and expires.
abbrev cached_then_gone : List (Event String)
cached_then_gone =
    aged
    ∷ Store.read "user:1" (get_json server as_is "user:1" cached).0
    ∷ Store.stored "user:1" "{}" (set_json server as_is "user:1" "{}" (pos 0) empty).0
    ∷ []

cached_run : RunsAll server (λ s. s) as_is as_is empty cached_then_gone empty
cached_run =
    then_one (then_one (then_one begin (sets "user:1" "{}" (pos 0))) (gets "user:1"))
      (waits (λ k. inr refl))

RunsAll-Allows_example :
    AllowsAll
      (values server (λ s. s) as_is as_is empty)
      cached_then_gone
      (values server (λ s. s) as_is as_is empty)
RunsAll-Allows_example =
    RunsAll-Allows server (λ s. s) server-Keeps as_is as_is as_is-Codes cached_run
