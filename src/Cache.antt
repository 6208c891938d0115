-- ===== src/Cache.antt =====
-- cache/redis/redis.go: the connection, the JSON cache and the lock, over the calls of go-redis.
-- `redis.NewClient` and encoding/json are arguments. Durations are in nanoseconds.
pub mod Values
pub mod Locks
pub mod Store
mod Tests
use idp_sdk.Common.{
  ℕ, zero, suc, ◌+◌, ◌-◌, ◌*◌, ◌/◌, ◌%◌, ◌^◌, ◌≤◌, ◌<◌, String, ◌≡◌, ◌≢◌, refl, sym, ap, ◌∙◌, ◌↔◌,
  ◌⊎◌, inl, inr, Bool, true, false, not, ◌&&◌, ◌||◌, Option, none, some, List, [], ◌∷◌, map, ℤ, pos,
  negsuc, arith, eq_iff, ◌==◌, eqb, ltb, leb, ◌<>◌, if◌then◌else◌, GoError, Result, ok, err,
  Bool-cases, Option-cases, ok-injective,
}
use idp_sdk.Common.Failure.{wrap_with}
use idp_sdk.Redis.{Redis}

pub record Config : Type 0 where
  pub addr : String
  pub password : String
  pub db : ℤ

module _ (r : Redis) where
  abbrev pinged : Config → Option GoError × r.State → Option GoError × r.State
  pinged cfg (some e, s) = (some (wrap_with ("redis: ping " <> cfg.addr <> ": ") e), s)
  pinged cfg (none, s) = (none, s)

  -- A client is its connection, so that a result without an error is a client.
  unfoldable pub new : (Config → r.State → r.State) → Config → r.State → Option GoError × r.State
  new new_client cfg s = pinged cfg (r.ping (new_client cfg s))

  unfoldable pub check : r.State → Option GoError × r.State
  check s = r.ping s

  abbrev decoded : {V : Type 0} → (String → Result V) → Result String × r.State → Result V × r.State
  decoded unmarshal (err e, s) = (err e, s)
  decoded unmarshal (ok raw, s) = (unmarshal raw, s)

  unfoldable pub get_json :
      {V : Type 0} → (String → Result V) → String → r.State → Result V × r.State
  get_json unmarshal key s = decoded unmarshal (r.get key s)

  abbrev put_encoded : String → ℤ → Result String → r.State → Option GoError × r.State
  put_encoded key ttl (err e) s =
      (some (wrap_with ("redis: marshaling value for " <> key <> ": ") e), s)
  put_encoded key ttl (ok raw) s = r.put key raw ttl s

  unfoldable pub set_json :
      {V : Type 0} → (V → Result String) → String → V → ℤ → r.State → Option GoError × r.State
  set_json marshal key value ttl s = put_encoded key ttl (marshal value) s

  -- The function `release` that `Lock` returns.
  unfoldable pub release : String → r.State → Option GoError × r.State
  release key s = r.del ("lock:" <> key) s

  abbrev answered : String → Result Bool → Result Bool
  answered key (err e) = err (wrap_with ("redis: acquring lock " <> key <> ": ") e)
  answered key (ok acquired) = ok acquired

  -- Whether the lock was acquired; with it comes `release key`.
  unfoldable pub lock : String → ℤ → r.State → Result Bool × r.State
  lock key ttl s =
      let (acquired, s') = r.put_nx ("lock:" <> key) "1" ttl s in (answered key acquired, s')
