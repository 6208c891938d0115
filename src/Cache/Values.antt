-- ===== src/Cache/Values.antt =====
-- A value that cache/redis/redis.go stores is read back.
use idp_sdk.Common.{String, ◌≡◌, refl, ap, ◌∙◌, none, ℤ, Result, ok, err, ok-injective}
use idp_sdk.Redis.{Redis}
use idp_sdk.Cache.{decoded, get_json, put_encoded, set_json}

-- SET without an error is what the next GET of the key reads.
pub record Stores (r : Redis) : Type 0 where
  pub get_put :
      (key raw : String) (ttl : ℤ) (s : r.State)
      → (r.put key raw ttl s).0 ≡ none
      → (r.get key (r.put key raw ttl s).1).0 ≡ ok raw

-- What encoding/json reads back of what it wrote.
pub record Codes {V : Type 0} (marshal : V → Result String) (unmarshal : String → Result V)
    : Type 0 where
  pub unmarshal_marshal : (v : V) (raw : String) → marshal v ≡ ok raw → unmarshal raw ≡ ok v

module _ (r : Redis) (t : Stores r) {V : Type 0} (marshal : V → Result String)
    (unmarshal : String → Result V) (j : Codes marshal unmarshal) (key : String) (v : V) (ttl : ℤ)
    (s : r.State) where
  decoded_put :
      (m : Result String)
      → marshal v ≡ m
      → (put_encoded r key ttl m s).0 ≡ none
      → (decoded r unmarshal (r.get key (put_encoded r key ttl m s).1)).0 ≡ ok v
  decoded_put (err e) m h = cc
  decoded_put (ok raw) m h =
      decoded_ok (r.get key (r.put key raw ttl s).1) (t.get_put key raw ttl s h)
    where
      decoded_ok : (o : Result String × r.State) → o.0 ≡ ok raw → (decoded r unmarshal o).0 ≡ ok v
      decoded_ok (err e, s') q = cc
      decoded_ok (ok raw', s') q = ap unmarshal (ok-injective q) ∙ j.unmarshal_marshal v raw m

  -- Redis storing and JSON reading back as documented, a value that SetJSON stored without an error is
  -- what GetJSON returns for its key right after.
  pub get_json-set_json :
      (set_json r marshal key v ttl s).0 ≡ none
      → (get_json r unmarshal key (set_json r marshal key v ttl s).1).0 ≡ ok v
  unfolding get_json set_json
  get_json-set_json h = decoded_put (marshal v) refl h
