-- ===== src/Cache/Store.antt =====
-- What the JSON cache of cache/redis/redis.go promises, as a partial map from keys to values, and that
-- the calls on Redis implement it.
use idp_sdk.Common.{
  String, ◌≡◌, refl, ap, ◌∙◌, ◌⊎◌, inl, inr, Bool, true, false, Option, none, some, List, [], ◌∷◌,
  ℤ, ◌==◌, if◌then◌else◌, GoError, Result, ok, err,
}
use idp_sdk.Redis.{Redis}
use idp_sdk.Cache.{decoded, get_json, put_encoded, set_json}
use idp_sdk.Cache.Values.{Codes}

-- What a caller sees: a call with its answer, or time passing.
pub data Event (V : Type 0) : Type 0 where
  stored : String → V → Option GoError → Event V
  read : String → Result V → Event V
  aged : Event V

-- The promise. A store without an error is seen by every later read until its time is over; one with
-- an error may have happened; a read changes nothing, and what it returns is what the key holds.
pub data Allows {V : Type 0} (m : String → Option V) : Event V → (String → Option V) → Type 0 where
  storing :
      {key : String} {v : V} {m' : String → Option V}
      → ((k : String) → m' k ≡ (if key == k then some v else m k))
      → Allows m (stored key v none) m'
  storing_fails :
      {key : String} {v : V} {e : GoError} {m' : String → Option V}
      → ((k : String) → (m' k ≡ m k) ⊎ ((key ≡ k) × (m' k ≡ some v)))
      → Allows m (stored key v (some e)) m'
  reading :
      {key : String} {v : V} {m' : String → Option V}
      → m key ≡ some v
      → ((k : String) → m' k ≡ m k)
      → Allows m (read key (ok v)) m'
  reading_fails :
      {key : String} {e : GoError} {m' : String → Option V}
      → ((k : String) → m' k ≡ m k)
      → Allows m (read key (err e)) m'
  ageing :
      {m' : String → Option V} → ((k : String) → (m' k ≡ m k) ⊎ (m' k ≡ none)) → Allows m aged m'

-- A run, its latest event first.
pub data AllowsAll {V : Type 0} (m : String → Option V)
    : List (Event V) → (String → Option V) → Type 0 where
  start : AllowsAll m [] m
  next :
      {es : List (Event V)} {e : Event V} {m' m'' : String → Option V}
      → AllowsAll m es m'
      → Allows m' e m''
      → AllowsAll m (e ∷ es) m''

-- SET and GET as documented, next to the expiry of keys: a SET that fails may have been done.
pub record Keeps (r : Redis) (view : r.State → String → Option String) : Type 0 where
  pub puts :
      (key raw : String) (ttl : ℤ) (s : r.State)
      → (r.put key raw ttl s).0 ≡ none
      → (k : String) → view (r.put key raw ttl s).1 k ≡ (if key == k then some raw else view s k)
  pub put_fails :
      (key raw : String) (ttl : ℤ) (s : r.State) (e : GoError)
      → (r.put key raw ttl s).0 ≡ some e
      → (k : String)
      → (view (r.put key raw ttl s).1 k ≡ view s k)
        ⊎ ((key ≡ k) × (view (r.put key raw ttl s).1 k ≡ some raw))
  pub gets : (key raw : String) (s : r.State) → (r.get key s).0 ≡ ok raw → view s key ≡ some raw
  pub same_get : (key k : String) (s : r.State) → view (r.get key s).1 k ≡ view s k

module _ (r : Redis) (view : r.State → String → Option String) {V : Type 0}
    (marshal : V → Result String) (unmarshal : String → Result V) where
  -- The code's own steps, and time that passes on the server.
  pub data Runs (s : r.State) : Event V → r.State → Type 0 where
    sets :
        (key : String) (v : V) (ttl : ℤ)
        → Runs s
            (stored key v (set_json r marshal key v ttl s).0)
            (set_json r marshal key v ttl s).1
    gets :
        (key : String)
        → Runs s (read key (get_json r unmarshal key s).0) (get_json r unmarshal key s).1
    waits :
        {s' : r.State}
        → ((k : String) → (view s' k ≡ view s k) ⊎ (view s' k ≡ none))
        → Runs s aged s'

  pub data RunsAll (s : r.State) : List (Event V) → r.State → Type 0 where
    begin : RunsAll s [] s
    then_one :
        {es : List (Event V)} {e : Event V} {s' s'' : r.State}
        → RunsAll s es s'
        → Runs s' e s''
        → RunsAll s (e ∷ es) s''

  abbrev loaded : Result V → Option V
  loaded (ok v) = some v
  loaded (err e) = none

  abbrev value_of : Option String → Option V
  value_of none = none
  value_of (some raw) = loaded (unmarshal raw)

  -- What the keys of the server stand for; a text that is not the JSON of a value stands for none.
  abbrev pub values : r.State → String → Option V
  values s k = value_of (view s k)

module _ (r : Redis) (view : r.State → String → Option String) (t : Keeps r view) {V : Type 0}
    (marshal : V → Result String) (unmarshal : String → Result V)
    (j : Codes marshal unmarshal) where
  abbrev at_values : r.State → String → Option V
  at_values s k = values r view marshal unmarshal s k

  abbrev of_text : Option String → Option V
  of_text o = value_of r view marshal unmarshal o

  value-marshal : (v : V) (raw : String) → marshal v ≡ ok raw → of_text (some raw) ≡ some v
  value-marshal v raw m = ap (loaded r view marshal unmarshal) (j.unmarshal_marshal v raw m)

  value-if :
      (b : Bool) (raw : String) (o : Option String) (v : V)
      → marshal v ≡ ok raw
      → of_text (if b then some raw else o) ≡ (if b then some v else of_text o)
  value-if true raw o v m = value-marshal v raw m
  value-if false raw o v m = refl

  put-Allows :
      (key raw : String) (v : V) (s : r.State)
      → marshal v ≡ ok raw
      → (o : Option GoError × r.State)
      → (o.0 ≡ none → (k : String) → view o.1 k ≡ (if key == k then some raw else view s k))
      → ((e : GoError)
          → o.0 ≡ some e
          → (k : String) → (view o.1 k ≡ view s k) ⊎ ((key ≡ k) × (view o.1 k ≡ some raw)))
      → Allows (at_values s) (stored key v o.0) (at_values o.1)
  put-Allows key raw v s m (none, s') puts fails =
      storing (λ k. ap of_text (puts refl k) ∙ value-if (key == k) raw (view s k) v m)
  put-Allows key raw v s m (some e, s') puts fails = storing_fails (λ k. elim (fails e refl k) [
    | inl same ↦ inl (ap of_text same)
    | inr (same_key, put) ↦ inr (same_key, ap of_text put ∙ value-marshal v raw m)
  ])

  put_encoded-Allows :
      (key : String) (v : V) (ttl : ℤ) (s : r.State) (o : Result String)
      → marshal v ≡ o
      → Allows
          (at_values s)
          (stored key v (put_encoded r key ttl o s).0)
          (at_values (put_encoded r key ttl o s).1)
  put_encoded-Allows key v ttl s (err e) m = storing_fails (λ k. inl refl)
  put_encoded-Allows key v ttl s (ok raw) m =
      put-Allows key raw v s m (r.put key raw ttl s) (t.puts key raw ttl s)
        (t.put_fails key raw ttl s)

  read-Allows :
      (key : String) (s s' : r.State) (o : Result V)
      → ((v : V) → o ≡ ok v → at_values s key ≡ some v)
      → ((k : String) → view s' k ≡ view s k)
      → Allows (at_values s) (read key o) (at_values s')
  read-Allows key s s' (ok v) finds same = reading (finds v refl) (λ k. ap of_text (same k))
  read-Allows key s s' (err e) finds same = reading_fails (λ k. ap of_text (same k))

  found :
      (key : String) (s : r.State) (o : Result String × r.State)
      → ((raw : String) → o.0 ≡ ok raw → view s key ≡ some raw)
      → (v : V) → (decoded r unmarshal o).0 ≡ ok v
      → at_values s key ≡ some v
  found key s (err e, s') finds v h = cc
  found key s (ok raw, s') finds v h =
      ap of_text (finds raw refl) ∙ ap (loaded r view marshal unmarshal) h

  state-decoded : (o : Result String × r.State) → (decoded r unmarshal o).1 ≡ o.1
  state-decoded (err e, s) = refl
  state-decoded (ok raw, s) = refl

  Runs-Allows :
      {s s' : r.State} {e : Event V}
      → Runs r view marshal unmarshal s e s'
      → Allows (at_values s) e (at_values s')
  unfolding get_json set_json
  Runs-Allows {s} (sets key v ttl) = put_encoded-Allows key v ttl s (marshal v) refl
  Runs-Allows {s} (gets key) =
      read-Allows key s (decoded r unmarshal (r.get key s)).1 (decoded r unmarshal (r.get key s)).0
        (found key s (r.get key s) (λ raw h. t.gets key raw s h))
        (λ k. ap (λ x. view x k) (state-decoded (r.get key s)) ∙ t.same_get key k s)
  Runs-Allows {s} (waits still) =
      ageing (λ k. elim (still k) [
        | inl same ↦ inl (ap of_text same)
        | inr gone ↦ inr (ap of_text gone)
      ])

  -- The cache implements its promise, Redis keeping keys as documented and JSON reading back: every run
  -- of SetJSON and GetJSON, by whatever callers, between which keys may expire, is a run of the map
  -- from keys to values, with the same calls and the same answers.
  pub RunsAll-Allows :
      {s s' : r.State} {es : List (Event V)}
      → RunsAll r view marshal unmarshal s es s'
      → AllowsAll (at_values s) es (at_values s')
  RunsAll-Allows begin = start
  RunsAll-Allows (then_one run step) = next (RunsAll-Allows run) (Runs-Allows step)
