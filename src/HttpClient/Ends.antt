-- ===== src/HttpClient/Ends.antt =====
-- How the retry loop of database/httpclient/httpclient.go can end, and with which errors.
use idp_sdk.Common.{
  ℕ, ◌+◌, ◌≤◌, ◌<◌, ◌≡◌, refl, ◌⊎◌, inl, inr, false, Option, none, some, ℤ, pos, arith, eqb,
  GoError, Result, ok, err, Bool-cases,
}
use idp_sdk.Common.{◌<>◌, true}
use idp_sdk.Common.Failure.{plain, wrap_with}
use idp_sdk.Common.Decimal.{decimal}
use idp_sdk.HttpClient.Net.{Transport, Response}
use idp_sdk.HttpClient.{Client, is_transient, pause, after_rewind, prepare, give_up}

-- A status that is tried again: 429, or 500 and above.
abbrev pub IsRetried : ℕ → Type 0
IsRetried status = (status ≡ 429) ⊎ (500 ≤ status)

module _ (n : Transport) (c : Client n) (sent : n.World → ℕ) where
  -- The error of the request that went out as the one with this number: that of net/http, or the one
  -- that names a status which is tried again.
  abbrev pub IsErrorOf : ℕ → GoError → Type 0
  IsErrorOf number e =
      (req : n.Request) × (v : n.World) × (sent (n.send c.http req v).1 ≡ number)
      × (((n.send c.http req v).0 ≡ err e)
          ⊎ ((resp : Response n.Body) × ((n.send c.http req v).0 ≡ ok resp)
              × IsRetried resp.status
              × (e ≡ plain ("httpclient: status " <> decimal (pos resp.status)))))

  -- The error of what keeps the next request from going out: the body cannot be rewound, or the
  -- request's context is done.
  abbrev pub Stopped : GoError → Type 0
  Stopped e =
      ((req : n.Request) × (v : n.World) × (cause : GoError) × ((n.get_body req v).0 ≡ err cause)
        × (e ≡ wrap_with "httpclient: rewinding request body for retry: " cause))
      ⊎ ((req : n.Request) × (d : ℤ) × (v : n.World) × ((n.wait req d v).0 ≡ some e))

  -- How the loop ends, with k attempts left, by the number of requests that went out before and
  -- after: with a response whose status is not tried again; giving up after all of them, with an error
  -- that wraps that of the last; or stopped before one of them.
  abbrev pub Ended : ℕ → ℕ → ℕ → Result (Response n.Body) → Type 0
  Ended k before after (ok resp) =
      (¬ IsRetried resp.status) × (before < after) × (after ≤ before + k)
  Ended k before after (err e) =
      ((after ≡ before + k)
        × ((last : GoError) × IsErrorOf after last × (e ≡ give_up n c.retries (some last))))
      ⊎ ((before ≤ after) × (after < before + k) × Stopped e)

  -- What comes before an attempt lets it through, or has an error that stops the loop.
  abbrev pub Stops : Option GoError × n.Request × n.World → Type 0
  Stops (none, req, w) = Unit
  Stops (some e, req, w) = Stopped e

  waited-Stops :
      (req : n.Request) (d : ℤ) (w : n.World) (o : Option GoError) (v : n.World)
      → (n.wait req d w).0 ≡ o
      → Stops (o, req, v)
  waited-Stops req d w none v h = tt
  waited-Stops req d w (some e) v h = inr (req, d, w, h)

  pause-Stops : (attempt : ℕ) (req : n.Request) (w : n.World) → Stops (pause n c attempt req w)
  pause-Stops attempt req w = waited-Stops req _ w _ _ refl

  after_rewind-Stops :
      (attempt : ℕ) (req : n.Request) (w : n.World) (r : Result n.Payload × n.World)
      → (n.get_body req w).0 ≡ r.0
      → Stops (after_rewind n c attempt req r)
  after_rewind-Stops attempt req w (err e, w') h = inl (req, w, e, h, refl)
  after_rewind-Stops attempt req w (ok body, w') h = pause-Stops attempt (n.with_body body req) w'

  pub prepare-Stops :
      (attempt : ℕ) (req : n.Request) (w : n.World) → Stops (prepare n c attempt req w)
  prepare-Stops attempt req w = elim (Bool-cases (eqb attempt 0)) [
    | inl first ↦ rw first tt
    | inr later ↦ elim (Bool-cases (n.has_get_body req)) [
      | inl fresh ↦ rw (later, fresh) (after_rewind-Stops attempt req w (n.get_body req w) refl)
      | inr bare ↦ rw (later, bare) (pause-Stops attempt req w)
    ]
  ]

  pub IsRetried-is_transient : (status : ℕ) → is_transient n status ≡ true → IsRetried status
  unfolding is_transient
  IsRetried-is_transient status h = ground arith

  pub not-IsRetried : (status : ℕ) → is_transient n status ≡ false → ¬ IsRetried status
  unfolding is_transient
  not-IsRetried status h r = ground arith
