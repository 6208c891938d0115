-- ===== src/HttpClient.antt =====
-- database/httpclient/httpclient.go: the client with its retry loop and its backoff.
-- Durations are in nanoseconds. A request carries its context.
pub mod Net
pub mod Backoff
pub mod Ends
pub mod Retries
mod Tests
use idp_sdk.Common.{
  ℕ, zero, suc, ◌+◌, ◌-◌, ◌*◌, ◌/◌, ◌%◌, ◌^◌, ◌≤◌, ◌<◌, String, ◌≡◌, ◌≢◌, refl, sym, ap, ◌∙◌, ◌↔◌,
  ◌⊎◌, inl, inr, Bool, true, false, not, ◌&&◌, ◌||◌, Option, none, some, List, [], ◌∷◌, map, ℤ, pos,
  negsuc, arith, eq_iff, ◌==◌, eqb, ltb, leb, ◌<>◌, if◌then◌else◌, GoError, Result, ok, err,
  Bool-cases, Option-cases, ok-injective,
}
use idp_sdk.HttpClient.Net.{Transport, Response}
use idp_sdk.Common.Failure.{wrap_with, error_text, plain}
use idp_sdk.Common.Int.{positive_or, pos_part, neg_part, ◌-ℤ◌}
use idp_sdk.Common.Decimal.{decimal}

pub record Config : Type 0 where
  pub timeout : ℤ
  pub max_retries : ℤ
  pub base_delay : ℤ

-- The least `e` from there on with n < 2 ^ (53 + e): 11 rounds reach every int64.
unfoldable pub spare_bits : ℕ → ℕ → ℕ → ℕ
spare_bits zero e n = e
spare_bits (suc rounds) e n =
    let rest = spare_bits rounds (suc e) n in if ltb n (2 ^ (53 + e)) then e else rest

-- A multiple of 2 ^ e next to n, the even one of two.
abbrev round_at : ℕ → ℕ → ℕ
round_at e n =
    let q = n / 2 ^ e in
    let r = n % 2 ^ e in
    if ltb (2 ^ e) (2 * r) || (eqb (2 * r) (2 ^ e) && eqb (q % 2) 1)
    then suc q * 2 ^ e
    else q * 2 ^ e

-- `float64(n)`, for the size of an int64.
unfoldable pub to_float : ℕ → ℕ
unfolding spare_bits
to_float n = round_at (spare_bits 11 0 n) n

module _ (n : Transport) where
  -- A float64 with no fraction, as a `time.Duration`.
  abbrev to_duration : Bool → ℕ → ℤ
  to_duration negative m =
      if negative
      then if leb m (2 ^ 63) then pos 0 -ℤ pos m else n.out_of_range
      else if ltb m (2 ^ 63)
      then pos m
      else n.out_of_range

  -- A power of 2 only moves the exponent of a float64. `math.Pow(2, -1)` is a half; from 2 ^ 1024 on
  -- it is infinite, and so is its product with the base, or no number.
  unfoldable pub backoff : ℤ → ℕ → ℤ
  backoff base zero =
      to_duration (ltb 0 (neg_part base)) (to_float (pos_part base + neg_part base) / 2)
  backoff base (suc attempt) =
      if leb 1024 attempt
      then n.out_of_range
      else to_duration (ltb 0 (neg_part base))
          (to_float (pos_part base + neg_part base) * 2 ^ attempt)

  pub record Client : Type 0 where
    pub http : n.Http
    pub retries : ℤ
    pub delay : ℤ

  unfoldable pub new : Config → Client
  new cfg = record {
    http = n.new_http (positive_or cfg.timeout (pos 10_000_000_000));
    retries = positive_or cfg.max_retries (pos 3);
    delay = positive_or cfg.base_delay (pos 200_000_000);
  }

  unfoldable pub is_transient : ℕ → Bool
  is_transient status = eqb status 429 || leb 500 status

  -- An attempt is over: with a response for the caller, or with an error and the next one.
  pub data Attempt : Type 0 where
    done : Response n.Body → Attempt
    again : GoError → Attempt

  abbrev judge : Result (Response n.Body) × n.World → Attempt × n.World
  judge (err e, w) = (again e, w)
  judge (ok resp, w) =
      if is_transient resp.status
      then (
        again (plain ("httpclient: status " <> decimal (pos resp.status))),
        n.close resp.body (n.discard resp.body w),
      )
      else (done resp, w)

  -- The `select`: the backoff has passed, or the error of the context.
  abbrev pause : Client → ℕ → n.Request → n.World → Option GoError × n.Request × n.World
  pause c attempt req w =
      let (cancelled, w') = n.wait req (backoff c.delay attempt) w in (cancelled, req, w')

  abbrev after_rewind :
      Client → ℕ → n.Request → Result n.Payload × n.World → Option GoError × n.Request × n.World
  after_rewind c attempt req (err e, w) =
      (some (wrap_with "httpclient: rewinding request body for retry: " e), req, w)
  after_rewind c attempt req (ok body, w) = pause c attempt (n.with_body body req) w

  -- What comes before an attempt other than the first.
  abbrev prepare : Client → ℕ → n.Request → n.World → Option GoError × n.Request × n.World
  prepare c attempt req w =
      if eqb attempt 0
      then (none, req, w)
      else if n.has_get_body req
      then after_rewind c attempt req (n.get_body req w)
      else pause c attempt req w

  -- What a call ends with, and the rest of the loop behind an attempt with that error.
  abbrev Ending : Type 0
  Ending = Result (Response n.Body) × n.Request × n.World

  abbrev Rest : Type 0
  Rest = GoError → n.Request → n.World → Ending

  abbrev judged : Rest → n.Request → Attempt × n.World → Ending
  judged rest req (done resp, w) = (ok resp, req, w)
  judged rest req (again e, w) = rest e req w

  abbrev prepared : Client → Rest → Option GoError × n.Request × n.World → Ending
  prepared c rest (some e, req, w) = (err e, req, w)
  prepared c rest (none, req, w) = judged rest req (judge (n.send c.http req w))

  abbrev give_up : ℤ → Option GoError → GoError
  give_up retries none =
      plain
        ("httpclient: giving up after " <> decimal (retries -ℤ negsuc 0) <> " attempts: %!w(<nil>)")
  give_up retries (some e) =
      wrap_with ("httpclient: giving up after " <> decimal (retries -ℤ negsuc 0) <> " attempts: ") e

  -- The loop, with the number of attempts that are left, the index of the next and `lastErr`. The
  -- request comes back, since the loop sets its body.
  unfoldable pub attempts_from : Client → ℕ → ℕ → Option GoError → n.Request → n.World → Ending
  attempts_from c zero attempt last_err req w = (err (give_up c.retries last_err), req, w)
  attempts_from c (suc left) attempt last_err req w =
      prepared c (λ e. attempts_from c left (suc attempt) (some e)) (prepare c attempt req w)

  -- The number of rounds of `attempt <= c.retries`.
  abbrev pub rounds : ℤ → ℕ
  rounds (pos retries) = suc retries
  rounds (negsuc retries) = 0

  unfoldable pub do_request : Client → n.Request → n.World → Ending
  do_request c req w = attempts_from c (rounds c.retries) 0 none req w

  abbrev do_built : Client → Result n.Request → n.World → Result (Response n.Body) × n.World
  do_built c (err e) w = (err e, w)
  do_built c (ok req) w = let (r, req', w') = do_request c req w in (r, w')

  unfoldable pub get : Client → String → n.World → Result (Response n.Body) × n.World
  get c url w = do_built c (n.new_get url) w
