-- ===== src/HttpClient/Net.antt =====
-- What database/httpclient/httpclient.go uses of net/http and of the clock, as a record of calls over
-- a state of the outside world.
use idp_sdk.Common.{ℕ, String, Bool, Option, ℤ, GoError, Result}

pub record Response (Body : Type 0) : Type 0 where
  pub status : ℕ
  pub body : Body

pub record Transport : Type 1 where
  pub World : Type 0
  pub Http : Type 0
  pub Request : Type 0
  -- what a request sends
  pub Payload : Type 0
  -- what a response is read from
  pub Body : Type 0
  -- the client with that timeout, over the tracing transport
  pub new_http : ℤ → Http
  -- `http.NewRequestWithContext` for a GET without a body
  pub new_get : String → Result Request
  -- `req.GetBody != nil`, and its call
  pub has_get_body : Request → Bool
  pub get_body : Request → World → Result Payload × World
  pub with_body : Payload → Request → Request
  -- the end of the time, or the error of the request's context, if that is done first
  pub wait : Request → ℤ → World → Option GoError × World
  pub send : Http → Request → World → Result (Response Body) × World
  pub discard : Body → World → World
  pub close : Body → World → World
  -- what a float64 that no int64 can hold, NaN included, is converted to
  pub out_of_range : ℤ
