-- ===== src/Health.antt =====
-- health/health.go and health/middleware_gin.go: the registry of checkers, the readiness report and
-- the two probe endpoints.
-- A checker is the answer that it gives in this probe: nil or an error, its own timeout included.
-- The order in which Go ranges over the map is the order of the list of checkers.
pub mod Schedule
pub mod Ready
pub mod Unordered
mod Tests
use idp_sdk.Common.{
  ℕ, zero, suc, String, Bool, true, false, not, Option, none, some, List, [], ◌∷◌, map, ℤ, pos,
  ◌==◌, if◌then◌else◌, set, length, insert, GoError,
}
use idp_sdk.Common.Failure.{error_text}
use idp_sdk.Common.Int.{leb_ℤ}
use idp_sdk.Common.Value.{
  Any, text, bool, array, object, Items, none_left, item, Fields, field, end,
}
use idp_sdk.Gin.{Gin}

-- What `Check(ctx)` returns under the registry's timeout.
abbrev pub Checker : Type 0
Checker = ℤ → Option GoError

pub record Registry : Type 0 where
  pub checkers : List (String × Checker)
  pub timeout : ℤ

unfoldable pub new_registry : ℤ → Registry
new_registry per_check_timeout = record {
  checkers = [];
  timeout = if leb_ℤ per_check_timeout (pos 0) then pos 2_000_000_000 else per_check_timeout;
}

unfoldable pub register : String → Checker → Registry → Registry
register name c r = record r { checkers = insert name c r.checkers }

pub record Result : Type 0 where
  pub name : String
  pub status : String
  pub error : String

pub record Report : Type 0 where
  pub ready : Bool
  pub results : List Result

-- The body of the goroutine of one checker.
abbrev result_of : String → Option GoError → Result
result_of name none = record { name = name; status = "ok"; error = "" }
result_of name (some e) = record { name = name; status = "error"; error = error_text e }

unfoldable pub run_checker : ℤ → String × Checker → Result
run_checker timeout (name, c) = result_of name (c timeout)

-- A slot of `results` before its goroutine has written it.
abbrev pub empty_result : Result
empty_result = record { name = ""; status = ""; error = "" }

-- `results[i] = res`, by the goroutine of the checker at `i`.
unfoldable pub write_slot : ℤ → List (String × Checker) → ℕ → List Result → List Result
write_slot timeout [] i results = results
write_slot timeout (c ∷ cs) i [] = []
write_slot timeout (c ∷ cs) zero (x ∷ results) = run_checker timeout c ∷ results
write_slot timeout (c ∷ cs) (suc i) (x ∷ results) = x ∷ write_slot timeout cs i results

-- The goroutines finish in the order that the list of indices gives.
unfoldable pub run_goroutines : ℤ → List (String × Checker) → List ℕ → List Result → List Result
run_goroutines timeout cs [] results = results
run_goroutines timeout cs (i ∷ order) results =
    run_goroutines timeout cs order (write_slot timeout cs i results)

-- The loop that clears `ready`, with its `break`.
unfoldable pub all_ok : List Result → Bool
all_ok [] = true
all_ok (res ∷ results) = if not (res.status == "ok") then false else all_ok results

abbrev empty_slots : List (String × Checker) → List Result
empty_slots [] = []
empty_slots (c ∷ cs) = empty_result ∷ empty_slots cs

unfoldable pub check : Registry → List ℕ → Report
check r order =
    let results = run_goroutines r.timeout r.checkers order (empty_slots r.checkers) in
    record { ready = all_ok results; results = results }

abbrev error_field : String → Fields
error_field e = if e == "" then end else field "error" (text e) end

abbrev result_items : List Result → Items
result_items [] = none_left
result_items (res ∷ results) =
    item
      (object
        (field "name" (text res.name) (field "status" (text res.status) (error_field res.error))))
      (result_items results)

abbrev report_body : Report → Fields
report_body report =
    field "ready" (bool report.ready) (field "checks" (array (result_items report.results)) end)

module _ {Entry : Type 0} (g : Gin Entry) where
  -- GET /healthz
  unfoldable pub healthz : g.Context → g.Context
  healthz c = g.json 200 (field "stauts" (text "ok") end) c

  -- GET /readyz
  unfoldable pub readyz : Registry → List ℕ → g.Context → g.Context
  readyz r order c =
      let report = check r order in
      g.json (if not report.ready then 503 else 200) (report_body report) c

  -- A route of a `gin.IRouter`, by its path.
  pub data Route : Type 0 where
    get : String → (g.Context → g.Context) → Route

  unfoldable pub register_routes : Registry → List ℕ → List Route
  register_routes r order = get "/healthz" healthz ∷ get "/readyz" (readyz r order) ∷ []
