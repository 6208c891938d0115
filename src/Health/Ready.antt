-- ===== src/Health/Ready.antt =====
-- The readiness report of health/health.go and the probe endpoints of health/middleware_gin.go.
use idp_sdk.Common.{
  not, ℕ, ◌<◌, ◌≡◌, refl, ap, ◌↔◌, ◌⊎◌, inl, inr, String, Bool, true, false, Option, none, some,
  List, [], ◌∷◌, map, ℤ, length, All, Memᴰ, GoError, ◌==◌, if◌then◌else◌, Bool-cases,
}
use idp_sdk.Gin.{Gin}
use idp_sdk.Health.{Checker, Registry, result_of, run_checker, all_ok, check, report_body, readyz}
use idp_sdk.Health.Schedule.{run_goroutines-eq-map}

-- Every registered checker answers nil.
abbrev pub AllHealthy : Registry → Type 0
AllHealthy r = All (λ (c : String × Checker). c.1 r.timeout ≡ none) r.checkers

-- One round of the loop over the results.
round_iff :
    (name : String) (o : Option GoError) (rest : Bool)
    → ((if not ((result_of name o).status == "ok") then false else rest) ≡ true)
      ↔ ((o ≡ none) × (rest ≡ true))
round_iff name none rest = (λ h. (refl, h), λ h. h.1)
round_iff name (some e) rest = (λ h. cc, λ h. cc)

all_ok-map :
    (timeout : ℤ) (cs : List (String × Checker))
    → (all_ok (map (run_checker timeout) cs) ≡ true)
      ↔ All (λ (c : String × Checker). c.1 timeout ≡ none) cs
unfolding all_ok run_checker
all_ok-map timeout [] = (λ _. tt, λ _. refl)
all_ok-map timeout ((name, c) ∷ cs) =
    let (to, from) = all_ok-map timeout cs in
    let (split, join) = round_iff name (c timeout) (all_ok (map (run_checker timeout) cs)) in
    (λ h. ((split h).0, to (split h).1), λ h. join (h.0, from h.1))

-- When every goroutine has finished, in whatever order, the report says ready exactly if every
-- checker answered nil, and it lists the result of each checker, in the order of the registry.
pub check_ready :
    (r : Registry) (order : List ℕ)
    → ((i : ℕ) → i < length r.checkers → Memᴰ i order)
    → (((check r order).ready ≡ true) ↔ AllHealthy r)
      × ((check r order).results ≡ map (run_checker r.timeout) r.checkers)
unfolding check
check_ready r order finished =
    let e = run_goroutines-eq-map r.timeout r.checkers order finished in
    (rw e (all_ok-map r.timeout r.checkers), e)

-- The readiness endpoint answers 200 exactly if every checker answered nil, and else 503, each time
-- with the report as its body.
pub readyz_lem :
    {Entry : Type 0} (g : Gin Entry) (r : Registry) (order : List ℕ) (c : g.Context)
    → ((i : ℕ) → i < length r.checkers → Memᴰ i order)
    → (AllHealthy r × (readyz g r order c ≡ g.json 200 (report_body (check r order)) c))
      ⊎ ((¬ AllHealthy r) × (readyz g r order c ≡ g.json 503 (report_body (check r order)) c))
unfolding readyz
readyz_lem g r order c finished =
    let (to, from) = (check_ready r order finished).0 in
    let answer =
      λ (b : Bool). g.json (if not b then 503 else 200) (report_body (check r order)) c in
    elim (Bool-cases (check r order).ready) [
      | inl ready ↦ inl (to ready, ap answer ready)
      | inr waiting ↦ inr (λ h. cc (from h, waiting), ap answer waiting)
    ]
