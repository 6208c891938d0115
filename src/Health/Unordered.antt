-- ===== src/Health/Unordered.antt =====
-- The report of health/health.go, without the order of the registry's checkers: Go ranges over their
-- map in an order of its own.
use idp_sdk.Common.{
  not, ℕ, ◌<◌, ◌≡◌, refl, sym, ap, ◌∙◌, String, Bool, true, false, List, map, ℤ, length, Memᴰ, ◌==◌,
  if◌then◌else◌,
}
use mathlib.Core.Bool.{Bool-set}
use mathlib.Core.List.{Permᴰ}
use mathlib.Core.List.Permᴰ
use mathlib.Core.Quot
use mathlib.Core.Quot.{Quot, Quot-set}
use idp_sdk.Health.{Checker, Registry, Result, run_checker, all_ok, check}
use idp_sdk.Health.Schedule.{run_goroutines-eq-map}

-- A list whose order is forgotten.
abbrev pub Bag : Type 0 → Type 0
Bag A = Quot {α = List A} Permᴰ

swapped :
    (a b rest : Bool)
    → (if not a then false else (if not b then false else rest))
      ≡ (if not b then false else (if not a then false else rest))
swapped true true rest = refl
swapped true false rest = refl
swapped false true rest = refl
swapped false false rest = refl

pub all_ok-Permᴰ : {xs ys : List Result} → Permᴰ xs ys → all_ok xs ≡ all_ok ys
unfolding all_ok
all_ok-Permᴰ Permᴰ.nil = refl
all_ok-Permᴰ (Permᴰ.cons {a} {b} {l₁} {l₂} e p) = rw (e, all_ok-Permᴰ p) refl
all_ok-Permᴰ (Permᴰ.swap {a} {b} {a'} {b'} {l} e e') =
    rw (e, e') (swapped (b'.status == "ok") (a'.status == "ok") (all_ok l))
all_ok-Permᴰ (Permᴰ.trans p q) = all_ok-Permᴰ p ∙ all_ok-Permᴰ q

-- The readiness and the results of a bag of checkers.
unfoldable pub readiness : ℤ → Bag (String × Checker) → Bool
readiness timeout =
    Quot.lift Bool-set (λ cs. all_ok (map (run_checker timeout) cs))
      (λ cs ds p. all_ok-Permᴰ (Permᴰ.map (run_checker timeout) p))

unfoldable pub results_of : ℤ → Bag (String × Checker) → Bag Result
results_of timeout =
    Quot.lift Quot-set (λ cs. Quot.mk (map (run_checker timeout) cs))
      (λ cs ds p. Quot.sound (Permᴰ.map (run_checker timeout) p))

-- The report is that of the bag of the checkers.
check-readiness :
    (r : Registry) (order : List ℕ)
    → ((i : ℕ) → i < length r.checkers → Memᴰ i order)
    → ((check r order).ready ≡ readiness r.timeout (Quot.mk r.checkers))
      × (◌≡◌ {A = Bag Result}
          (Quot.mk (check r order).results)
          (results_of r.timeout (Quot.mk r.checkers)))
unfolding check readiness results_of
check-readiness r order finished =
    let e = run_goroutines-eq-map r.timeout r.checkers order finished in
    (ap all_ok e, ap (λ xs. Quot.mk xs) e)

-- The order in which Go ranges over the checkers, and that in which their goroutines finish, do not
-- matter: two probes of the same checkers, held in any two orders and with all goroutines finished in
-- any two orders, agree on whether the service is ready, and have the same results but for their
-- order.
pub check_unordered :
    (r s : Registry) (order order' : List ℕ)
    → r.timeout ≡ s.timeout
    → Permᴰ r.checkers s.checkers
    → ((i : ℕ) → i < length r.checkers → Memᴰ i order)
    → ((i : ℕ) → i < length s.checkers → Memᴰ i order')
    → ((check r order).ready ≡ (check s order').ready)
      × (◌≡◌ {A = Bag Result} (Quot.mk (check r order).results) (Quot.mk (check s order').results))
check_unordered r s order order' timeouts perm finished finished' =
    let (ready, results) = check-readiness r order finished in
    let (ready', results') = check-readiness s order' finished' in
    let bags = Quot.sound perm in
    (
      ready
          ∙ ap (λ b. readiness r.timeout b) bags
          ∙ ap (λ d. readiness d (Quot.mk s.checkers)) timeouts
          ∙ sym ready',
      results
          ∙ ap (λ b. results_of r.timeout b) bags
          ∙ ap (λ d. results_of d (Quot.mk s.checkers)) timeouts
          ∙ sym results',
    )
