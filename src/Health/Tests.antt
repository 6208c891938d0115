-- ===== src/Health/Tests.antt =====
-- Runs of health/health.go, and its theorems at concrete inputs.
use idp_sdk.Common.{
  ℕ, zero, suc, ◌<◌, ◌≡◌, refl, ◌↔◌, true, none, some, List, [], ◌∷◌, map, pos, Memᴰ, arith, insert,
}
use idp_sdk.Common.Failure.{plain, error_text}
use idp_sdk.Gin.Plain.{Plain, request}
use idp_sdk.Health.{
  Registry, new_registry, register, run_checker, write_slot, run_goroutines, check,
}
use mathlib.Core.Quot
use mathlib.Core.List.Permᴰ
use idp_sdk.Health.{Result}
use idp_sdk.Health.Unordered.{Bag, check_unordered}
use idp_sdk.Health.Ready.{AllHealthy, check_ready}

-- The database answers; the broker has hung, and its check fails when the time is over.
abbrev registry : Registry
registry = record {
  checkers = ("postgres", λ _. none) ∷ ("nats", λ _. some (plain "context deadline exceeded")) ∷ [];
  timeout = pos 2_000_000_000;
}

registered :
    register "nats"
      (λ _. some (plain "context deadline exceeded"))
      (register "postgres" (λ _. none) (new_registry (pos 0)))
    ≡ registry
unfolding register new_registry insert
registered = refl

-- The second goroutine finishes first.
abbrev order : List ℕ
order = 1 ∷ 0 ∷ []

all_finished : (i : ℕ) → i < 2 → Memᴰ i order
all_finished zero h = Memᴰ.tail (Memᴰ.head refl)
all_finished (suc zero) h = Memᴰ.head refl
all_finished (suc (suc i)) h = absurd (omega arith)

report : (check registry order).results ≡ map (run_checker (pos 2_000_000_000)) registry.checkers
unfolding check run_goroutines write_slot run_checker error_text
report = refl

check_ready_example :
    (((check registry order).ready ≡ true) ↔ AllHealthy registry)
    × ((check registry order).results ≡ map (run_checker (pos 2_000_000_000)) registry.checkers)
check_ready_example = check_ready registry order all_finished

abbrev probe : Plain Unit
probe = request []

-- The registry with its checkers in the other order.
abbrev turned : Registry
turned = record {
  checkers = ("nats", λ _. some (plain "context deadline exceeded")) ∷ ("postgres", λ _. none) ∷ [];
  timeout = pos 2_000_000_000;
}

abbrev in_turn : List ℕ
in_turn = 0 ∷ 1 ∷ []

in_turn_finished : (i : ℕ) → i < 2 → Memᴰ i in_turn
in_turn_finished zero h = Memᴰ.head refl
in_turn_finished (suc zero) h = Memᴰ.tail (Memᴰ.head refl)
in_turn_finished (suc (suc i)) h = absurd (omega arith)

check_unordered_example :
    ((check registry order).ready ≡ (check turned in_turn).ready)
    × (◌≡◌ {A = Bag Result}
        (Quot.mk (check registry order).results)
        (Quot.mk (check turned in_turn).results))
check_unordered_example =
    check_unordered registry turned order in_turn refl (Permᴰ.swap refl refl) all_finished
      in_turn_finished
