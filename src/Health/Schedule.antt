-- ===== src/Health/Schedule.antt =====
-- The goroutines of `Check` of health/health.go, in whatever order they finish.
use idp_sdk.Common.{
  ℕ, zero, suc, ◌<◌, ◌≡◌, refl, ap, ◌∙◌, sym, String, List, [], ◌∷◌, map, ℤ, length, get_elem?,
  length-map, Memᴰ, arith,
}
use idp_sdk.Health.{Checker, Result, run_checker, empty_slots, write_slot, run_goroutines}

-- Two lists of one length with the same elements at all places are equal.
list_ext {ℓ} :
    {A : Type ℓ} (xs ys : List A)
    → length xs ≡ length ys
    → ((i : ℕ) → i < length xs → get_elem? xs i ≡ get_elem? ys i)
    → xs ≡ ys
list_ext [] [] n h = refl
list_ext [] (y ∷ ys) n h = absurd (omega arith)
list_ext (x ∷ xs) [] n h = absurd (omega arith)
list_ext (x ∷ xs) (y ∷ ys) n h =
    cc (h 0 (omega arith), list_ext xs ys (omega arith) (λ i below. h (suc i) (omega arith)))

module _ (timeout : ℤ) where
  length-write_slot :
      (cs : List (String × Checker)) (i : ℕ) (xs : List Result)
      → length (write_slot timeout cs i xs) ≡ length xs
  unfolding write_slot
  length-write_slot [] i xs = refl
  length-write_slot (c ∷ cs) i [] = refl
  length-write_slot (c ∷ cs) zero (x ∷ xs) = refl
  length-write_slot (c ∷ cs) (suc i) (x ∷ xs) = ap suc (length-write_slot cs i xs)

  length-run_goroutines :
      (cs : List (String × Checker)) (order : List ℕ) (xs : List Result)
      → length (run_goroutines timeout cs order xs) ≡ length xs
  unfolding run_goroutines
  length-run_goroutines cs [] xs = refl
  length-run_goroutines cs (i ∷ order) xs =
      length-run_goroutines cs order (write_slot timeout cs i xs) ∙ length-write_slot cs i xs

  -- The slot at `i` holds the result of the checker at `i`.
  abbrev Written : List (String × Checker) → ℕ → List Result → Type 0
  Written cs i xs = get_elem? xs i ≡ get_elem? (map (run_checker timeout) cs) i

  write_slot-Written :
      (cs : List (String × Checker)) (i : ℕ) (xs : List Result)
      → length xs ≡ length cs
      → Written cs i (write_slot timeout cs i xs)
  unfolding write_slot
  write_slot-Written [] i [] n = refl
  write_slot-Written [] i (x ∷ xs) n = absurd (omega arith)
  write_slot-Written (c ∷ cs) i [] n = absurd (omega arith)
  write_slot-Written (c ∷ cs) zero (x ∷ xs) n = refl
  write_slot-Written (c ∷ cs) (suc i) (x ∷ xs) n = write_slot-Written cs i xs (omega arith)

  -- No goroutine spoils a slot that is written.
  write_slot_keeps :
      (cs : List (String × Checker)) (j i : ℕ) (xs : List Result)
      → Written cs i xs
      → Written cs i (write_slot timeout cs j xs)
  unfolding write_slot
  write_slot_keeps [] j i xs w = w
  write_slot_keeps (c ∷ cs) j i [] w = w
  write_slot_keeps (c ∷ cs) zero zero (x ∷ xs) w = refl
  write_slot_keeps (c ∷ cs) zero (suc i) (x ∷ xs) w = w
  write_slot_keeps (c ∷ cs) (suc j) zero (x ∷ xs) w = w
  write_slot_keeps (c ∷ cs) (suc j) (suc i) (x ∷ xs) w = write_slot_keeps cs j i xs w

  run_goroutines_keep :
      (cs : List (String × Checker)) (order : List ℕ) (i : ℕ) (xs : List Result)
      → Written cs i xs
      → Written cs i (run_goroutines timeout cs order xs)
  unfolding run_goroutines
  run_goroutines_keep cs [] i xs w = w
  run_goroutines_keep cs (j ∷ order) i xs w =
      run_goroutines_keep cs order i (write_slot timeout cs j xs) (write_slot_keeps cs j i xs w)

  run_goroutines-Written :
      (cs : List (String × Checker)) (order : List ℕ) (i : ℕ) (xs : List Result)
      → length xs ≡ length cs
      → Memᴰ i order
      → Written cs i (run_goroutines timeout cs order xs)
  unfolding run_goroutines
  run_goroutines-Written cs [] i xs n m = elim m [ ]
  run_goroutines-Written cs (j ∷ order) i xs n (Memᴰ.head e) =
      run_goroutines_keep cs order i (write_slot timeout cs j xs)
        (rw e (write_slot-Written cs j xs n))
  run_goroutines-Written cs (j ∷ order) i xs n (Memᴰ.tail m) =
      run_goroutines-Written cs order i (write_slot timeout cs j xs) (length-write_slot cs j xs ∙ n)
        m

length-empty_slots : (cs : List (String × Checker)) → length (empty_slots cs) ≡ length cs
length-empty_slots [] = refl
length-empty_slots (c ∷ cs) = ap suc (length-empty_slots cs)

-- Once every goroutine has finished, the results are those of the checkers, one by one, whatever the
-- order in which the goroutines came to write their slots.
pub run_goroutines-eq-map :
    (timeout : ℤ) (cs : List (String × Checker)) (order : List ℕ)
    → ((i : ℕ) → i < length cs → Memᴰ i order)
    → run_goroutines timeout cs order (empty_slots cs) ≡ map (run_checker timeout) cs
run_goroutines-eq-map timeout cs order finished =
    let n = length-empty_slots cs in
    let m = length-run_goroutines timeout cs order (empty_slots cs) in
    list_ext (run_goroutines timeout cs order (empty_slots cs)) (map (run_checker timeout) cs)
      (m ∙ n ∙ sym (length-map (run_checker timeout) cs))
      (λ i below.
        run_goroutines-Written timeout cs order i (empty_slots cs) n
          (finished i (omega (arith, m, n))))
