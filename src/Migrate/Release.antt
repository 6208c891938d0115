-- ===== src/Migrate/Release.antt =====
-- What Up, Down and Version of migrate/migrate.go report, and that they release what they open.
use idp_sdk.Common.{
  ◌⊎◌, eq_iff, ℕ, String, ◌+◌, ◌<◌, ◌≡◌, ◌↔◌, inl, inr, refl, true, Option, none, some, arith,
  GoError, Result, ok, err, ◌==◌, Bool-cases,
}
use idp_sdk.Common.Failure.{is_variable}
use idp_sdk.Migrate.{
  Migrations, settle, new_migrator, up_with, down_with, version_with, up, down, version,
  driver_postgres, driver_click_house,
}

-- What golang-migrate documents of its migrators, by the number that are open.
pub record Tracks (m : Migrations) (live : m.World → ℕ) : Type 0 where
  pub opens :
      (url dsn : String) (w : m.World) (mg : m.Migrator)
      → (m.new url dsn w).0 ≡ ok mg
      → live (m.new url dsn w).1 ≡ live w + 1
  pub fails :
      (url dsn : String) (w : m.World) (e : GoError)
      → (m.new url dsn w).0 ≡ err e
      → live (m.new url dsn w).1 ≡ live w
  pub ups : (mg : m.Migrator) (w : m.World) → live (m.up mg w).1 ≡ live w
  pub downs : (mg : m.Migrator) (w : m.World) → live (m.down mg w).1 ≡ live w
  pub versions : (mg : m.Migrator) (w : m.World) → live (m.version mg w).1 ≡ live w
  pub closes : (mg : m.Migrator) (w : m.World) → 0 < live w → live (m.close mg w) + 1 ≡ live w

module _ (m : Migrations) (live : m.World → ℕ) (t : Tracks m live) where
  -- How the number of open migrators moves when one is asked for.
  abbrev Opened : ℕ → Result m.Migrator × m.World → Type 0
  Opened n (ok mg, w) = live w ≡ n + 1
  Opened n (err e, w) = live w ≡ n

  new_cases :
      (n : ℕ) (p : Result m.Migrator × m.World)
      → ((mg : m.Migrator) → p.0 ≡ ok mg → live p.1 ≡ n + 1)
      → ((e : GoError) → p.0 ≡ err e → live p.1 ≡ n)
      → Opened n p
  new_cases n (ok mg, w) opens fails = opens mg refl
  new_cases n (err e, w) opens fails = fails e refl

  new-Opened : (url dsn : String) (w : m.World) → Opened (live w) (m.new url dsn w)
  new-Opened url dsn w =
      new_cases (live w) (m.new url dsn w) (t.opens url dsn w) (t.fails url dsn w)

  new_migrator-Opened :
      (driver source_dir dsn : String) (w : m.World)
      → Opened (live w) (new_migrator m driver source_dir dsn w)
  unfolding new_migrator
  new_migrator-Opened driver source_dir dsn w = elim (Bool-cases (driver == driver_postgres)) [
    | inl pg ↦ rw pg (new-Opened _ _ w)
    | inr not_pg ↦ elim (Bool-cases (driver == driver_click_house)) [
      | inl ch ↦ rw (not_pg, ch) (new-Opened _ _ w)
      | inr neither ↦ rw (not_pg, neither) refl
    ]
  ]

  up_with-live : (n : ℕ) (p : Result m.Migrator × m.World) → Opened n p → live (up_with m p).1 ≡ n
  up_with-live n (ok mg, w) o = omega (arith, t.ups mg w, t.closes mg (m.up mg w).1)
  up_with-live n (err e, w) o = o

  down_with-live :
      (n : ℕ) (p : Result m.Migrator × m.World) → Opened n p → live (down_with m p).1 ≡ n
  down_with-live n (ok mg, w) o = omega (arith, t.downs mg w, t.closes mg (m.down mg w).1)
  down_with-live n (err e, w) o = o

  version_with-live :
      (n : ℕ) (p : Result m.Migrator × m.World) → Opened n p → live (version_with m p).1 ≡ n
  version_with-live n (ok mg, w) o = omega (arith, t.versions mg w, t.closes mg (m.version mg w).1)
  version_with-live n (err e, w) o = o

  -- Given that the library's calls count open migrators as documented, Up, Down and Version leave
  -- as many open as there were, whether they succeed or fail, and at whatever step.
  pub releases :
      (driver source_dir dsn : String) (w : m.World)
      → (live (up m driver source_dir dsn w).1 ≡ live w)
        × (live (down m driver source_dir dsn w).1 ≡ live w)
        × (live (version m driver source_dir dsn w).1 ≡ live w)
  unfolding up down version
  releases driver source_dir dsn w =
      let o = new_migrator-Opened driver source_dir dsn w in
      let p = new_migrator m driver source_dir dsn w in
      (up_with-live (live w) p o, down_with-live (live w) p o, version_with-live (live w) p o)

-- What makes `m.Up` or `m.Down` count as done: no error, or "no change".
abbrev pub Harmless : Option GoError → Type 0
Harmless none = Unit
Harmless (some e) = is_variable "migrate.ErrNoChange" e ≡ true

module _ (m : Migrations) where
  -- The run got a migrator from `p`, and the library's call on it was harmless.
  abbrev pub Applied :
      (m.Migrator → m.World → Option GoError × m.World) → Result m.Migrator × m.World → Type 0
  Applied call (ok mg, w) = Harmless (call mg w).0
  Applied call (err e, w) = ⊥

  settle_iff : (prefix : String) (o : Option GoError) → (settle m prefix o ≡ none) ↔ Harmless o
  settle_iff prefix none = (λ _. tt, λ _. refl)
  settle_iff prefix (some e) = (λ h. ground arith, λ h. ground arith)

  up_with_iff : (p : Result m.Migrator × m.World) → ((up_with m p).0 ≡ none) ↔ Applied m.up p
  up_with_iff (ok mg, w) = settle_iff "migrate: up: " (m.up mg w).0
  up_with_iff (err e, w) = (λ h. cc, λ h. absurd h)

  down_with_iff : (p : Result m.Migrator × m.World) → ((down_with m p).0 ≡ none) ↔ Applied m.down p
  down_with_iff (ok mg, w) = settle_iff "migrate: down: " (m.down mg w).0
  down_with_iff (err e, w) = (λ h. cc, λ h. absurd h)

  unknown_driver :
      (driver source_dir dsn : String) (w : m.World)
      → (driver ≡ driver_postgres)
        ⊎ (driver ≡ driver_click_house)
        ⊎ ((up_with m (new_migrator m driver source_dir dsn w)).1 ≡ w)
          × ((down_with m (new_migrator m driver source_dir dsn w)).1 ≡ w)
  unfolding new_migrator
  unknown_driver driver source_dir dsn w = elim (Bool-cases (driver == driver_postgres)) [
    | inl pg ↦ inl ((eq_iff driver driver_postgres).0 pg)
    | inr not_pg ↦ elim (Bool-cases (driver == driver_click_house)) [
      | inl ch ↦ inr (inl ((eq_iff driver driver_click_house).0 ch))
      | inr neither ↦ inr (inr (rw (not_pg, neither) (refl, refl)))
    ]
  ]

  -- Up and Down succeed exactly when a migrator could be opened and the library's call on it
  -- returned no error or "no change"; under an unknown driver nothing is called.
  pub up_down_iff :
      (driver source_dir dsn : String) (w : m.World)
      → (((up m driver source_dir dsn w).0 ≡ none)
          ↔ Applied m.up (new_migrator m driver source_dir dsn w))
        × (((down m driver source_dir dsn w).0 ≡ none)
            ↔ Applied m.down (new_migrator m driver source_dir dsn w))
        × ((driver ≡ driver_postgres)
            ⊎ (driver ≡ driver_click_house)
            ⊎ ((up m driver source_dir dsn w).1 ≡ w) × ((down m driver source_dir dsn w).1 ≡ w))
  unfolding up down
  up_down_iff driver source_dir dsn w = (
    up_with_iff (new_migrator m driver source_dir dsn w),
    down_with_iff (new_migrator m driver source_dir dsn w),
    unknown_driver driver source_dir dsn w,
  )
