-- ===== src/Server/Shutdown.antt =====
-- What holds of every run of `Run` in server/server.go, and that its shutdown ends.
use idp_sdk.Common.{ℕ, suc, ◌+◌, ◌≤◌, ◌≡◌, ◌≢◌, refl, ap, ◌⊎◌, inl, inr, Bool, true, false, arith}
use mathlib.Core.Path.{subst}
use idp_sdk.Server.Life.{
  Listener, accepting, failed, shut, Outcome, listen_error, shutdown_error, clean, Phase, selecting,
  draining, returned, State, started, closed, Step, accepts, answers, fails, signals, takes_error,
  takes_signal, drained, times_out, Steps, here, after,
}

-- What each way to return means.
abbrev pub Meant : Outcome → Listener → Bool → ℕ → Type 0
Meant listen_error l signalled n = l ≡ failed
Meant shutdown_error l signalled n = (l ≢ accepting) × (signalled ≡ true)
Meant clean l signalled n = (l ≢ accepting) × (signalled ≡ true) × (n ≡ 0)

abbrev pub Allowed : Phase → Listener → Bool → ℕ → Type 0
Allowed selecting l signalled n = Unit {0}
Allowed draining l signalled n = (l ≢ accepting) × (signalled ≡ true)
Allowed (returned o) l signalled n = Meant o l signalled n

abbrev pub IsOrderly : State → Type 0
IsOrderly s = Allowed s.phase s.listener s.signalled s.in_flight

accepted :
    (ph : Phase) (b : Bool) (n : ℕ) → Allowed ph accepting b n → Allowed ph accepting b (suc n)
accepted selecting b n h = tt
accepted draining b n h = h
accepted (returned listen_error) b n h = h
accepted (returned shutdown_error) b n h = h
accepted (returned clean) b n h = absurd (h.0 refl)

answered :
    (ph : Phase) (l : Listener) (b : Bool) (n : ℕ) → Allowed ph l b (suc n) → Allowed ph l b n
answered selecting l b n h = tt
answered draining l b n h = h
answered (returned listen_error) l b n h = h
answered (returned shutdown_error) l b n h = h
answered (returned clean) l b n h = absurd (omega (arith, h.2))

broken : (ph : Phase) (b : Bool) (n : ℕ) → Allowed ph accepting b n → Allowed ph failed b n
broken selecting b n h = tt
broken draining b n h = absurd (h.0 refl)
broken (returned listen_error) b n h = refl
broken (returned shutdown_error) b n h = absurd (h.0 refl)
broken (returned clean) b n h = absurd (h.0 refl)

told : (ph : Phase) (l : Listener) (n : ℕ) → Allowed ph l false n → Allowed ph l true n
told selecting l n h = tt
told draining l n h = (h.0, refl)
told (returned listen_error) l n h = h
told (returned shutdown_error) l n h = (h.0, refl)
told (returned clean) l n h = (h.0, refl, h.2)

closed-ne-accepting : (l : Listener) → closed l ≢ accepting
closed-ne-accepting accepting h = cc
closed-ne-accepting failed h = cc
closed-ne-accepting shut h = cc

Step-IsOrderly : {s t : State} → Step s t → IsOrderly s → IsOrderly t
Step-IsOrderly (accepts {ph} {b} {n}) h = accepted ph b n h
Step-IsOrderly (answers {l} {ph} {b} {n}) h = answered ph l b n h
Step-IsOrderly (fails {ph} {b} {n}) h = broken ph b n h
Step-IsOrderly (signals {l} {ph} {n}) h = told ph l n h
Step-IsOrderly takes_error h = refl
Step-IsOrderly (takes_signal {l}) h = (closed-ne-accepting l, refl)
Step-IsOrderly drained h = (h.0, h.1, refl)
Step-IsOrderly times_out h = h

-- However requests, the listener, the signals and the timer interleave: once Run drains, no listener
-- accepts; it returns the error of the listener only if there was one; and it returns nil only after a
-- signal, with no listener accepting and no request in flight.
pub started-IsOrderly : (s : State) (k : ℕ) → Steps started k s → IsOrderly s
started-IsOrderly s k here = tt
started-IsOrderly s k (after {t} before step) = Step-IsOrderly step (started-IsOrderly t _ before)

-- Run has left its `select`, and no listener accepts.
abbrev Closed : State → Type 0
Closed s = (s.listener ≢ accepting) × (s.phase ≢ selecting)

abbrev unreturned : Phase → ℕ
unreturned (returned o) = 0
unreturned ph = 1

abbrev unsignalled : Bool → ℕ
unsignalled true = 0
unsignalled false = 1

abbrev measure : State → ℕ
measure s = s.in_flight + unreturned s.phase + unsignalled s.signalled

Step-Closed : {s t : State} → Step s t → Closed s → Closed t × (measure t + 1 ≡ measure s)
Step-Closed accepts (l, ph) = absurd (l refl)
Step-Closed answers c = (c, omega arith)
Step-Closed fails (l, ph) = absurd (l refl)
Step-Closed signals c = (c, omega arith)
Step-Closed takes_error (l, ph) = absurd (ph refl)
Step-Closed takes_signal (l, ph) = absurd (ph refl)
Step-Closed drained (l, ph) = ((l, λ h. cc), omega arith)
Step-Closed times_out (l, ph) = ((l, λ h. cc), omega arith)

Steps-Closed :
    (s t : State) (k : ℕ) → Steps s k t → Closed s → Closed t × (measure t + k ≡ measure s)
Steps-Closed s t k here c = (c, omega arith)
Steps-Closed s u k (after {t} before step) c =
    let (there, spent) = Steps-Closed s t _ before c in
    let (still, one) = Step-Closed step there in (still, omega (arith, spent, one))

-- A run behind the `select` can go on until it has returned.
goes_on :
    (l : Listener) (ph : Phase) (b : Bool) (n : ℕ)
    → ph ≢ selecting
    → ((o : Outcome) × (ph ≡ returned o))
      ⊎ ((u : State) × Step (record { listener = l; phase = ph; signalled = b; in_flight = n }) u)
goes_on l selecting b n h = absurd (h refl)
goes_on l draining b n h = inr (_, times_out)
goes_on l (returned o) b n h = inl (o, refl)

draining-Closed : (s : State) → IsOrderly s → s.phase ≡ draining → Closed s × (s.signalled ≡ true)
draining-Closed s h e =
    let (l, signalled) = subst (λ ph. Allowed ph s.listener s.signalled s.in_flight) e h in
    ((l, λ q. cc), signalled)

-- Once Run drains, it makes at most one step more than there are requests in flight, whatever the
-- schedule, and it is never stuck before it has returned: so it returns.
pub shutdown_ends :
    (s t : State) (j k : ℕ)
    → Steps started j s
    → s.phase ≡ draining
    → Steps s k t
    → (k ≤ s.in_flight + 1) × (((o : Outcome) × (t.phase ≡ returned o)) ⊎ ((u : State) × Step t u))
shutdown_ends s t j k before e later =
    let (shut_down, signalled) = draining-Closed s (started-IsOrderly s j before) e in
    let (still, spent) = Steps-Closed s t k later shut_down in
    let running : unreturned s.phase ≡ 1 = ap unreturned e in
    let called : unsignalled s.signalled ≡ 0 = ap unsignalled signalled in
    (
      omega (arith, spent, running, called),
      goes_on t.listener t.phase t.signalled t.in_flight still.1,
    )
