-- ===== src/Server/Life.antt =====
-- `Run` of server/server.go, next to its clients, the signals and the timer, as a relation of steps.
use idp_sdk.Common.{ℕ, zero, suc, Bool, true, false}

-- The goroutine in `ListenAndServe`: it accepts; or its error is in the channel; or it was told
-- `http.ErrServerClosed` and sent nothing.
pub data Listener : Type 0 where
  accepting : Listener
  failed : Listener
  shut : Listener

pub data Outcome : Type 0 where
  listen_error : Outcome
  shutdown_error : Outcome
  clean : Outcome

-- `Run`: in its `select`, in `Shutdown`, or behind it.
pub data Phase : Type 0 where
  selecting : Phase
  draining : Phase
  returned : Outcome → Phase

pub record State : Type 0 where
  pub listener : Listener
  pub phase : Phase
  -- whether SIGTERM, SIGINT or the end of the context has come
  pub signalled : Bool
  pub in_flight : ℕ

abbrev pub started : State
started = record { listener = accepting; phase = selecting; signalled = false; in_flight = 0 }

-- `Shutdown` closes the listeners first. An error that is in the channel stays there.
abbrev pub closed : Listener → Listener
closed accepting = shut
closed failed = failed
closed shut = shut

pub data Step : State → State → Type 0 where
  accepts :
      {ph : Phase} {b : Bool} {n : ℕ}
      → Step
          (record { listener = accepting; phase = ph; signalled = b; in_flight = n })
          (record { listener = accepting; phase = ph; signalled = b; in_flight = suc n })
  answers :
      {l : Listener} {ph : Phase} {b : Bool} {n : ℕ}
      → Step
          (record { listener = l; phase = ph; signalled = b; in_flight = suc n })
          (record { listener = l; phase = ph; signalled = b; in_flight = n })
  fails :
      {ph : Phase} {b : Bool} {n : ℕ}
      → Step
          (record { listener = accepting; phase = ph; signalled = b; in_flight = n })
          (record { listener = failed; phase = ph; signalled = b; in_flight = n })
  signals :
      {l : Listener} {ph : Phase} {n : ℕ}
      → Step
          (record { listener = l; phase = ph; signalled = false; in_flight = n })
          (record { listener = l; phase = ph; signalled = true; in_flight = n })
  -- the two cases of the `select`
  takes_error :
      {b : Bool} {n : ℕ}
      → Step
          (record { listener = failed; phase = selecting; signalled = b; in_flight = n })
          (record {
            listener = failed;
            phase = returned listen_error;
            signalled = b;
            in_flight = n;
          })
  takes_signal :
      {l : Listener} {n : ℕ}
      → Step
          (record { listener = l; phase = selecting; signalled = true; in_flight = n })
          (record { listener = closed l; phase = draining; signalled = true; in_flight = n })
  drained :
      {l : Listener} {b : Bool}
      → Step
          (record { listener = l; phase = draining; signalled = b; in_flight = zero })
          (record { listener = l; phase = returned clean; signalled = b; in_flight = zero })
  times_out :
      {l : Listener} {b : Bool} {n : ℕ}
      → Step
          (record { listener = l; phase = draining; signalled = b; in_flight = n })
          (record { listener = l; phase = returned shutdown_error; signalled = b; in_flight = n })

-- So many steps.
pub data Steps (s : State) : ℕ → State → Type 0 where
  here : Steps s zero s
  after : {k : ℕ} {t u : State} → Steps s k t → Step t u → Steps s (suc k) u
