-- ===== src/Rabbit/Loop.antt =====
-- The loop of messaging/rabbitmq/rabbitmq.go that reconnects, next to Close and to the network, as
-- a relation of steps. Each step is one access to what they share.
use idp_sdk.Common.{ℕ, ◌+◌, Bool, true, false}

-- Where `reconnectLoop` stands.
pub data Phase : Type 0 where
  -- it has read the connection and not yet asked for its notification
  entering : Phase
  watching : Phase
  -- the notification has arrived: with an error, or closed without one
  told_error : Phase
  told_nil : Phase
  -- in the `select` with the delay
  waiting : Phase
  -- in `connect`, before and after the broker's answer, with the state of the new connection
  dialing : Phase
  dialled : (live : Bool) → Phase
  stopped : Phase

-- How far `Close` is: not called; the channel closed; the connection closed too.
pub data Closing : Type 0 where
  running : Closing
  signalled : Closing
  closed : Closing

pub record State : Type 0 where
  pub phase : Phase
  -- whether the connection that the client holds is open
  pub live : Bool
  pub closing : Closing
  -- the connections that are open and that nothing holds any more
  pub lost : ℕ

abbrev pub one_if : Bool → ℕ
one_if true = 1
one_if false = 0

-- The network takes away a connection, or Close closes it: the notification that the loop gets.
abbrev pub told : Phase → Phase → Phase
told news watching = news
told news phase = phase

-- After `New` has connected and started the loop.
abbrev pub started : State
started = record { phase = entering; live = true; closing = running; lost = 0 }

-- The phases with a `select` on the channel that Close closes.
pub data Selects : Phase → Type 0 where
  on_watching : Selects watching
  on_error : Selects told_error
  on_nil : Selects told_nil
  on_waiting : Selects waiting

-- The channel is closed.
pub data Signals : Closing → Type 0 where
  by_signal : Signals signalled
  by_close : Signals closed

pub data Step : State → State → Type 0 where
  -- the connection that is held breaks; so does one that is not held yet
  breaks :
      {ph : Phase} {c : Closing} {n : ℕ}
      → Step
          (record { phase = ph; live = true; closing = c; lost = n })
          (record { phase = told told_error ph; live = false; closing = c; lost = n })
  breaks_dialled :
      {l : Bool} {c : Closing} {n : ℕ}
      → Step
          (record { phase = dialled true; live = l; closing = c; lost = n })
          (record { phase = dialled false; live = l; closing = c; lost = n })
  -- `NotifyClose`: the library closes the channel at once where the connection is closed already
  registers :
      {c : Closing} {n : ℕ}
      → Step
          (record { phase = entering; live = true; closing = c; lost = n })
          (record { phase = watching; live = true; closing = c; lost = n })
  registers_late :
      {c : Closing} {n : ℕ}
      → Step
          (record { phase = entering; live = false; closing = c; lost = n })
          (record { phase = told_nil; live = false; closing = c; lost = n })
  -- the notification wins the first `select`
  hears_error :
      {l : Bool} {c : Closing} {n : ℕ}
      → Step
          (record { phase = told_error; live = l; closing = c; lost = n })
          (record { phase = waiting; live = l; closing = c; lost = n })
  hears_nil :
      {l : Bool} {c : Closing} {n : ℕ}
      → Step
          (record { phase = told_nil; live = l; closing = c; lost = n })
          (record { phase = stopped; live = l; closing = c; lost = n })
  -- the closed channel wins a `select`
  stops :
      {ph : Phase} {l : Bool} {c : Closing} {n : ℕ}
      → Selects ph
      → Signals c
      → Step
          (record { phase = ph; live = l; closing = c; lost = n })
          (record { phase = stopped; live = l; closing = c; lost = n })
  delay_passes :
      {l : Bool} {c : Closing} {n : ℕ}
      → Step
          (record { phase = waiting; live = l; closing = c; lost = n })
          (record { phase = dialing; live = l; closing = c; lost = n })
  dial_fails :
      {l : Bool} {c : Closing} {n : ℕ}
      → Step
          (record { phase = dialing; live = l; closing = c; lost = n })
          (record { phase = waiting; live = l; closing = c; lost = n })
  dials :
      {l : Bool} {c : Closing} {n : ℕ}
      → Step
          (record { phase = dialing; live = l; closing = c; lost = n })
          (record { phase = dialled true; live = l; closing = c; lost = n })
  -- `c.conn, c.ch = conn, ch`
  stores :
      {new l : Bool} {c : Closing} {n : ℕ}
      → Step
          (record { phase = dialled new; live = l; closing = c; lost = n })
          (record { phase = entering; live = new; closing = c; lost = n + one_if l })
  signals :
      {ph : Phase} {l : Bool} {n : ℕ}
      → Step
          (record { phase = ph; live = l; closing = running; lost = n })
          (record { phase = ph; live = l; closing = signalled; lost = n })
  closes :
      {ph : Phase} {l : Bool} {n : ℕ}
      → Step
          (record { phase = ph; live = l; closing = signalled; lost = n })
          (record { phase = told told_nil ph; live = false; closing = closed; lost = n })

-- Any number of steps.
pub data Steps (s : State) : State → Type 0 where
  here : Steps s s
  after : {t u : State} → Steps s t → Step t u → Steps s u
