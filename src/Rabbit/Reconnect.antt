-- ===== src/Rabbit/Reconnect.antt =====
-- What holds at every moment of the loop of messaging/rabbitmq/rabbitmq.go.
use idp_sdk.Common.{◌≡◌, refl, ◌∙◌, ◌⊎◌, inl, inr, Bool, true, false, arith}
use idp_sdk.Rabbit.Loop.{
  Phase, entering, watching, told_error, told_nil, waiting, dialing, dialled, stopped, Closing,
  running, signalled, closed, State, told, started, Signals, by_signal, by_close, Step, breaks,
  breaks_dialled, registers, registers_late, hears_error, hears_nil, stops, delay_passes,
  dial_fails, dials, stores, signals, closes, Steps, here, after,
}

-- Whether the connection that is held can be open where the loop and Close stand.
abbrev pub Allowed : Phase → Closing → Bool → Type 0
Allowed entering c live = Unit {0}
Allowed watching c live = live ≡ true
Allowed told_error c live = live ≡ false
Allowed told_nil c live = live ≡ false
Allowed waiting c live = live ≡ false
Allowed dialing c live = live ≡ false
Allowed (dialled new) c live = live ≡ false
Allowed stopped running live = live ≡ false
Allowed stopped signalled live = Unit {0}
Allowed stopped closed live = Unit {0}

pub record IsSound (s : State) : Type 0 where
  pub none_lost : s.lost ≡ 0
  pub allowed : Allowed s.phase s.closing s.live

broken : (ph : Phase) (c : Closing) → Allowed ph c true → Allowed (told told_error ph) c false
broken entering c h = tt
broken watching c h = refl
broken told_error c h = refl
broken told_nil c h = refl
broken waiting c h = refl
broken dialing c h = refl
broken (dialled new) c h = refl
broken stopped running h = refl
broken stopped signalled h = tt
broken stopped closed h = tt

shut : (ph : Phase) → Allowed (told told_nil ph) closed false
shut entering = tt
shut watching = refl
shut told_error = refl
shut told_nil = refl
shut waiting = refl
shut dialing = refl
shut (dialled new) = refl
shut stopped = tt

signalled-Allowed : (ph : Phase) (l : Bool) → Allowed ph running l → Allowed ph signalled l
signalled-Allowed stopped l h = tt
signalled-Allowed entering l h = h
signalled-Allowed watching l h = h
signalled-Allowed told_error l h = h
signalled-Allowed told_nil l h = h
signalled-Allowed waiting l h = h
signalled-Allowed dialing l h = h
signalled-Allowed (dialled new) l h = h

stopped-Allowed : (c : Closing) (l : Bool) → l ≡ false → Allowed stopped c l
stopped-Allowed running l h = h
stopped-Allowed signalled l h = tt
stopped-Allowed closed l h = tt

Signals-Allowed : {c : Closing} (l : Bool) → Signals c → Allowed stopped c l
Signals-Allowed l by_signal = tt
Signals-Allowed l by_close = tt

Step-IsSound : {s t : State} → Step s t → IsSound s → IsSound t
Step-IsSound (breaks {ph} {c}) h = record {
  none_lost = h.none_lost;
  allowed = broken ph c h.allowed;
}
Step-IsSound breaks_dialled h = record { none_lost = h.none_lost; allowed = h.allowed }
Step-IsSound registers h = record { none_lost = h.none_lost; allowed = refl }
Step-IsSound registers_late h = record { none_lost = h.none_lost; allowed = refl }
Step-IsSound hears_error h = record { none_lost = h.none_lost; allowed = h.allowed }
Step-IsSound (hears_nil {l} {c}) h = record {
  none_lost = h.none_lost;
  allowed = stopped-Allowed c l h.allowed;
}
Step-IsSound (stops {l} on s) h = record { none_lost = h.none_lost; allowed = Signals-Allowed l s }
Step-IsSound delay_passes h = record { none_lost = h.none_lost; allowed = h.allowed }
Step-IsSound dial_fails h = record { none_lost = h.none_lost; allowed = h.allowed }
Step-IsSound dials h = record { none_lost = h.none_lost; allowed = h.allowed }
Step-IsSound (stores {new} {l} {c} {n}) h = record {
  none_lost = rw h.allowed (omega (arith, h.none_lost));
  allowed = tt;
}
Step-IsSound (signals {ph} {l}) h = record {
  none_lost = h.none_lost;
  allowed = signalled-Allowed ph l h.allowed;
}
Step-IsSound (closes {ph}) h = record { none_lost = h.none_lost; allowed = shut ph }

-- However the loop, Close and the network interleave, no connection is ever open that nothing holds.
-- The connection that the client holds is open while the loop watches it; it is closed from the
-- notification until the next one is stored, and where the loop has stopped without Close.
pub started-IsSound : (s : State) → Steps started s → IsSound s
started-IsSound s here = record { none_lost = refl; allowed = tt }
started-IsSound s (after {t} before step) = Step-IsSound step (started-IsSound t before)

stopped-Step :
    {s t : State}
    → Step s t
    → s.phase ≡ stopped
    → (t.phase ≡ stopped) × ((t.live ≡ s.live) ⊎ (t.live ≡ false))
stopped-Step (breaks {ph}) h = (rw h refl, inr refl)
stopped-Step breaks_dialled h = cc
stopped-Step registers h = cc
stopped-Step registers_late h = cc
stopped-Step hears_error h = cc
stopped-Step hears_nil h = cc
stopped-Step (stops on s) h = (refl, inl refl)
stopped-Step delay_passes h = cc
stopped-Step dial_fails h = cc
stopped-Step dials h = cc
stopped-Step stores h = cc
stopped-Step signals h = (h, inl refl)
stopped-Step (closes {ph}) h = (rw h refl, inr refl)

stopped-Steps :
    (s t : State)
    → Steps s t
    → s.phase ≡ stopped
    → s.live ≡ false
    → (t.phase ≡ stopped) × (t.live ≡ false)
stopped-Steps s t here h l = (h, l)
stopped-Steps s v (after {t} before step) h l =
    let (still, dead) = stopped-Steps s t before h l in
    let (stays, live) = stopped-Step step still in (stays, either t.live v.live live dead)
  where
    either : (old new : Bool) → (new ≡ old) ⊎ (new ≡ false) → old ≡ false → new ≡ false
    either old new (inl e) d = e ∙ d
    either old new (inr e) d = e

dead_early : (s : State) → IsSound s → s.phase ≡ stopped → s.closing ≡ running → s.live ≡ false
dead_early s h p c = rw (p, c) at (h.allowed)

-- A loop that stopped before Close was called has left a closed connection, and no connection is open
-- ever after, whatever happens: the client does not reconnect again.
pub stopped_early :
    (s t : State)
    → Steps started s
    → s.phase ≡ stopped
    → s.closing ≡ running
    → Steps s t
    → (t.phase ≡ stopped) × (t.live ≡ false)
stopped_early s t before p c later =
    stopped-Steps s t later p (dead_early s (started-IsSound s before) p c)
