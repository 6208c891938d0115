-- ===== src/Nats/Durable.antt =====
-- The settlements of the durable consumer in messaging/nats/nats.go.
use idp_sdk.Common.{
  ◌++◌, ℕ, ◌+◌, ◌-◌, String, ◌≡◌, true, false, Option, none, some, List, [], ◌∷◌, GoError, ok, err,
}
use idp_sdk.Verdicts.{History, Verdict, succeeded, add_handled, add_settled}
use mathlib.Core.Bool.{false}
use idp_sdk.Nats.{
  stops, handles, returned, stopping, blocked, failed, Phase, Consumption, loop_started, Nats,
  ConsumerConfig, Handler, settled, loop_started,
}

-- The view of JetStream on a consumer: how the messages were handled and settled, and how many
-- consume loops run. A settlement is recorded where its call fails, too: the code made it.
pub record View (n : Nats) : Type 0 where
  pub history : History n.Message
  pub running : ℕ

pub record Settlements (n : Nats) (handler : Handler n) (view : n.World → View n) : Type 0 where
  pub looks_up :
      (js : n.JetStream) (name : String) (w : n.World) → view (n.stream js name w).1 ≡ view w
  pub makes :
      (s : n.Stream) (cfg : ConsumerConfig) (w : n.World)
      → view (n.create_or_update_consumer s cfg w).1 ≡ view w
  pub starts :
      (c : n.Consumer) (f : n.Message → n.World → n.World) (w : n.World) (cons : n.ConsumeContext)
      → (n.consume c f w).0 ≡ ok cons
      → view (n.consume c f w).1 ≡ record (view w) { running = (view w).running + 1 }
  pub fails :
      (c : n.Consumer) (f : n.Message → n.World → n.World) (w : n.World) (e : GoError)
      → (n.consume c f w).0 ≡ err e
      → view (n.consume c f w).1 ≡ view w
  pub stops :
      (cons : n.ConsumeContext) (w : n.World)
      → view (n.stop cons w) ≡ record (view w) { running = (view w).running - 1 }
  pub handles :
      (m : n.Message) (w : n.World)
      → view (handler m w).1
        ≡ record (view w) { history = add_handled (view w).history (m, succeeded (handler m w).0) }
  pub acks :
      (m : n.Message) (w : n.World)
      → view (n.ack m w).1 ≡ record (view w) { history = add_settled (view w).history (m, true) }
  pub naks :
      (m : n.Message) (w : n.World)
      → view (n.nak m w).1 ≡ record (view w) { history = add_settled (view w).history (m, false) }

module _ (n : Nats) (handler : Handler n) (view : n.World → View n)
    (t : Settlements n handler view) where
  -- The verdict of a message whose settlement is still to come.
  abbrev pub unsettled : Option (n.Message × Option GoError) → List (Verdict n.Message)
  unsettled none = []
  unsettled (some (m, o)) = (m, succeeded o) ∷ []

  -- More messages were handled and settled, each as it was handled, in their order; and at most one
  -- more was handled.
  abbrev pub settled_up_to :
      View n → List (Verdict n.Message) → Option (n.Message × Option GoError) → History n.Message
  settled_up_to v es o = record {
    handled = v.history.handled ++ (es ++ unsettled o);
    settled = v.history.settled ++ es;
  }

  -- The loops that run, where the call stands, and that its error is the context's.
  abbrev pub AtPhase :
      View n → Phase n → List (Verdict n.Message) → Option (n.Message × Option GoError) → ℕ → Type 0
  AtPhase v (failed e) es o loops = (es ≡ []) × (o ≡ none) × (loops ≡ v.running)
  AtPhase v (blocked cons) es o loops = loops ≡ v.running + 1
  AtPhase v (stopping cons e) es o loops =
      (loops ≡ v.running + 1) × ((u : n.World) × (e ≡ n.context_error u))
  AtPhase v (returned e) es o loops =
      (loops ≡ v.running) × ((u : n.World) × (e ≡ n.context_error u))

  -- What holds of a durable consumer that began in this view.
  pub record IsSound (v : View n) (s : Consumption n) : Type 0 where
    pub verdicts : List (Verdict n.Message)
    pub history : (view s.world).history ≡ settled_up_to v verdicts s.in_flight
    pub at_phase : AtPhase v s.phase verdicts s.in_flight (view s.world).running
