-- ===== src/Rabbit/Deliveries.antt =====
-- The settlements of the consumer in messaging/rabbitmq/rabbitmq.go.
use idp_sdk.Common.{
  String, ◌≡◌, refl, sym, ap, ◌∙◌, Bool, true, false, not, Option, none, some, List, [], ◌∷◌,
  GoError, Result, ok, err,
}
use mathlib.Core.Bool.{false}
use idp_sdk.Verdicts.{
  History, succeeded, behind, Settles, Settles-none, Settles-more, add_handled, add_settled,
}
use idp_sdk.Rabbit.{Config, Amqp, Held}
use idp_sdk.Rabbit.Consumer.{
  ConsumeConfig, QueueOptions, queue_options, Queues, Event, cancelled, channel_closed, delivery,
  Handler, settle, consume_events, consuming, bound, with_queue, consume,
}

-- The calls on the history: the handler adds to it what it returned, the settlements what they told
-- the broker, whether their calls fail or not, and the others nothing.
pub record Recorded (q : Amqp) (n : Queues q) (handler : Handler q n)
    (view : q.World → History n.Delivery) : Type 0 where
  pub same_declare :
      (ch : q.Channel) (name : String) (o : QueueOptions) (w : q.World)
      → view (n.queue_declare ch name o w).1 ≡ view w
  pub same_bind :
      (ch : q.Channel) (name key exchange : String) (w : q.World)
      → view (n.queue_bind ch name key exchange w).1 ≡ view w
  pub same_consume :
      (ch : q.Channel) (name : String) (w : q.World) → view (n.consume ch name w).1 ≡ view w
  pub handles :
      (d : n.Delivery) (w : q.World)
      → view (handler d w).1 ≡ add_handled (view w) (d, succeeded (handler d w).0)
  pub acks : (d : n.Delivery) (w : q.World) → view (n.ack d w).1 ≡ add_settled (view w) (d, true)
  pub nacks : (d : n.Delivery) (w : q.World) → view (n.nack d w).1 ≡ add_settled (view w) (d, false)

-- The deliveries before the first event that ends the loop, and whether there is one.
abbrev pub until_end : {D : Type 0} → List (Event D) → List D × Bool
until_end [] = ([], false)
until_end (cancelled ∷ es) = ([], true)
until_end (channel_closed ∷ es) = ([], true)
until_end (delivery d ∷ es) = let (ds, ends) = until_end es in (d ∷ ds, ends)

module _ (q : Amqp) (n : Queues q) (handler : Handler q n) (view : q.World → History n.Delivery)
    (t : Recorded q n handler view) where
  settled_as_handled :
      (d : n.Delivery) (v : History n.Delivery) (o : Option GoError × q.World)
      → view o.1 ≡ add_handled v (d, succeeded o.0)
      → view (settle q n d o) ≡ behind v ((d, succeeded o.0) ∷ [])
  settled_as_handled d v (none, w) h = t.acks d w ∙ ap (λ x. add_settled x (d, true)) h
  settled_as_handled d v (some e, w) h = t.nacks d w ∙ ap (λ x. add_settled x (d, false)) h

  -- The loop's end: it ends with an error exactly if an event ends it.
  abbrev pub Looped :
      List (Event n.Delivery) → History n.Delivery → Option GoError × q.World → Type 0
  Looped es v (o, w) =
      let (ds, ends) = until_end es in Settles ds v (view w) × (not (succeeded o) ≡ ends)

  consume_events-Looped :
      (es : List (Event n.Delivery)) (w : q.World)
      → Looped es (view w) (consume_events q n handler es w)
  unfolding consume_events
  consume_events-Looped [] w = (Settles-none (view w) (view w) refl, refl)
  consume_events-Looped (cancelled ∷ es) w = (Settles-none (view w) (view w) refl, refl)
  consume_events-Looped (channel_closed ∷ es) w = (Settles-none (view w) (view w) refl, refl)
  consume_events-Looped (delivery d ∷ es) w =
      let w' = settle q n d (handler d w) in
      let (settles, ends) = consume_events-Looped es w' in
      (
        Settles-more d (succeeded (handler d w).0) (until_end es).0 (view w) (view w') _
            (settled_as_handled d (view w) (handler d w) (t.handles d w)) settles,
        ends,
      )

  -- Whether the loop starts: there is a channel, and the three calls on it succeed.
  abbrev starts_bound : q.Channel → String → Option GoError × q.World → Bool
  starts_bound ch name (some e, w) = false
  starts_bound ch name (none, w) = succeeded (n.consume ch name w).0

  abbrev starts_queue : String → q.Channel → ConsumeConfig → Result String × q.World → Bool
  starts_queue exchange ch cfg (err e, w) = false
  starts_queue exchange ch cfg (ok name, w) =
      starts_bound ch name (n.queue_bind ch name cfg.routing_key exchange w)

  abbrev pub starts : Config → Option (Held q) → ConsumeConfig → q.World → Bool
  starts c none cfg w = false
  starts c (some held) cfg w =
      starts_queue c.exchange held.ch cfg (n.queue_declare held.ch cfg.queue (queue_options cfg) w)

  -- A consumer's end: where the loop does not start, nothing was handled.
  abbrev pub Consumed :
      Bool → List (Event n.Delivery) → History n.Delivery → Option GoError × q.World → Type 0
  Consumed true es v o = Looped es v o
  Consumed false es v o = (succeeded o.0 ≡ false) × (view o.1 ≡ v)

  consuming-Consumed :
      (name : String) (es : List (Event n.Delivery)) (v : History n.Delivery)
      (o : Option GoError × q.World)
      → view o.1 ≡ v
      → Consumed (succeeded o.0) es v (consuming q n name handler es o)
  consuming-Consumed name es v (some e, w) h = (refl, h)
  consuming-Consumed name es v (none, w) h = rw (sym h) (consume_events-Looped es w)

  bound-Consumed :
      (ch : q.Channel) (name key : String) (es : List (Event n.Delivery)) (v : History n.Delivery)
      (o : Option GoError × q.World)
      → view o.1 ≡ v
      → Consumed (starts_bound ch name o) es v (bound q n ch name key handler es o)
  bound-Consumed ch name key es v (some e, w) h = (refl, h)
  bound-Consumed ch name key es v (none, w) h =
      consuming-Consumed name es v (n.consume ch name w) (t.same_consume ch name w ∙ h)

  with_queue-Consumed :
      (exchange : String) (ch : q.Channel) (cfg : ConsumeConfig) (es : List (Event n.Delivery))
      (v : History n.Delivery) (r : Result String × q.World)
      → view r.1 ≡ v
      → Consumed (starts_queue exchange ch cfg r) es v (with_queue q n exchange ch cfg handler es r)
  with_queue-Consumed exchange ch cfg es v (err e, w) h = (refl, h)
  with_queue-Consumed exchange ch cfg es v (ok name, w) h =
      bound-Consumed ch name cfg.routing_key es v (n.queue_bind ch name cfg.routing_key exchange w)
        (t.same_bind ch name cfg.routing_key exchange w ∙ h)

  -- Consume, the handler and the broker recorded as documented: it settles exactly the deliveries that
  -- come before the context is done or the delivery channel is closed, each once and in order, by an
  -- acknowledgement where its handler returned nil and by queueing it again where it did not; it ends,
  -- with an error, exactly when one of these two events comes. Where there is no channel, or one of
  -- the three calls that set the queue up fails, it ends with an error and has handled and settled
  -- nothing.
  pub consume-Consumed :
      (c : Config) (held : Option (Held q)) (cfg : ConsumeConfig) (es : List (Event n.Delivery))
      (w : q.World)
      → Consumed (starts c held cfg w) es (view w) (consume q n c held cfg handler es w)
  unfolding consume
  consume-Consumed c none cfg es w = (refl, refl)
  consume-Consumed c (some held) cfg es w =
      with_queue-Consumed c.exchange held.ch cfg es (view w)
        (n.queue_declare held.ch cfg.queue (queue_options cfg) w)
        (t.same_declare held.ch cfg.queue (queue_options cfg) w)
