-- ===== src/Rabbit/Consumer.antt =====
-- messaging/rabbitmq/rabbitmq.go: the consumer.
-- Its loop is given what its `select` finds, one event after the other.
use idp_sdk.Common.{
  String, Bool, false, not, Option, none, some, List, [], ◌∷◌, ◌==◌, ◌<>◌, if◌then◌else◌, GoError,
  Result, ok, err,
}
use idp_sdk.Common.Failure.{wrap_with, plain}
use idp_sdk.Rabbit.{Config, Amqp, Held}

pub record ConsumeConfig : Type 0 where
  pub queue : String
  pub routing_key : String
  pub durable : Bool

-- The flags of `QueueDeclare`.
pub record QueueOptions : Type 0 where
  pub durable : Bool
  pub auto_delete : Bool
  pub exclusive : Bool
  pub no_wait : Bool

unfoldable pub queue_options : ConsumeConfig → QueueOptions
queue_options cfg =
    let durable = if cfg.queue == "" then false else cfg.durable in
    record {
      durable = durable;
      auto_delete = not durable;
      exclusive = not durable;
      no_wait = false;
    }

-- The calls of the AMQP library that only the consumer makes.
pub record Queues (q : Amqp) : Type 1 where
  pub Delivery : Type 0
  -- the name of the queue is the broker's, where it is given none
  pub queue_declare : q.Channel → String → QueueOptions → q.World → Result String × q.World
  pub queue_bind : q.Channel → String → String → String → q.World → Option GoError × q.World
  pub consume : q.Channel → String → q.World → Option GoError × q.World
  -- for this delivery only
  pub ack : Delivery → q.World → Option GoError × q.World
  -- for this delivery only, to be queued again
  pub nack : Delivery → q.World → Option GoError × q.World
  pub context_error : q.World → GoError

-- What a round's `select` finds.
pub data Event (D : Type 0) : Type 0 where
  cancelled : Event D
  channel_closed : Event D
  delivery : D → Event D

module _ (q : Amqp) (n : Queues q) where
  abbrev pub Handler : Type 0
  Handler = n.Delivery → q.World → Option GoError × q.World

  abbrev pub settle : n.Delivery → Option GoError × q.World → q.World
  settle d (some e, w) = (n.nack d w).1
  settle d (none, w) = (n.ack d w).1

  -- `none` where the loop goes on behind the events.
  unfoldable pub consume_events :
      Handler → List (Event n.Delivery) → q.World → Option GoError × q.World
  consume_events handler [] w = (none, w)
  consume_events handler (cancelled ∷ es) w = (some (n.context_error w), w)
  consume_events handler (channel_closed ∷ es) w =
      (some (plain "rabbitmq: delivery channel closed"), w)
  consume_events handler (delivery d ∷ es) w = consume_events handler es (settle d (handler d w))

  abbrev pub consuming :
      String
      → Handler
      → List (Event n.Delivery)
      → Option GoError × q.World
      → Option GoError × q.World
  consuming name handler es (some e, w) =
      (some (wrap_with ("rabbitmq: consume from " <> name <> ": ") e), w)
  consuming name handler es (none, w) = consume_events handler es w

  abbrev pub bound :
      q.Channel
      → String
      → String
      → Handler
      → List (Event n.Delivery)
      → Option GoError × q.World
      → Option GoError × q.World
  bound ch name routing_key handler es (some e, w) =
      (some (wrap_with ("rabbitmq: bind queue " <> name <> " to " <> routing_key <> ": ") e), w)
  bound ch name routing_key handler es (none, w) = consuming name handler es (n.consume ch name w)

  abbrev pub with_queue :
      String
      → q.Channel
      → ConsumeConfig
      → Handler
      → List (Event n.Delivery)
      → Result String × q.World
      → Option GoError × q.World
  with_queue exchange ch cfg handler es (err e, w) =
      (some (wrap_with ("rabbitmq: declare queue " <> cfg.queue <> ": ") e), w)
  with_queue exchange ch cfg handler es (ok name, w) =
      bound ch name cfg.routing_key handler es (n.queue_bind ch name cfg.routing_key exchange w)

  -- The configuration is that of the client, with its defaults.
  unfoldable pub consume :
      Config
      → Option (Held q)
      → ConsumeConfig
      → Handler
      → List (Event n.Delivery)
      → q.World
      → Option GoError × q.World
  consume c none cfg handler es w = (some (plain "rabbitmq: not connected"), w)
  consume c (some held) cfg handler es w =
      with_queue c.exchange held.ch cfg handler es
        (n.queue_declare held.ch cfg.queue (queue_options cfg) w)
