-- ===== src/Nats.antt =====
-- messaging/nats/nats.go: the connection, core NATS, streams and the durable consumer.
-- nats.go is not part of the repository: a record of calls over a state of the outside world, to which
-- the effects of the handlers belong. Durations are in nanoseconds. What a durable consumer does once
-- it is set up is a step relation, since its callback runs beside the call that waits.
pub mod Streams
pub mod Durable
mod Tests
use idp_sdk.Common.{
  ℕ, zero, suc, ◌+◌, ◌-◌, ◌*◌, ◌/◌, ◌%◌, ◌^◌, ◌≤◌, ◌<◌, String, ◌≡◌, ◌≢◌, refl, sym, ap, ◌∙◌, ◌↔◌,
  ◌⊎◌, inl, inr, Bool, true, false, not, ◌&&◌, ◌||◌, Option, none, some, List, [], ◌∷◌, map, ℤ, pos,
  negsuc, arith, eq_iff, ◌==◌, eqb, ltb, leb, ◌<>◌, if◌then◌else◌, GoError, Result, ok, err,
  Bool-cases, Option-cases, ok-injective,
}
use idp_sdk.Common.Failure.{wrap_with, plain}
use idp_sdk.Common.Int.{positive_or}

pub record Config : Type 0 where
  pub url : String
  pub connect_name : String
  pub connect_timeout : ℤ

-- The options of `nats.Connect`.
pub record ConnectOptions : Type 0 where
  pub name : String
  pub timeout : ℤ
  pub max_reconnects : ℤ
  pub reconnect_wait : ℤ

pub data AckPolicy : Type 0 where
  ack_explicit : AckPolicy

pub record ConsumerConfig : Type 0 where
  pub durable : String
  pub ack_policy : AckPolicy

pub record Nats : Type 1 where
  pub World : Type 0
  pub Conn : Type 0
  pub JetStream : Type 0
  pub Subscription : Type 0
  pub Stream : Type 0
  pub StreamConfig : Type 0
  pub Consumer : Type 0
  pub ConsumeContext : Type 0
  pub Message : Type 0
  pub connect : String → ConnectOptions → World → Result Conn × World
  pub new_jetstream : Conn → World → Result JetStream × World
  pub close : Conn → World → World
  pub is_connected : Conn → World → Bool
  pub status : Conn → World → String
  pub drain : Conn → World → Option GoError × World
  pub publish : Conn → String → String → World → Option GoError × World
  pub subscribe : Conn → String → (Message → World → World) → World → Result Subscription × World
  pub unsubscribe : Subscription → World → Option GoError × World
  -- the name of a stream's configuration
  pub stream_name : StreamConfig → String
  pub stream : JetStream → String → World → Result Stream × World
  pub create_stream : JetStream → StreamConfig → World → Result Stream × World
  pub publish_js : JetStream → String → String → World → Option GoError × World
  pub create_or_update_consumer : Stream → ConsumerConfig → World → Result Consumer × World
  pub consume : Consumer → (Message → World → World) → World → Result ConsumeContext × World
  pub stop : ConsumeContext → World → World
  pub ack : Message → World → Option GoError × World
  pub nak : Message → World → Option GoError × World
  -- `ctx.Err()` once the context is done
  pub context_error : World → GoError

unfoldable pub connect_options : Config → ConnectOptions
connect_options cfg = record {
  name = if cfg.connect_name == "" then "sdk-client" else cfg.connect_name;
  timeout = positive_or cfg.connect_timeout (pos 5_000_000_000);
  max_reconnects = negsuc 0;
  reconnect_wait = pos 2_000_000_000;
}

module _ (n : Nats) where
  pub record Client : Type 0 where
    pub conn : n.Conn
    pub js : n.JetStream

  abbrev with_jetstream : n.Conn → Result n.JetStream × n.World → Result Client × n.World
  with_jetstream conn (err e, w) =
      (err (wrap_with "nats: creating jetstream context: " e), n.close conn w)
  with_jetstream conn (ok js, w) = (ok (record { conn = conn; js = js }), w)

  abbrev with_conn : String → Result n.Conn × n.World → Result Client × n.World
  with_conn url (err e, w) = (err (wrap_with ("nats: connect to " <> url <> ": ") e), w)
  with_conn url (ok conn, w) = with_jetstream conn (n.new_jetstream conn w)

  unfoldable pub new : Config → n.World → Result Client × n.World
  new cfg w = with_conn cfg.url (n.connect cfg.url (connect_options cfg) w)

  unfoldable pub check : Client → n.World → Option GoError
  check c w =
      if n.is_connected c.conn w
      then none
      else some (plain ("nats: not connected (status: " <> n.status c.conn w <> ")"))

  -- `Close`, which drains.
  unfoldable pub close_client : Client → n.World → Option GoError × n.World
  close_client c w = n.drain c.conn w

  unfoldable pub publish_core : Client → String → String → n.World → Option GoError × n.World
  publish_core c subject bytes w = n.publish c.conn subject bytes w

  abbrev subscribed :
      String
      → Result n.Subscription × n.World
      → Result (n.World → Option GoError × n.World) × n.World
  subscribed subject (err e, w) = (err (wrap_with ("nats: subscribe to " <> subject <> ": ") e), w)
  subscribed subject (ok sub, w) = (ok (n.unsubscribe sub), w)

  unfoldable pub subscribe_core :
      Client
      → String
      → (n.Message → n.World → n.World)
      → n.World
      → Result (n.World → Option GoError × n.World) × n.World
  subscribe_core c subject handler w = subscribed subject (n.subscribe c.conn subject handler w)

  abbrev created : String → Result n.Stream × n.World → Result n.Stream × n.World
  created name (err e, w) = (err (wrap_with ("nats: creating stream " <> name <> ": ") e), w)
  created name (ok stream, w) = (ok stream, w)

  abbrev looked_up : Client → n.StreamConfig → Result n.Stream × n.World → Result n.Stream × n.World
  looked_up c cfg (ok stream, w) = (ok stream, w)
  looked_up c cfg (err e, w) = created (n.stream_name cfg) (n.create_stream c.js cfg w)

  unfoldable pub ensure_stream : Client → n.StreamConfig → n.World → Result n.Stream × n.World
  ensure_stream c cfg w = looked_up c cfg (n.stream c.js (n.stream_name cfg) w)

  abbrev published : String → Option GoError × n.World → Option GoError × n.World
  published subject (some e, w) =
      (some (wrap_with ("nats: jetstream publish to " <> subject <> ": ") e), w)
  published subject (none, w) = (none, w)

  unfoldable pub publish_durable : Client → String → String → n.World → Option GoError × n.World
  publish_durable c subject bytes w = published subject (n.publish_js c.js subject bytes w)

  abbrev pub Handler : Type 0
  Handler = n.Message → n.World → Option GoError × n.World

  -- The callback that `Consume` is given. Whether the settlement fails is not told.
  abbrev pub settled : n.Message → Option GoError × n.World → n.World
  settled msg (some e, w) = (n.nak msg w).1
  settled msg (none, w) = (n.ack msg w).1

  unfoldable pub on_message : Handler → n.Message → n.World → n.World
  on_message handler msg w = settled msg (handler msg w)

  -- Where the call of `ConsumeDurable` stands: failed before the loop, waiting for the end of its
  -- context, with the context's error in hand and the deferred `Stop` ahead, or returned.
  pub data Phase : Type 0 where
    failed : GoError → Phase
    blocked : n.ConsumeContext → Phase
    stopping : n.ConsumeContext → GoError → Phase
    returned : GoError → Phase

  -- Whether the callback can be called.
  abbrev pub IsStarted : Phase → Type 0
  IsStarted (failed e) = ⊥
  IsStarted _ = Unit

  -- A durable consumer: the call, and the callback, which runs beside it on one message at a time, with
  -- the message whose handler has returned and which is not settled yet.
  pub record Consumption : Type 0 where
    pub phase : Phase
    pub in_flight : Option (n.Message × Option GoError)
    pub world : n.World

  abbrev quiet : Phase → n.World → Consumption
  quiet phase w = record { phase = phase; in_flight = none; world = w }

  abbrev loop_started : Result n.ConsumeContext × n.World → Consumption
  loop_started (err e, w) = quiet (failed (wrap_with "nats: starting consume loop: " e)) w
  loop_started (ok cons, w) = quiet (blocked cons) w

  abbrev with_consumer : String → Handler → Result n.Consumer × n.World → Consumption
  with_consumer name handler (err e, w) =
      quiet (failed (wrap_with ("nats: creating consumer " <> name <> ": ") e)) w
  with_consumer name handler (ok consumer, w) =
      loop_started (n.consume consumer (on_message handler) w)

  abbrev with_stream : String → String → Handler → Result n.Stream × n.World → Consumption
  with_stream stream_name name handler (err e, w) =
      quiet (failed (wrap_with ("nats: stream " <> stream_name <> ": ") e)) w
  with_stream stream_name name handler (ok stream, w) =
      with_consumer name handler (
        n.create_or_update_consumer stream (record { durable = name; ack_policy = ack_explicit }) w)

  -- The call up to the receive on `ctx.Done()`, or its error.
  unfoldable pub consume_durable : Client → String → String → Handler → n.World → Consumption
  consume_durable c stream_name name handler w =
      with_stream stream_name name handler (n.stream c.js stream_name w)

  -- What happens then, in any order: nats.go calls the callback for a message, the call and its
  -- settlement being two steps, whatever the call of `ConsumeDurable` does meanwhile; and that goes
  -- on once its context is done, without waiting for the callback. Nothing is assumed on when the
  -- callbacks end behind `Stop`.
  pub data DurableStep (handler : Handler) : Consumption → Consumption → Type 0 where
    handles :
        {ph : Phase} {w : n.World} (m : n.Message)
        → IsStarted ph
        → DurableStep handler
            (record { phase = ph; in_flight = none; world = w })
            (record { phase = ph; in_flight = some (m, (handler m w).0); world = (handler m w).1 })
    settles :
        {ph : Phase} {w : n.World} {m : n.Message} {verdict : Option GoError}
        → DurableStep handler
            (record { phase = ph; in_flight = some (m, verdict); world = w })
            (record { phase = ph; in_flight = none; world = settled m (verdict, w) })
    context_ends :
        {cons : n.ConsumeContext} {o : Option (n.Message × Option GoError)} {w : n.World}
        → DurableStep handler
            (record { phase = blocked cons; in_flight = o; world = w })
            (record { phase = stopping cons (n.context_error w); in_flight = o; world = w })
    stops :
        {cons : n.ConsumeContext} {e : GoError} {o : Option (n.Message × Option GoError)}
        {w : n.World}
        → DurableStep handler
            (record { phase = stopping cons e; in_flight = o; world = w })
            (record { phase = returned e; in_flight = o; world = n.stop cons w })

  pub data DurableSteps (handler : Handler) (s : Consumption) : Consumption → Type 0 where
    here : DurableSteps handler s s
    after :
        {t u : Consumption}
        → DurableSteps handler s t
        → DurableStep handler t u
        → DurableSteps handler s u
