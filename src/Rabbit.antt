-- ===== src/Rabbit.antt =====
-- messaging/rabbitmq/rabbitmq.go: the client's connection, and its calls on the broker.
-- The AMQP library is not part of the repository: a record of calls over a state of the outside
-- world. Durations are in nanoseconds. The loop that reconnects is in Rabbit/Loop.
pub mod Loop
pub mod Reconnect
pub mod Connections
pub mod Consumer
pub mod Deliveries
mod Tests
use idp_sdk.Common.{
  ℕ, zero, suc, ◌+◌, ◌-◌, ◌*◌, ◌/◌, ◌%◌, ◌^◌, ◌≤◌, ◌<◌, String, ◌≡◌, ◌≢◌, refl, sym, ap, ◌∙◌, ◌↔◌,
  ◌⊎◌, inl, inr, Bool, true, false, not, ◌&&◌, ◌||◌, Option, none, some, List, [], ◌∷◌, map, ℤ, pos,
  negsuc, arith, eq_iff, ◌==◌, eqb, ltb, leb, ◌<>◌, if◌then◌else◌, GoError, Result, ok, err,
  Bool-cases, Option-cases, ok-injective,
}
use idp_sdk.Common.Failure.{wrap_with, plain}
use idp_sdk.Common.Int.{positive_or}

pub record Config : Type 0 where
  pub url : String
  pub exchange : String
  pub reconnect_delay : ℤ

pub record Amqp : Type 1 where
  pub World : Type 0
  pub Connection : Type 0
  pub Channel : Type 0
  pub dial : String → World → Result Connection × World
  pub channel : Connection → World → Result Channel × World
  pub exchange_declare : Channel → String → World → Option GoError × World
  pub close_channel : Channel → World → World
  pub close : Connection → World → Option GoError × World
  pub is_closed : Connection → World → Bool
  pub publish : Channel → String → String → String → World → Option GoError × World

unfoldable pub with_defaults : Config → Config
with_defaults cfg = record cfg {
  exchange = if cfg.exchange == "" then "events" else cfg.exchange;
  reconnect_delay = positive_or cfg.reconnect_delay (pos 2_000_000_000);
}

-- `redactURL`
abbrev pub redacted : String
redacted = "amqp://<redacted>"

module _ (q : Amqp) where
  -- What the client holds behind its mutex.
  pub record Held : Type 0 where
    pub conn : q.Connection
    pub ch : q.Channel

  abbrev declared :
      Config → q.Connection → q.Channel → Option GoError × q.World → Result Held × q.World
  declared cfg conn ch (some e, w) = (
    err (wrap_with ("rabbitmq: declare exchange " <> cfg.exchange <> ": ") e),
    (q.close conn (q.close_channel ch w)).1,
  )
  declared cfg conn ch (none, w) = (ok (record { conn = conn; ch = ch }), w)

  abbrev with_channel : Config → q.Connection → Result q.Channel × q.World → Result Held × q.World
  with_channel cfg conn (err e, w) =
      (err (wrap_with "rabbitmq: open channel: " e), (q.close conn w).1)
  with_channel cfg conn (ok ch, w) = declared cfg conn ch (q.exchange_declare ch cfg.exchange w)

  abbrev with_connection : Config → Result q.Connection × q.World → Result Held × q.World
  with_connection cfg (err e, w) = (err (wrap_with ("rabbitmq: dial " <> redacted <> ": ") e), w)
  with_connection cfg (ok conn, w) = with_channel cfg conn (q.channel conn w)

  unfoldable pub connect : Config → q.World → Result Held × q.World
  connect cfg w = with_connection cfg (q.dial cfg.url w)

  -- `New`, up to the start of the loop.
  unfoldable pub new : Config → q.World → Result Held × q.World
  new cfg w = connect (with_defaults cfg) w

  unfoldable pub check : Option Held → q.World → Option GoError
  check none w = some (plain "rabbitmq: connection closed")
  check (some held) w =
      if q.is_closed held.conn w then some (plain "rabbitmq: connection closed") else none

  -- What `Close` does once the loop is told.
  unfoldable pub close_held : Option Held → q.World → Option GoError × q.World
  close_held none w = (none, w)
  close_held (some held) w = q.close held.conn (q.close_channel held.ch w)

  -- How `Close` ends: closing the channel of the loop a second time panics.
  pub data Closed : Type 0 where
    returned : Option GoError → Closed
    panicked : String → Closed

  -- `closed` tells whether the channel of the loop is closed.
  unfoldable pub close_client : (closed : Bool) → Option Held → q.World → Closed × Bool × q.World
  close_client true held w = (panicked "close of closed channel", true, w)
  close_client false held w = let (e, w') = close_held held w in (returned e, true, w')

  unfoldable pub publish_event :
      Config → Option Held → String → String → q.World → Option GoError × q.World
  publish_event cfg none routing_key body w = (some (plain "rabbitmq: not connected"), w)
  publish_event cfg (some held) routing_key body w =
      q.publish held.ch cfg.exchange routing_key body w
