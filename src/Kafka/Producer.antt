-- ===== src/Kafka/Producer.antt =====
-- messaging/kafka/kafka.go: the producer.
-- kafka-go is not part of the repository: a record of calls over a state of the outside world.
-- Durations are in nanoseconds.
use idp_sdk.Common.{
  String, Bool, false, Option, none, some, List, [], ◌∷◌, ℤ, pos, ◌<>◌, GoError, Result, ok, err,
}
use idp_sdk.Common.Failure.{wrap_with}
use idp_sdk.Kafka.{Config}

pub data Balancer : Type 0 where
  hash : Balancer

pub data RequiredAcks : Type 0 where
  require_all : RequiredAcks

-- A `kafka.Message`, as far as the code sets it.
pub record Message : Type 0 where
  pub key : String
  pub value : String
  pub time : ℤ

-- The fields of a `kafka.Writer` that are set, with what its address is made of.
pub record Writer : Type 0 where
  pub brokers : List String
  pub topic : String
  pub balancer : Balancer
  pub required_acks : RequiredAcks
  pub is_async : Bool
  pub batch_timeout : ℤ

pub record Broker : Type 1 where
  pub World : Type 0
  pub Conn : Type 0
  pub now : World → ℤ
  pub write_messages : Writer → List Message → World → Option GoError × World
  pub close_writer : Writer → World → Option GoError × World
  -- `kafka.TCP(brokers...).String()`
  pub tcp_text : List String → String
  -- a network, an address and a timeout
  pub dial_context : String → String → ℤ → World → Result Conn × World
  pub close : Conn → World → Option GoError × World

unfoldable pub new_producer : Config → String → Writer
new_producer cfg topic = record {
  brokers = cfg.brokers;
  topic = topic;
  balancer = hash;
  required_acks = require_all;
  is_async = false;
  batch_timeout = pos 10_000_000;
}

module _ (b : Broker) where
  abbrev published : String → Option GoError × b.World → Option GoError × b.World
  published topic (some e, w) = (some (wrap_with ("kafka: publish to " <> topic <> ": ") e), w)
  published topic (none, w) = (none, w)

  unfoldable pub publish : Writer → String → String → b.World → Option GoError × b.World
  publish p key value w =
      published p.topic
        (b.write_messages p (record { key = key; value = value; time = b.now w } ∷ []) w)

  abbrev pub dialed : Result b.Conn × b.World → Option GoError × b.World
  dialed (err e, w) = (some (wrap_with "kafka: broker unreachable: " e), w)
  dialed (ok conn, w) = b.close conn w

  -- The network is spelled as in the code.
  unfoldable pub check : Writer → ℤ → b.World → Option GoError × b.World
  check p timeout w = dialed (b.dial_context "tpc" (b.tcp_text p.brokers) timeout w)

  unfoldable pub close_producer : Writer → b.World → Option GoError × b.World
  close_producer p w = b.close_writer p w
