-- ===== src/Kafka.antt =====
-- messaging/kafka/kafka.go: the consumer's construction and its loop.
-- kafka-go is not part of the repository: a record of calls over a state of the outside world, to
-- which the handler's own effects belong.
pub mod Commits
pub mod Producer
pub mod Probe
mod Tests
use idp_sdk.Common.{
  ℕ, zero, suc, ◌+◌, ◌-◌, ◌*◌, ◌/◌, ◌%◌, ◌^◌, ◌≤◌, ◌<◌, String, ◌≡◌, ◌≢◌, refl, sym, ap, ◌∙◌, ◌↔◌,
  ◌⊎◌, inl, inr, Bool, true, false, not, ◌&&◌, ◌||◌, Option, none, some, List, [], ◌∷◌, map, ℤ, pos,
  negsuc, arith, eq_iff, ◌==◌, eqb, ltb, leb, ◌<>◌, if◌then◌else◌, GoError, Result, ok, err,
  Bool-cases, Option-cases, ok-injective,
}
use idp_sdk.Common.Failure.{wrap_with, plain}

pub record Config : Type 0 where
  pub brokers : List String
  pub group_id : String

-- The fields of a `kafka.ReaderConfig` that are set.
pub record ReaderConfig : Type 0 where
  pub brokers : List String
  pub topic : String
  pub group_id : String
  pub min_bytes : ℕ
  pub max_bytes : ℕ
  pub commit_interval : ℤ

pub record Reader : Type 1 where
  pub World : Type 0
  pub Message : Type 0
  pub fetch_message : World → Result Message × World
  pub commit_messages : Message → World → Option GoError × World
  -- `ctx.Err()`
  pub context_error : World → Option GoError
  pub close_reader : World → Option GoError × World

-- `NewConsumer`, up to the reader that it makes.
unfoldable pub new_consumer : Config → String → Result ReaderConfig
new_consumer cfg topic =
    if cfg.group_id == ""
    then err (plain "kafka: Config.GroupID is required for consumer")
    else ok (record {
      brokers = cfg.brokers;
      topic = topic;
      group_id = cfg.group_id;
      min_bytes = 1;
      max_bytes = 10_000_000;
      commit_interval = pos 0;
    })

module _ (k : Reader) where
  abbrev pub Handler : Type 0
  Handler = k.Message → k.World → Option GoError × k.World

  -- A round of the loop ends it with an error, or does not.
  abbrev pub Round : Type 0
  Round = Option GoError × k.World

  abbrev not_fetched : GoError → Option GoError → Option GoError
  not_fetched e none = some (wrap_with "kafka: fetch message: " e)
  not_fetched e (some cancelled) = some cancelled

  abbrev committed : Option GoError × k.World → Round
  committed (some e, w) = (some (wrap_with "kafka: commit offset: " e), w)
  committed (none, w) = (none, w)

  abbrev handled : k.Message → Option GoError × k.World → Round
  handled msg (some e, w) = (some (wrap_with "kafka: handler error, stopping consume loop: " e), w)
  handled msg (none, w) = committed (k.commit_messages msg w)

  abbrev fetched : Handler → Result k.Message × k.World → Round
  fetched handler (err e, w) = (not_fetched e (k.context_error w), w)
  fetched handler (ok msg, w) = handled msg (handler msg w)

  unfoldable pub consume_round : Handler → k.World → Round
  consume_round handler w = fetched handler (k.fetch_message w)

  abbrev pub or_rounds : Round → (k.World → Round) → Round
  or_rounds (some e, w) rest = (some e, w)
  or_rounds (none, w) rest = rest w

  -- The first n rounds of the loop, which only an error ends; `none` where it goes on behind them.
  unfoldable pub consume : ℕ → Handler → k.World → Round
  consume zero handler w = (none, w)
  consume (suc n) handler w = or_rounds (consume_round handler w) (λ w'. consume n handler w')

  unfoldable pub close_consumer : k.World → Option GoError × k.World
  close_consumer w = k.close_reader w
