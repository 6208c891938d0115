-- ===== src/Kafka/Tests.antt =====
-- Runs of messaging/kafka/kafka.go, and its theorems at concrete inputs.
use idp_sdk.Common.{ℕ, zero, suc, ◌≡◌, refl, none, some, List, [], ◌∷◌, GoError, Result, ok, err}
use idp_sdk.Common.{
  ◌++◌, Bool, true, false, ℤ, pos, String, if◌then◌else◌, Memᴰ, length, insert, ◌<◌, arith,
}
use idp_sdk.Common.Failure.{plain, wrap_with}
use idp_sdk.Kafka.Producer.{Broker, Writer, new_producer, check, publish}
use idp_sdk.Kafka.Probe.{is_network, DialsNetworks, producer_checker, never_ready}
use idp_sdk.Health.{Registry, register}
use idp_sdk.Health as Health
use idp_sdk.Kafka.{Reader, Handler, consume, consume_round}
use idp_sdk.Kafka.Commits.{Ledger, Run, consume-Run}

-- A partition: what is left to fetch, what was handled, what was committed.
record Partition : Type 0 where
  left : List ℕ
  done : List ℕ
  kept : List ℕ

abbrev take_next : List ℕ → Partition → Result ℕ × Partition
take_next [] w = (err (plain "EOF"), w)
take_next (m ∷ ms) w = (ok m, record w { left = ms })

abbrev partition : Reader
partition = record {
  World = Partition;
  Message = ℕ;
  fetch_message = λ w. take_next w.left w;
  commit_messages = λ m w. (none, record w { kept = w.kept ++ (m ∷ []) });
  context_error = λ w. none;
  close_reader = λ w. (none, w);
}

-- A handler that fails at the message 0.
abbrev handle : Handler partition
handle zero w = (some (plain "poison"), w)
handle (suc n) w = (none, record w { done = w.done ++ (suc n ∷ []) })

take_next_keeps :
    (ms : List ℕ) (w : Partition)
    → ((take_next ms w).1.done ≡ w.done) × ((take_next ms w).1.kept ≡ w.kept)
take_next_keeps [] w = (refl, refl)
take_next_keeps (m ∷ ms) w = (refl, refl)

handle_done :
    (m : ℕ) (w : Partition) → (handle m w).0 ≡ none → (handle m w).1.done ≡ w.done ++ (m ∷ [])
handle_done zero w h = cc
handle_done (suc n) w h = refl

handle_fails :
    (m : ℕ) (w : Partition) (e : GoError) → (handle m w).0 ≡ some e → (handle m w).1.done ≡ w.done
handle_fails zero w e h = refl
handle_fails (suc n) w e h = cc

handle_kept : (m : ℕ) (w : Partition) → (handle m w).1.kept ≡ w.kept
handle_kept zero w = refl
handle_kept (suc n) w = refl

partition-Ledger : Ledger partition handle (λ w. w.done) (λ w. w.kept)
partition-Ledger = record {
  fetch_adds_none = λ w. take_next_keeps w.left w;
  succeeds = handle_done;
  handler_fails = handle_fails;
  kept_handler = handle_kept;
  commits = λ m w h. refl;
  commit_fails = λ m w e h. cc;
  done_commit = λ m w. refl;
}

abbrev poisoned : Partition
poisoned = record { left = 3 ∷ 1 ∷ 0 ∷ 2 ∷ []; done = []; kept = [] }

stopped : (consume partition 9 handle poisoned).1.kept ≡ 3 ∷ 1 ∷ []
unfolding consume consume_round
stopped = refl

consume-Run_example :
    Run partition handle
      (λ w. w.done)
      (λ w. w.kept)
      partition-Ledger
      poisoned
      (consume partition 9 handle poisoned)
consume-Run_example =
    consume-Run partition handle (λ w. w.done) (λ w. w.kept) partition-Ledger 9 poisoned

-- A network with one broker, which writes nothing.
abbrev dial_on : Bool → Result String
dial_on known = if known then ok "conn" else err (plain "dial: unknown network")

abbrev network : Broker
network = record {
  World = ℤ;
  Conn = String;
  now = λ w. w;
  write_messages = λ p ms w. (some (plain "leader not available"), w);
  close_writer = λ p w. (none, w);
  tcp_text = λ brokers. "kafka:9092";
  dial_context = λ name address timeout w. (dial_on (is_network name), w);
  close = λ conn w. (none, w);
}

dial_on_known : (b : Bool) (conn : String) → dial_on b ≡ ok conn → b ≡ true
dial_on_known true conn h = refl
dial_on_known false conn h = cc

network-DialsNetworks : DialsNetworks network
network-DialsNetworks name address timeout w conn h = dial_on_known (is_network name) conn h

abbrev orders : Writer
orders = new_producer (record { brokers = "kafka:9092" ∷ []; group_id = "" }) "orders"

-- The check of a broker that can be dialled.
unreachable :
    (check network orders (pos 2_000_000_000) (pos 7)).0
    ≡ some (wrap_with "kafka: broker unreachable: " (plain "dial: unknown network"))
unfolding check
unreachable = refl

unpublished :
    (publish network orders "7" "{}" (pos 7)).0
    ≡ some (wrap_with "kafka: publish to orders: " (plain "leader not available"))
unfolding publish new_producer
unpublished = refl

abbrev probes : Registry
probes =
    register "kafka" (producer_checker network network-DialsNetworks orders (pos 7))
      (record { checkers = ("postgres", λ _. none) ∷ []; timeout = pos 2_000_000_000 })

both_finish : (i : ℕ) → i < length probes.checkers → Memᴰ i (1 ∷ 0 ∷ [])
unfolding register insert
both_finish zero h = Memᴰ.tail (Memᴰ.head refl)
both_finish (suc zero) h = Memᴰ.head refl
both_finish (suc (suc i)) h = absurd (omega (arith, h))

never_ready_example : (Health.check probes (1 ∷ 0 ∷ [])).ready ≡ false
never_ready_example =
    never_ready network network-DialsNetworks orders (pos 7) "kafka"
      (record { checkers = ("postgres", λ _. none) ∷ []; timeout = pos 2_000_000_000 }) (1 ∷ 0 ∷ [])
      both_finish
